-- ===== src/CortexM/Restart.antt =====
-- A reset that is caught at the reset vector.
use alonzo_bootloader_zephyr.Base.{ℕ, ◌<◌, ◌≡◌, refl, ◌∙◌, ◌⊎◌, inl, inr, Bool, Exec, ◌>>=◌}
use alonzo_bootloader_zephyr.Base.Works.{Works, Success, Success-mono}
use alonzo_bootloader_zephyr.Dap.Port.{DebugPort}
use alonzo_bootloader_zephyr.CortexM.{halt_retries, wait_dhcsr}
use alonzo_bootloader_zephyr.CortexM.Register.{dhcsr, s_halt}
use alonzo_bootloader_zephyr.CortexM.Resetting.{
  Phase, halting, stopped, Machine, IsStill, Step, Restarts,
}
use alonzo_bootloader_zephyr.CortexM.Waiting.{wait_until}

module _ {from to : ℕ} where
  Step-trans :
      {ph ph' : Phase} {d d' : ℕ} (w w' w'' : Machine)
      → (IsStill w.phase → IsStill ph)
      → Step from to ph d w w'
      → Step from to ph' d' w' w''
      → Step from to ph' d' w w''
  Step-trans w w' w'' still a b = record {
    phase_now = b.phase_now;
    control_now = b.control_now;
    flash = λ h n lo hi.
        let h' : IsStill w'.phase = rw a.phase_now (still h) in
        b.flash h' n lo hi ∙ a.flash h n lo hi;
  }

  -- A step that leaves the phase and DEMCR alone.
  Step-stays :
      {ph : Phase} {d : ℕ} (w w' w'' : Machine)
      → (IsStill w.phase → IsStill ph)
      → Step from to ph d w w'
      → Step from to w'.phase w'.control w' w''
      → Step from to ph d w w''
  Step-stays w w' w'' still a b =
      let c = Step-trans w w' w'' still a b in
      record {
        phase_now = c.phase_now ∙ a.phase_now;
        control_now = c.control_now ∙ a.control_now;
        flash = c.flash;
      }

  -- A step that leaves DEMCR alone.
  Step-kept :
      {ph ph' : Phase} {d : ℕ} (w w' w'' : Machine)
      → (IsStill w.phase → IsStill ph)
      → Step from to ph d w w'
      → Step from to ph' w'.control w' w''
      → Step from to ph' d w w''
  Step-kept w w' w'' still a b =
      let c = Step-trans w w' w'' still a b in
      record {
        phase_now = c.phase_now;
        control_now = c.control_now ∙ a.control_now;
        flash = c.flash;
      }

module _ {S : Type 0} (port : DebugPort S) (view : S → Machine) (latency : S → ℕ) (stale : Bool)
    (from to : ℕ) (law : Restarts port view latency stale from to) where
  -- What is known of the machine at the start of a call is known of the call.
  onward :
      {A : Type 0} {P : S → Type 0} {Q : A → S → Type 0} (m : Exec S A) (R : S → A → S → Type 0)
      → ((s : S) → P s → Success (R s) (m s))
      → ((s : S) (a : A) (s' : S) → P s → R s a s' → Q a s')
      → Works P m Q
  onward {Q} m R does next = record {
    at = λ s p.
        let (r, s') = m s in
        Success-mono {Q = R s} {Q' = Q} r s' (λ a t q. next s a t p q) (does s p);
  }

  -- From the machine `w` to that of now.
  abbrev At : Machine → Phase → ℕ → S → Type 0
  At w ph d s = Step from to ph d w (view s)

  module _ (w : Machine) (ph : Phase) (d : ℕ) (still : IsStill w.phase → IsStill ph) where
    waits : (us : ℕ) (s : S) → At w ph d s → At w ph d (port.wait us s)
    waits us s h = Step-stays w (view s) _ still h (law.waits us s)

    -- The polls of a core that was told to halt.
    wait_halted :
        (ph ≡ halting) ⊎ (ph ≡ stopped)
        → Works
            (λ s. At w ph d s × (latency s < halt_retries))
            (wait_dhcsr port s_halt s_halt halt_retries)
            (λ _. At w stopped d)
    wait_halted halts =
        wait_until port latency law.waits_latency s_halt s_halt (At w ph d) (At w stopped d) waits
          (λ n.
            onward (port.mem_read32 dhcsr) _
              (λ s h.
                let halts' : ((view s).phase ≡ halting) ⊎ ((view s).phase ≡ stopped) =
                  rw h.0.phase_now halts in
                (law.halt_polls (view s) n halts').at s (refl, h.1))
              (λ s v s' h r. elim r [
                | inl c ↦ inl (c.0, Step-kept w (view s) _ still h.0 c.1)
                | inr c ↦ inr (c.0, Step-stays w (view s) _ still h.0 c.1, c.2)
              ]))
          halt_retries
