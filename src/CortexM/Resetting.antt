-- ===== src/CortexM/Resetting.antt =====
-- What a core does when it is halted, and when it is reset while the reset is caught.
use alonzo_bootloader_zephyr.Base.{
  ℕ, ◌%◌, ◌≤◌, ◌<◌, ◌≡◌, ◌≢◌, ◌⊎◌, Bool, true, false, bit_and, bit_or, ◌==◌,
}
use alonzo_bootloader_zephyr.Base.Works.{Works}
use alonzo_bootloader_zephyr.Dap.Port.{DebugPort}
use alonzo_bootloader_zephyr.CortexM.{halt_retries}
use alonzo_bootloader_zephyr.CortexM.Register.{
  dhcsr, demcr, aircr, dbgkey, c_debugen, c_halt, s_halt, vectkey, sysresetreq,
}

-- `halting` is a core that was told to halt and has not been seen to, `stopped` one that is halted
-- in debug state, `resetting` one whose reset was asked for and has not been seen to end, and
-- `at_vector` one that the catch of its reset has halted before its first instruction.
pub data Phase : Type 0 where
  running halting stopped resetting at_vector : Phase

-- The memory, in words, and the word in DEMCR.
pub record Machine : Type 0 where
  pub memory : ℕ → ℕ
  pub control : ℕ
  pub phase : Phase

-- No instruction is executed.
abbrev pub IsStill : Phase → Type 0
IsStill running = ⊥
IsStill halting = ⊥
IsStill stopped = Unit
IsStill resetting = Unit
IsStill at_vector = Unit

-- The phase after C_HALT is set.
abbrev pub stopping : Phase → Phase
stopping running = halting
stopping halting = halting
stopping stopped = stopped
stopping resetting = resetting
stopping at_vector = stopped

-- From the machine `w` to `w'`: the phase is now `phase` and DEMCR holds `control`; a core that
-- executed nothing has left the words of the flash between `from` and `to` alone.
pub record Step (from to : ℕ) (phase : Phase) (control : ℕ) (w w' : Machine) : Type 0 where
  pub phase_now : w'.phase ≡ phase
  pub control_now : w'.control ≡ control
  pub flash : IsStill w.phase → (a : ℕ) → from ≤ a → a < to → w'.memory a ≡ w.memory a

-- A reset that was asked for has been caught; or, if S_HALT may still be read from before the
-- reset (`stale`), it may be under way.
abbrev pub Caught : Bool → (from to control : ℕ) → Machine → Machine → Type 0
Caught stale from to control w w' =
    Step from to at_vector control w w' ⊎ ((stale ≡ true) × Step from to resetting control w w')

-- What is assumed of the core, by the ARMv7-M architecture: it halts some reads of DHCSR after
-- C_HALT is set, whatever it did before; a reset that is asked for on a stopped core, while DEMCR
-- has the catch, ends some reads of DHCSR later with the core at its vector; DHCSR shows S_HALT
-- then and, if `stale`, perhaps before. `latency` bounds those reads. DEMCR is read and written in
-- every phase. Nothing but what the core executes changes the flash.
pub record Restarts {S : Type 0} (port : DebugPort S) (view : S → Machine) (latency : S → ℕ)
    (stale : Bool) (from to : ℕ) : Type 0 where
  pub reads :
      (w : Machine)
      → Works
          (λ s. view s ≡ w)
          (port.mem_read32 demcr)
          (λ v s. (v ≡ w.control) × Step from to w.phase w.control w (view s))
  pub writes :
      (w : Machine) (v : ℕ)
      → Works
          (λ s. view s ≡ w)
          (port.mem_write32 demcr v)
          (λ _ s. Step from to w.phase v w (view s))
  pub halts :
      (w : Machine)
      → w.phase ≢ resetting
      → Works
          (λ s. view s ≡ w)
          (port.mem_write32 dhcsr (bit_or (bit_or dbgkey c_debugen) c_halt))
          (λ _ s. Step from to (stopping w.phase) w.control w (view s) × (latency s < halt_retries))
  pub halt_polls :
      (w : Machine) (n : ℕ)
      → (w.phase ≡ halting) ⊎ (w.phase ≡ stopped)
      → Works
          (λ s. (view s ≡ w) × (latency s ≡ n))
          (port.mem_read32 dhcsr)
          (λ v s.
            (((bit_and v s_halt == s_halt) ≡ true) × Step from to stopped w.control w (view s))
            ⊎ (((bit_and v s_halt == s_halt) ≡ false)
                × Step from to w.phase w.control w (view s)
                × (latency s < n)))
  pub resets :
      (w : Machine)
      → w.phase ≡ stopped
      → w.control % 2 ≡ 1
      → Works
          (λ s. view s ≡ w)
          (port.mem_write32 aircr (bit_or vectkey sysresetreq))
          (λ _ s. Step from to resetting w.control w (view s) × (latency s < halt_retries))
  pub reset_polls :
      (w : Machine) (n : ℕ)
      → w.phase ≡ resetting
      → w.control % 2 ≡ 1
      → Works
          (λ s. (view s ≡ w) × (latency s ≡ n))
          (port.mem_read32 dhcsr)
          (λ v s.
            (((bit_and v s_halt == s_halt) ≡ true) × Caught stale from to w.control w (view s))
            ⊎ (((bit_and v s_halt == s_halt) ≡ false)
                × Step from to resetting w.control w (view s)
                × (latency s < n)))
  pub waits :
      (us : ℕ) (s : S)
      → Step from to (view s).phase (view s).control (view s) (view (port.wait us s))
  pub waits_latency : (us : ℕ) (s : S) → latency (port.wait us s) ≤ latency s
