-- ===== src/CortexM/Core.antt =====
-- Register transfers through DCRSR and DCRDR, against the documented behaviour of a halted core.
use alonzo_bootloader_zephyr.Base.{
  ℕ, zero, suc, ◌≤◌, ◌≡◌, refl, ◌∙◌, arith, bit_and, bit_or, etimedout, ◌==◌, if◌then◌else◌,
}
use alonzo_bootloader_zephyr.Base.Hoare.{
  Triple-pure, Triple-raise, Triple-if, Triple-bind, Triple-modify,
}
use alonzo_bootloader_zephyr.Bits.{bit_and-mask}
use alonzo_bootloader_zephyr.Dap.Port.{DebugPort}
use alonzo_bootloader_zephyr.Dap.Memory.{Done, store}
use alonzo_bootloader_zephyr.CortexM.Register.{dhcsr, dcrsr, dcrdr, s_regrdy, regwnr, regsel_mask}
use alonzo_bootloader_zephyr.CortexM.{poll_us, regrdy_retries, wait_dhcsr, read_reg, write_reg}

-- A transfer that has been asked for: to or from the register with the given selector.
pub data Request : Type 0 where
  idle : Request
  to_register from_register : ℕ → Request

-- The registers by their selectors, the word in DCRDR, and the transfer under way.
pub record Core : Type 0 where
  pub registers : ℕ → ℕ
  pub transfer : ℕ
  pub request : Request

-- The transfer is made.
abbrev pub complete_request : Request → Core → Core
complete_request idle w = w
complete_request (to_register n) w = record w {
  registers = store w.registers n w.transfer;
  request = idle;
}
complete_request (from_register n) w = record w { transfer = w.registers n; request = idle }

abbrev pub complete : Core → Core
complete w = complete_request w.request w

-- What the ARMv7-M architecture says of a halted core: a write to DCRSR asks for a transfer, which
-- counts as made when a read of DHCSR shows S_REGRDY; DCRDR has the word to pass.
pub record IsHalted {S : Type 0} (port : DebugPort S) (view : S → Core) : Type 0 where
  pub write_dcrdr :
      (w : Core) (v : ℕ)
      → w.request ≡ idle
      → Done
          (λ s. view s ≡ w)
          (port.mem_write32 dcrdr v)
          (λ _ s. view s ≡ record w { transfer = v })
  pub ask_to :
      (w : Core) (n : ℕ)
      → n ≤ regsel_mask
      → Done
          (λ s. view s ≡ w)
          (port.mem_write32 dcrsr (bit_or regwnr n))
          (λ _ s. view s ≡ record w { request = to_register n })
  pub ask_from :
      (w : Core) (n : ℕ)
      → n ≤ regsel_mask
      → Done
          (λ s. view s ≡ w)
          (port.mem_write32 dcrsr n)
          (λ _ s. view s ≡ record w { request = from_register n })
  pub poll :
      (w : Core)
      → Done
          (λ s. view s ≡ w)
          (port.mem_read32 dhcsr)
          (λ v s. view s ≡ (if bit_and v s_regrdy == s_regrdy then complete w else w))
  pub read_dcrdr :
      (w : Core)
      → w.request ≡ idle
      → Done (λ s. view s ≡ w) (port.mem_read32 dcrdr) (λ v s. (v ≡ w.transfer) × (view s ≡ w))
  pub waits : (us : ℕ) (s : S) → view (port.wait us s) ≡ view s

module _ {S : Type 0} (port : DebugPort S) (view : S → Core) (law : IsHalted port view) where
  wait_regrdy :
      (left : ℕ) (w : Core)
      → Done (λ s. view s ≡ w) (wait_dhcsr port s_regrdy s_regrdy left) (λ _ s. view s ≡ complete w)
  unfolding wait_dhcsr
  wait_regrdy zero w = Triple-raise etimedout (λ s e. tt)
  wait_regrdy (suc left) w = Triple-bind (port.mem_read32 dhcsr) _ (law.poll w) λ value.
      Triple-if (bit_and value s_regrdy == s_regrdy) _ _
        (λ ready. Triple-pure tt (λ s e. rw ready at e))
        (λ busy.
          Triple-modify (port.wait poll_us) _ (λ s e. law.waits poll_us s ∙ rw busy at e)
            (wait_regrdy left w))

  -- An acknowledged write to a register of a halted core sets it, and no other.
  pub write_reg-registers :
      (n value : ℕ) (w : Core)
      → n ≤ regsel_mask
      → w.request ≡ idle
      → Done
          (λ s. view s ≡ w)
          (write_reg port n value)
          (λ _ s.
            view s
            ≡ record w { registers = store w.registers n value; transfer = value; request = idle })
  unfolding write_reg
  write_reg-registers n value w small free =
      let same : bit_and n regsel_mask ≡ n = bit_and-mask 7 n ∙ omega arith in
      let asked = record w { transfer = value } in
      rw same (
        Triple-bind (port.mem_write32 dcrdr value) _ (law.write_dcrdr w value free) λ _.
          Triple-bind (port.mem_write32 dcrsr (bit_or regwnr n)) _ (law.ask_to asked n small)
            λ _. wait_regrdy regrdy_retries (record asked { request = to_register n }))

  -- An acknowledged read of a register of a halted core gives its value, and changes no register.
  pub read_reg-registers :
      (n : ℕ) (w : Core)
      → n ≤ regsel_mask
      → Done
          (λ s. view s ≡ w)
          (read_reg port n)
          (λ v s.
            (v ≡ w.registers n) × (view s ≡ record w { transfer = w.registers n; request = idle }))
  unfolding read_reg
  read_reg-registers n w small =
      let same : bit_and n regsel_mask ≡ n = bit_and-mask 7 n ∙ omega arith in
      rw same (
        Triple-bind (port.mem_write32 dcrsr n) _ (law.ask_from w n small) λ _.
          Triple-bind (wait_dhcsr port s_regrdy s_regrdy regrdy_retries) _
            (wait_regrdy regrdy_retries (record w { request = from_register n }))
            λ _. law.read_dcrdr (record w { transfer = w.registers n; request = idle }) refl)
