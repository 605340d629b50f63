-- ===== src/CortexM/Waiting.antt =====
-- The loop that polls DHCSR, for a target that answers.
use alonzo_bootloader_zephyr.Base.{
  ℕ, zero, suc, ◌≤◌, ◌<◌, ◌≡◌, refl, arith, ◌⊎◌, inl, inr, Bool, true, false, bit_and, ◌==◌,
}
use alonzo_bootloader_zephyr.Base.Works.{Works, Works-pure, Works-if, Works-bind, Works-modify}
use alonzo_bootloader_zephyr.Dap.Port.{DebugPort}
use alonzo_bootloader_zephyr.CortexM.{poll_us, wait_dhcsr}
use alonzo_bootloader_zephyr.CortexM.Register.{dhcsr}

pub not_both : {b : Bool} → b ≡ true → b ≡ false → ⊥
not_both e f = cc

-- A wait with the polls that are left, where each poll ends it or leaves fewer to be made.
pub wait_until :
    {S : Type 0} (port : DebugPort S) (latency : S → ℕ)
    → ((us : ℕ) (s : S) → latency (port.wait us s) ≤ latency s)
    → (mask want : ℕ) (P Q : S → Type 0) → ((us : ℕ) (s : S) → P s → P (port.wait us s))
    → ((n : ℕ)
        → Works
            (λ s. P s × (latency s ≡ n))
            (port.mem_read32 dhcsr)
            (λ v s.
              (((bit_and v mask == want) ≡ true) × Q s)
              ⊎ (((bit_and v mask == want) ≡ false) × P s × (latency s < n))))
    → (left : ℕ) → Works (λ s. P s × (latency s < left)) (wait_dhcsr port mask want left) (λ _. Q)
unfolding wait_dhcsr
wait_until port latency waits mask want P Q stays polls zero = record {
  at = λ s h. absurd (omega (arith, h.1));
}
wait_until port latency waits mask want P Q stays polls (suc left) = record {
  at = λ s h.
      (Works-bind (port.mem_read32 dhcsr) _ (polls (latency s)) λ value.
          Works-if (bit_and value mask == want) _ _
            (λ ready.
              Works-pure tt (λ s' c. elim c [ inl d ↦ d.1 | inr d ↦ absurd (not_both ready d.0) ]))
            (λ busy.
              Works-modify (port.wait poll_us) _
                (λ s' c. elim c [
                  | inl d ↦ absurd (not_both d.0 busy)
                  | inr d ↦ (stays poll_us s' d.1, omega (arith, waits poll_us s', d.2, h.1))
                ])
                (wait_until port latency waits mask want P Q stays polls left))).at
        s (h.0, refl);
}
