-- ===== src/AppJump/Handoff.antt =====
-- Vector tables that are refused, and what is done before the application is entered.
use mathlib.Core.Bool.{false≢true}
use alonzo_bootloader_zephyr.Base.{
  Option, none, some, inl, inr, Bool-cases, ◌==◌, if◌then◌else◌, ℕ, zero, suc, ◌+◌, ◌%◌, ◌≤◌, ◌<◌,
  ◌≡◌, refl, arith, Bool, true, false, [], ◌∷◌,
}
use alonzo_bootloader_zephyr.Bits.{bit_and-one}
use alonzo_bootloader_zephyr.Board.{
  Trace, Board, Platform, emit, irq_disabled, systick_cleared, pending_cleared, irq_lines_disabled,
  vector_table_set, stack_pointer_set, entered,
}
use alonzo_bootloader_zephyr.AppJump.{app_image_valid, disable_lines, app_jump}
use alonzo_bootloader_zephyr.Led.Lit.{lit}

module _ {T : Type 0} (p : Platform) (bootloader_size start : ℕ) (b : Board T) where
  -- A table whose reset handler has the Thumb bit set is refused, and the jump to it does nothing.
  pub thumb_handler_refused :
      p.word_at b.trace (start + 4) % 2 ≡ 1
      → (app_image_valid p bootloader_size start b ≡ false)
        × (app_jump p bootloader_size start b ≡ (false, b))
  unfolding app_image_valid app_jump
  thumb_handler_refused odd = ground (arith, bit_and-one (p.word_at b.trace (start + 4)))

-- The state of the core, as a function of the calls made so far.
abbrev pub irqs_on : Trace → Bool
irqs_on [] = true
irqs_on (irq_disabled ∷ t) = false
irqs_on (_ ∷ t) = irqs_on t

-- Whether the interrupts of line register `i` may still be enabled.
abbrev pub lines_on : ℕ → Trace → Bool
lines_on i [] = true
lines_on i (irq_lines_disabled j ∷ t) = if j == i then false else lines_on i t
lines_on i (_ ∷ t) = lines_on i t

abbrev pub vector_table : Trace → Option ℕ
vector_table [] = none
vector_table (vector_table_set addr ∷ t) = some addr
vector_table (_ ∷ t) = vector_table t

abbrev pub stack_pointer : Trace → Option ℕ
stack_pointer [] = none
stack_pointer (stack_pointer_set msp ∷ t) = some msp
stack_pointer (_ ∷ t) = stack_pointer t

module _ {T : Type 0} where
  disable_lines-irqs_on :
      (left j : ℕ) (b : Board T) → irqs_on (disable_lines left j b).trace ≡ irqs_on b.trace
  unfolding disable_lines
  disable_lines-irqs_on zero j b = refl
  disable_lines-irqs_on (suc left) j b = disable_lines-irqs_on left (j + 1) _

  disable_lines-lit :
      (id left j : ℕ) (b : Board T) → lit id (disable_lines left j b).trace ≡ lit id b.trace
  unfolding disable_lines
  disable_lines-lit id zero j b = refl
  disable_lines-lit id (suc left) j b = disable_lines-lit id left (j + 1) _

  disable_lines-stays :
      (i left j : ℕ) (b : Board T)
      → lines_on i b.trace ≡ false
      → lines_on i (disable_lines left j b).trace ≡ false
  unfolding disable_lines
  disable_lines-stays i zero j b h = h
  disable_lines-stays i (suc left) j b h =
      disable_lines-stays i left (j + 1) (emit (irq_lines_disabled j) b) (ground arith)

  disable_lines-off :
      (i left j : ℕ) (b : Board T)
      → j ≤ i
      → i < j + left
      → lines_on i (disable_lines left j b).trace ≡ false
  unfolding disable_lines
  disable_lines-off i zero j b lo hi = absurd (omega arith)
  disable_lines-off i (suc left) j b lo hi = elim (Bool-cases (j == i)) [
    | inl here ↦ disable_lines-stays i left (j + 1) (emit (irq_lines_disabled j) b) (rw here)
    | inr there ↦
        disable_lines-off i left (j + 1) (emit (irq_lines_disabled j) b) (ground arith)
          (omega arith)
  ]

module _ {T : Type 0} (p : Platform) (bootloader_size start : ℕ) (b : Board T) where
  pub app_jump-lit : (id : ℕ) → lit id (app_jump p bootloader_size start b).1.trace ≡ lit id b.trace
  unfolding app_jump
  app_jump-lit id = ground (
    arith,
    disable_lines-lit id (p.interrupt_lines + 1) 0
        (emit pending_cleared (emit systick_cleared (emit irq_disabled b))),
  )

  -- A jump that enters the application does so with interrupts off, with every interrupt line of the
  -- chip disabled, with the application's vector table and stack pointer installed, and enters at the
  -- handler that the table names; the table is one that the check accepts.
  pub app_jump-handoff :
      (app_jump p bootloader_size start b).0 ≡ true
      → let t = (app_jump p bootloader_size start b).1.trace in
        (app_image_valid p bootloader_size start b ≡ true)
        × (irqs_on t ≡ false)
        × ((i : ℕ) → i ≤ p.interrupt_lines → lines_on i t ≡ false)
        × (vector_table t ≡ some start)
        × (stack_pointer t ≡ some (p.word_at b.trace start))
        × ((rest : Trace) × (t ≡ entered (p.word_at b.trace (start + 4)) ∷ rest))
  unfolding app_jump
  app_jump-handoff h =
      let quiet : Board T = emit pending_cleared (emit systick_cleared (emit irq_disabled b)) in
      let lines = p.interrupt_lines + 1 in
      elim (Bool-cases (app_image_valid p bootloader_size start b)) [
        | inl e ↦ rw e (
          refl,
          disable_lines-irqs_on lines 0 quiet,
          λ i le. disable_lines-off i lines 0 quiet (omega arith) (omega arith),
          refl,
          refl,
          (_, refl),
        )
        | inr e ↦ absurd (false≢true (rw e at h))
      ]
