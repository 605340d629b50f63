-- ===== src/Boot/Starting.antt =====
-- What the boot does outside of the updates: the LEDs and the handoff.
use alonzo_bootloader_zephyr.Base.{
  ℕ, zero, suc, ◌+◌, Bool, true, false, ⊤, Result, ok, err, no_return, inl, inr, Bool-cases, ◌∷◌,
}
use alonzo_bootloader_zephyr.Board.{
  Trace, Board, Platform, emit, irq_disabled, systick_cleared, pending_cleared, led_configured,
  led_written, irq_lines_disabled, vector_table_set, stack_pointer_set, entered,
}
use alonzo_bootloader_zephyr.Board.Calls.{Kept, led_set_rule}
use alonzo_bootloader_zephyr.Led.{led_set, led_all_off, led_init, configure_led}
use alonzo_bootloader_zephyr.MemoryLayout.{app_start}
use alonzo_bootloader_zephyr.AppJump.{app_image_valid, app_jump, disable_lines}
use alonzo_bootloader_zephyr.Boot.{
  Reason, update_failed, no_valid_application, jump_failed, error_loop, start_application, conclude,
}

-- A property that the calls outside of the updates keep.
pub record Idle (P : Trace → Type 0) : Type 0 where
  pub configures : (id : ℕ) (t : Trace) → P t → P (led_configured id ∷ t)
  pub sets : (id : ℕ) (on : Bool) (t : Trace) → P t → P (led_written id on ∷ t)
  pub irqs : (t : Trace) → P t → P (irq_disabled ∷ t)
  pub systick : (t : Trace) → P t → P (systick_cleared ∷ t)
  pub pending : (t : Trace) → P t → P (pending_cleared ∷ t)
  pub lines : (i : ℕ) (t : Trace) → P t → P (irq_lines_disabled i ∷ t)
  pub table : (a : ℕ) (t : Trace) → P t → P (vector_table_set a ∷ t)
  pub stack : (a : ℕ) (t : Trace) → P t → P (stack_pointer_set a ∷ t)
  pub enters : (a : ℕ) (t : Trace) → P t → P (entered a ∷ t)

module _ {T : Type 0} (P : Trace → Type 0) (idle : Idle P) (p : Platform) where
  led_set-Kept : (id : ℕ) (on : Bool) (b : Board T) → Kept P b → Kept P (led_set p id on b)
  led_set-Kept id on b h = led_set_rule p (Kept {T = T} P) id on b h (idle.sets id on b.trace h)

  pub led_all_off-Kept : (b : Board T) → Kept P b → Kept P (led_all_off p b)
  unfolding led_all_off
  led_all_off-Kept b h = led_set-Kept 1 false _ (led_set-Kept 0 false b h)

  configure_led-Kept : (id : ℕ) (b : Board T) → Kept P b → Kept P (configure_led p id b)
  unfolding configure_led
  configure_led-Kept id b h = elim (Bool-cases (p.led_ready id)) [
    | inl e ↦ rw e (idle.configures id b.trace h)
    | inr e ↦ rw e h
  ]

  pub led_init-Kept : (b : Board T) → Kept P b → Kept P (led_init p b)
  unfolding led_init
  led_init-Kept b h = configure_led-Kept 1 _ (configure_led-Kept 0 b h)

  error_loop-Kept : (reason : Reason) (b : Board T) → Kept P b → Kept P (error_loop p reason b).1
  unfolding error_loop
  error_loop-Kept reason b h = led_set-Kept 0 true _ (led_all_off-Kept b h)

  disable_lines-Kept : (left i : ℕ) (b : Board T) → Kept P b → Kept P (disable_lines left i b)
  unfolding disable_lines
  disable_lines-Kept zero i b h = h
  disable_lines-Kept (suc left) i b h = disable_lines-Kept left (i + 1) _ (idle.lines i b.trace h)

  module _ (size : ℕ) where
    app_jump-Kept : (start : ℕ) (b : Board T) → Kept P b → Kept P (app_jump p size start b).1
    unfolding app_jump
    app_jump-Kept start b h =
        let masked : Board T = emit pending_cleared (emit systick_cleared (emit irq_disabled b)) in
        let quiet : Kept P (disable_lines (p.interrupt_lines + 1) 0 masked) =
          disable_lines-Kept (p.interrupt_lines + 1) 0 masked
            (idle.pending _ (idle.systick _ (idle.irqs b.trace h))) in
        elim (Bool-cases (app_image_valid p size start b)) [
          | inl e ↦ rw e (idle.enters _ _ (idle.stack _ _ (idle.table _ _ quiet)))
          | inr e ↦ rw e h
        ]

    start_application-Kept : (b : Board T) → Kept P b → Kept P (start_application p size b).1
    unfolding start_application
    start_application-Kept b h =
        let start = app_start size in
        let green = led_set p 1 true (led_all_off p b) in
        let lit : Kept P green = led_set-Kept 1 true _ (led_all_off-Kept b h) in
        let (jumped, left) = app_jump p size start green in
        elim (Bool-cases (app_image_valid p size start green)) [
          | inr e ↦ rw e (error_loop-Kept no_valid_application green lit)
          | inl e ↦ elim (Bool-cases jumped) [
            | inl f ↦ rw e (rw f (app_jump-Kept start green lit))
            | inr f ↦ rw e (rw f (error_loop-Kept jump_failed left (app_jump-Kept start green lit)))
          ]
        ]

    pub conclude-Kept : (rc : Result ⊤) (b : Board T) → Kept P b → Kept P (conclude p size rc b).1
    unfolding conclude
    conclude-Kept (ok _) b h = start_application-Kept b h
    conclude-Kept (err e) b h = error_loop-Kept update_failed b h
    conclude-Kept no_return b h = h
