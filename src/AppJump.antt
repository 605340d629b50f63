-- ===== src/AppJump.antt =====
-- src/app_jump.c: the check of the application's vector table, and the handoff to it.
pub mod Handoff
use alonzo_bootloader_zephyr.Base.{
  ℕ, zero, suc, ◌+◌, bit_and, Bool, true, false, ◌&&◌, ◌==◌, ltb, leb, if◌then◌else◌,
}
use alonzo_bootloader_zephyr.MemoryLayout.{sram_base, sram_end, app_start, flash_end}
use alonzo_bootloader_zephyr.Board.{
  Board, Platform, emit, irq_disabled, systick_cleared, pending_cleared, irq_lines_disabled,
  vector_table_set, stack_pointer_set, entered,
}

unfoldable pub msp_in_sram : ℕ → Bool
msp_in_sram msp = ltb sram_base msp && ltb msp sram_end

unfoldable pub addr_in_app_flash : ℕ → ℕ → Bool
addr_in_app_flash bootloader_size addr = leb (app_start bootloader_size) addr && ltb addr flash_end

-- NVIC->ICER[i] = 0xFFFFFFFF, from register `i` on.
unfoldable pub disable_lines : {T : Type 0} → ℕ → ℕ → Board T → Board T
disable_lines zero i b = b
disable_lines (suc left) i b = disable_lines left (i + 1) (emit (irq_lines_disabled i) b)

module _ {T : Type 0} (p : Platform) (bootloader_size : ℕ) where
  -- The table's first two words are the stack pointer and the reset handler.
  unfoldable pub app_image_valid : ℕ → Board T → Bool
  unfolding msp_in_sram addr_in_app_flash
  app_image_valid start b =
      let msp = p.word_at b.trace start in
      let reset = p.word_at b.trace (start + 4) in
      msp_in_sram msp && addr_in_app_flash bootloader_size reset && bit_and reset 1 == 0

  -- The state when the handler is entered, which does not return; or the state of a return. The
  -- three writes to SysTick are one event, and so are the two to ICSR.
  unfoldable pub app_jump : ℕ → Board T → Bool × Board T
  unfolding disable_lines
  app_jump start b =
      let msp = p.word_at b.trace start in
      let reset = p.word_at b.trace (start + 4) in
      let quiet =
        disable_lines (p.interrupt_lines + 1) 0
          (emit pending_cleared (emit systick_cleared (emit irq_disabled b))) in
      if app_image_valid start b
      then (
        true,
        emit (entered reset) (emit (stack_pointer_set msp) (emit (vector_table_set start) quiet)),
      )
      else (false, b)
