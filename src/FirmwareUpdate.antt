-- ===== src/FirmwareUpdate.antt =====
-- src/firmware_update.c: self-programming of the application region from firmware.bin. Printing is
-- left out, and each `while` loop runs on fuel.
pub mod Recorded
pub mod Region
pub mod Deletion
pub mod Cell
pub mod Image
pub mod Burning
use alonzo_bootloader_zephyr.Base.{
  ℕ, zero, suc, ◌+◌, ◌-◌, true, ◌||◌, List, length, ⊤, efbig, enodev, Result, ok, err, no_return,
  is_ok, Exec, pure, raise, run_out, modify, on_error, ◌>>=◌, ◌>>◌, ◌==◌, ltb, leb, if◌then◌else◌,
}
use alonzo_bootloader_zephyr.Board.{
  Board, FilePath, firmware_bin, FlashPage, Platform, Event, call, opened, unlinked, stated,
  bytes_read, read_failed, closed, uptime_read, flash_erased, flash_written,
}
use alonzo_bootloader_zephyr.Board.Drivers.{
  read_event, file_open, file_size, file_read, file_close, file_unlink, uptime, flash_erase,
  flash_write, page_info,
}
use alonzo_bootloader_zephyr.Led.{led_red, led_set, led_toggle}
use alonzo_bootloader_zephyr.MemoryLayout.{app_offset, app_size}

-- FW_CHUNK_SIZE and BURN_BLINK_PERIOD_MS.
abbrev pub chunk_size : ℕ
chunk_size = 512

abbrev pub blink_period_ms : ℕ
blink_period_ms = 100

module _ {T : Type 0} (p : Platform) where
  -- The new time of the last toggle.
  burn_blink : ℕ → Exec (Board T) ℕ
  unfolding uptime
  burn_blink last_toggle_ms = do
    now ← uptime p
    if leb blink_period_ms (now - last_toggle_ms)
        then (do modify (led_toggle p led_red); pure now)
        else pure last_toggle_ms

  pub erase_loop : ℕ → ℕ → ℕ → Exec (Board T) ⊤
  erase_loop zero off end = run_out
  erase_loop (suc fuel) off end =
      if ltb off end
      then (do
        info ← page_info p off
        flash_erase p info.start_offset info.size
        modify (led_toggle p led_red)
        erase_loop fuel (info.start_offset + info.size) end)
      else pure tt

  unfoldable pub erase_app_region : ℕ → ℕ → ℕ → Exec (Board T) ⊤
  unfolding erase_loop flash_erase page_info
  erase_app_region fuel offset size = erase_loop fuel offset (offset + size)

  -- The loop that copies the file, at flash offset `off`.
  pub write_loop : ℕ → ℕ → ℕ → Exec (Board T) ⊤
  write_loop zero off last_blink_ms = run_out
  write_loop (suc fuel) off last_blink_ms = do
    bytes ← file_read p chunk_size
    if length bytes == 0 then pure tt else (do
      flash_write p off bytes
      last ← burn_blink last_blink_ms
      write_loop fuel (off + length bytes) last)

  module _ (fuel bootloader_size : ℕ) where
    -- From the size check to the end of the copy.
    pub burn : Exec (Board T) ⊤
    unfolding file_size erase_app_region write_loop uptime file_read flash_write burn_blink
    burn = do
      size ← file_size p firmware_bin
      if size == 0 || ltb (app_size bootloader_size) size then raise efbig else (do
        modify (led_set p led_red true)
        erase_app_region fuel (app_offset bootloader_size) (app_size bootloader_size)
        last ← uptime p
        write_loop fuel (app_offset bootloader_size) last)

    unfoldable pub firmware_update : Exec (Board T) ⊤
    unfolding burn file_open file_unlink file_close
    firmware_update =
        if p.flash_ready
        then (do
          file_open p firmware_bin
          on_error (file_close p) burn
          file_close p
          file_unlink p firmware_bin)
        else raise enodev
