-- ===== src/FirmwareUpdate/Region.antt =====
-- The self-update stays inside the application region.
use alonzo_bootloader_zephyr.Base.{
  on_error, ℕ, ◌+◌, ◌≤◌, ◌<◌, ◌≡◌, arith, List, enodev, raise, Result, ok, err, no_return, is_ok,
  All,
}
use alonzo_bootloader_zephyr.Base.Hoare.{
  Keeps-on_error, Keeps, Triple-raise, Triple-if, Triple-bind,
}
use alonzo_bootloader_zephyr.MemoryLayout.{app_offset}
use alonzo_bootloader_zephyr.Board.{
  Board, Event, FilePath, firmware_bin, FlashPage, Platform, unlinked, flash_erased, flash_written,
}
use alonzo_bootloader_zephyr.Board.Calls.{Keeps-call}
use alonzo_bootloader_zephyr.FirmwareUpdate.Recorded.{
  Permits, file_open-Kept, file_close-Kept, burn-Kept,
}
use alonzo_bootloader_zephyr.FirmwareUpdate.{burn, firmware_update}
use alonzo_bootloader_zephyr.Board.Drivers.{read_event, file_open, file_close, file_unlink}

-- No call erases or writes below the given flash offset.
abbrev pub IsAbove : ℕ → Event → Type 0
IsAbove low (flash_erased off size done) = low ≤ off
IsAbove low (flash_written off bytes done) = low ≤ off
IsAbove low _ = Unit

abbrev pub AllAbove : {T : Type 0} → ℕ → Board T → Type 0
AllAbove low b = All (IsAbove low) b.trace

-- What the driver documents of the page layout: a page that is found contains the offset, and the
-- given boundary is not inside a page.
pub record IsPaged (p : Platform) (boundary : ℕ) : Type 0 where
  pub contains :
      (off : ℕ) (page : FlashPage)
      → p.page_info off ≡ ok page
      → (page.start_offset ≤ off) × (off < page.start_offset + page.size)
  pub aligned :
      (off : ℕ) (page : FlashPage)
      → p.page_info off ≡ ok page
      → boundary ≤ off
      → boundary ≤ page.start_offset

read_event-IsAbove : (low : ℕ) (r : Result (List ℕ)) → IsAbove low (read_event r)
unfolding read_event
read_event-IsAbove low (ok bytes) = tt
read_event-IsAbove low (err e) = tt
read_event-IsAbove low no_return = tt

IsAbove-Permits : (low : ℕ) → Permits (IsAbove low) low
IsAbove-Permits low = record {
  stats = λ path. tt;
  opens = λ path done. tt;
  reads = read_event-IsAbove low;
  closes = tt;
  uptimes = tt;
  sets = λ id on. tt;
  toggles = λ id. tt;
  erases = λ off size done le. le;
  writes = λ off bytes done le. le;
}

module _ {T : Type 0} (p : Platform) (fuel bootloader_size : ℕ)
    (paged : IsPaged p (app_offset bootloader_size)) where
  file_unlink-Above :
      (low : ℕ) (path : FilePath) → Keeps (AllAbove {T = T} low) (file_unlink p path)
  unfolding file_unlink
  file_unlink-Above low path = Keeps-call _ (λ r. unlinked path (is_ok r)) (λ b r h. (tt, h))

  -- If the flash pages do not straddle the end of the bootloader, a self-update erases and writes
  -- nothing below the application region, whether it succeeds, fails or is still running when the
  -- fuel ends.
  pub firmware_update-AllAbove :
      Keeps (AllAbove (app_offset bootloader_size)) (firmware_update {T = T} p fuel bootloader_size)
  unfolding firmware_update
  firmware_update-AllAbove =
      let low = app_offset bootloader_size in
      Triple-if p.flash_ready _ (raise enodev)
        (λ _.
          Triple-bind (file_open p firmware_bin) _
            (file_open-Kept (IsAbove low) low (IsAbove-Permits low) p firmware_bin)
            λ _.
              Triple-bind (on_error (file_close p) (burn p fuel bootloader_size)) _
                (Keeps-on_error (AllAbove low) _
                  (file_close-Kept (IsAbove low) low (IsAbove-Permits low) p) _
                  (burn-Kept (IsAbove low) low (IsAbove-Permits low) p paged.aligned fuel
                    bootloader_size (omega arith)))
                λ _.
                  Triple-bind (file_close p) _
                    (file_close-Kept (IsAbove low) low (IsAbove-Permits low) p)
                    λ _. file_unlink-Above low firmware_bin)
        (λ _. Triple-raise enodev (λ b h. h))
