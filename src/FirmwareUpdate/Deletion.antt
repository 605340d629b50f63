-- ===== src/FirmwareUpdate/Deletion.antt =====
-- When a self-update deletes firmware.bin.
use alonzo_bootloader_zephyr.Base.{
  ℕ, ◌≡◌, refl, true, ◌∷◌, ⊤, Result, ok, err, no_return, is_ok, enodev, raise, on_error, arith,
}
use alonzo_bootloader_zephyr.Base.Hoare.{
  Post, Triple, Triple-if, Triple-bind, Triple-raise, Keeps-on_error,
}
use alonzo_bootloader_zephyr.Board.{Board, Trace, Platform, firmware_bin, unlinked, closed}
use alonzo_bootloader_zephyr.Board.Deleting.{Spares, AllThere, read_event-Spares}
use alonzo_bootloader_zephyr.Board.Calls.{Kept}
use alonzo_bootloader_zephyr.Board.Drivers.{file_open, file_close, file_unlink}
use alonzo_bootloader_zephyr.FirmwareUpdate.{burn, firmware_update}
use alonzo_bootloader_zephyr.FirmwareUpdate.Recorded.{
  Permits, file_open-Kept, file_close-Kept, burn-Kept,
}

-- firmware.bin has been deleted, by the call after it was closed, and no other file.
abbrev pub FirmwareDeleted : Trace → Type 0
FirmwareDeleted t =
    (before : Trace) × (t ≡ unlinked firmware_bin true ∷ closed ∷ before) × AllThere before

Spares-Permits : Permits Spares 0
Spares-Permits = record {
  stats = λ path. tt;
  opens = λ path done. tt;
  reads = read_event-Spares;
  closes = tt;
  uptimes = tt;
  sets = λ id on. tt;
  toggles = λ id. tt;
  erases = λ off size done le. tt;
  writes = λ off bytes done le. tt;
}

module _ {T : Type 0} (p : Platform) (fuel bootloader_size : ℕ) where
  -- The file was closed by the latest call.
  abbrev Closed : Board T → Type 0
  Closed b = (before : Trace) × (b.trace ≡ closed ∷ before) × AllThere before

  abbrev Here : Board T → Type 0
  Here b = AllThere b.trace

  closing :
      (r : Result ⊤) (b : Board T)
      → Here b
      → Post (λ _. Closed) Here (r, record b { trace = closed ∷ b.trace })
  closing (ok _) b h = (b.trace, refl, h)
  closing (err _) b h = (tt, h)
  closing no_return b h = (tt, h)

  deleting :
      (r : Result ⊤) (b : Board T)
      → Closed b
      → Post
          (λ _ b. FirmwareDeleted b.trace)
          Here
          (r, record b { trace = unlinked firmware_bin (is_ok r) ∷ b.trace })
  deleting (ok _) b (before, e, h) = (before, rw e refl, h)
  deleting (err _) b (before, e, h) = (tt, rw e (tt, h))
  deleting no_return b (before, e, h) = (tt, rw e (tt, h))

  -- If no file was deleted before: a self-update that succeeds has deleted firmware.bin by its last
  -- call, after it closed the file, and nothing else; one that does not succeed has deleted nothing.
  pub firmware_update-deletes :
      Triple
        (λ (b : Board T). AllThere b.trace)
        (firmware_update p fuel bootloader_size)
        (λ _ b. FirmwareDeleted b.trace)
        (λ b. AllThere b.trace)
  unfolding firmware_update file_close file_unlink
  firmware_update-deletes =
      Triple-if p.flash_ready _ (raise enodev)
        (λ _.
          Triple-bind (file_open p firmware_bin) _
            (file_open-Kept Spares 0 Spares-Permits p firmware_bin)
            λ _.
              Triple-bind (on_error (file_close p) (burn p fuel bootloader_size)) _
                (Keeps-on_error (Kept {T = T} AllThere) _
                  (file_close-Kept Spares 0 Spares-Permits p) _
                  (burn-Kept Spares 0 Spares-Permits p (λ off page e le. omega arith) fuel
                    bootloader_size (omega arith)))
                λ _.
                  Triple-bind (file_close p) _
                    (record { at = λ b h. closing (p.close b.trace) b h })
                    λ _. record { at = λ b h. deleting (p.unlink b.trace firmware_bin) b h })
        (λ _. Triple-raise enodev (λ b h. h))
