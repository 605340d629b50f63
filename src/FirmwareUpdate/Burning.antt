-- ===== src/FirmwareUpdate/Burning.antt =====
-- The whole self-update: it comes to an end, and a successful one has burnt the file and deleted it.
use alonzo_bootloader_zephyr.Base.{
  on_error, ℕ, ◌+◌, ◌≤◌, ◌<◌, ◌≡◌, refl, arith, true, ◌||◌, ◌==◌, ltb, List, [], ◌∷◌, length, efbig,
  enodev, raise, is_ok,
}
use alonzo_bootloader_zephyr.Base.Total.{
  Total, Total-raise, Total-if, Total-bind, Total-on_error, Total-modify,
}
use alonzo_bootloader_zephyr.MemoryLayout.{app_offset, app_size}
use alonzo_bootloader_zephyr.Board.{
  Trace, Board, firmware_bin, Platform, opened, unlinked, stated, closed,
}
use alonzo_bootloader_zephyr.Board.Reading.{ReadTo, Offers}
use alonzo_bootloader_zephyr.Board.Calls.{Total-call, led_set_rule}
use alonzo_bootloader_zephyr.Led.{led_red, led_set}
use alonzo_bootloader_zephyr.FirmwareUpdate.{erase_app_region, burn, firmware_update}
use alonzo_bootloader_zephyr.Board.Drivers.{file_open, file_size, file_close, file_unlink, uptime}
use alonzo_bootloader_zephyr.FirmwareUpdate.Region.{IsPaged}
use alonzo_bootloader_zephyr.FirmwareUpdate.Cell.{Burnt}
use alonzo_bootloader_zephyr.FirmwareUpdate.Image.{
  Returns, Blank, Copied, erase_loop-Blank, write_loop-Burnt,
}

-- The end of the application region, as an offset.
abbrev pub region_end : ℕ → ℕ
region_end bootloader_size = app_offset bootloader_size + app_size bootloader_size

-- The latest call deleted firmware.bin.
abbrev pub IsDeleted : Trace → Type 0
IsDeleted t = (before : Trace) × (t ≡ unlinked firmware_bin true ∷ before)

module _ {T : Type 0} (p : Platform) (returns : Returns p) (file : List ℕ)
    (serves : Offers p firmware_bin file) (fuel bootloader_size : ℕ)
    (paged : IsPaged p (app_offset bootloader_size))
    (enough : app_size bootloader_size < fuel) where
  file_size-Opened :
      Total
        (λ (b : Board T). ReadTo firmware_bin [] b.trace)
        (file_size p firmware_bin)
        (λ n b. ReadTo firmware_bin [] b.trace × (n ≡ length file))
  unfolding file_size
  file_size-Opened =
      Total-call _ (λ _. stated firmware_bin) (returns.stats firmware_bin)
        (λ b n h e. (h, serves.size b.trace n e))

  -- The erased region is where the first byte of the file goes.
  start_copy :
      (b : Board T)
      → Blank {T = T} p returns (app_offset bootloader_size) (region_end bootloader_size) b
      → Copied {T = T} p returns file serves
          (app_offset bootloader_size)
          (region_end bootloader_size)
          []
          b
  start_copy b h = (record { image = tt; margin = λ a lo hi. h.0 a (omega arith) hi }, h.1)

  burn-Burnt :
      Total
        (λ (b : Board T). ReadTo firmware_bin [] b.trace)
        (burn p fuel bootloader_size)
        (λ _ b. Burnt (app_offset bootloader_size) (region_end bootloader_size) file b.trace)
  unfolding burn erase_app_region uptime
  burn-Burnt = Total-bind (file_size p firmware_bin) _ file_size-Opened λ size. record {
    at = λ b h.
        (Total-if (size == 0 || ltb (app_size bootloader_size) size) (raise efbig) _
            (λ _. Total-raise efbig)
            (λ accepted.
              let fits : length file ≤ app_size bootloader_size = ground (arith, h.1) in
              Total-modify (led_set p led_red true) _
                (λ b' h'.
                  led_set_rule p (λ c. ReadTo firmware_bin [] c.trace) led_red true b' h' h')
                (Total-bind
                  (erase_app_region p fuel (app_offset bootloader_size) (app_size bootloader_size))
                  _
                  (record {
                    at = λ b' h'.
                        (erase_loop-Blank p returns (app_offset bootloader_size) paged fuel
                            (app_offset bootloader_size) (region_end bootloader_size) (omega arith)
                            (omega arith)).at
                          b' ((λ a lo hi. absurd (omega arith)), h');
                  })
                  λ _.
                    Total-bind (uptime p) _
                      (record { at = λ b' h'. start_copy (uptime p b').1 (h'.0, h'.1) })
                      λ last.
                        write_loop-Burnt p returns file serves (app_offset bootloader_size)
                          (region_end bootloader_size) (omega arith) fuel
                          (app_offset bootloader_size) last [] file refl (omega arith)
                          (omega arith)))).at
          b h.0;
  }

  file_close-Returning : Total {S = Board T} (λ _. Unit) (file_close p) (λ _ _. Unit)
  unfolding file_close
  file_close-Returning = Total-call _ (λ _. closed) returns.closes (λ b a h e. tt)

  -- If the driver calls return, the flash pages do not straddle the end of the bootloader, the file
  -- system serves firmware.bin, and the fuel exceeds the size of the application region, then a
  -- self-update comes to an end; and if it succeeds, the file's bytes stand at the start of the
  -- application region, each programmed once on an erased byte, the rest of the region is erased,
  -- and the last call has deleted the file.
  pub firmware_update-Burnt :
      Total
        (λ _. Unit)
        (firmware_update {T = T} p fuel bootloader_size)
        (λ _ b.
          Burnt (app_offset bootloader_size) (region_end bootloader_size) file b.trace
          × IsDeleted b.trace)
  unfolding firmware_update file_open file_close file_unlink
  firmware_update-Burnt =
      Total-if p.flash_ready _ (raise enodev)
        (λ _.
          Total-bind (file_open p firmware_bin) _
            (Total-call _ (λ r. opened firmware_bin (is_ok r)) (returns.opens firmware_bin)
              (λ b a h e. ((refl, refl), refl)))
            λ _.
              Total-bind (on_error (file_close p) (burn p fuel bootloader_size)) _
                (Total-on_error (file_close p) file_close-Returning _ burn-Burnt)
                λ _.
                  Total-bind (file_close p) _
                    (Total-call
                      {Q = λ _ b.
                        Burnt (app_offset bootloader_size) (region_end bootloader_size) file
                          b.trace}
                      _ (λ _. closed) returns.closes
                      (λ b a h e. record { image = h.image; margin = h.margin }))
                    λ _.
                      Total-call _ (λ r. unlinked firmware_bin (is_ok r))
                        (returns.unlinks firmware_bin)
                        (λ b a h e.
                          (record { image = h.image; margin = h.margin }, (b.trace, refl))))
        (λ _. Total-raise enodev)
