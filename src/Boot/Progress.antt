-- ===== src/Boot/Progress.antt =====
-- The boot comes to an end: it enters the application or the error loop.
use alonzo_bootloader_zephyr.Base.{
  ℕ, ◌<◌, ◌≢◌, refl, arith, Bool, List, ⊤, Result, ok, err, no_return,
}
use alonzo_bootloader_zephyr.Base.Total.{
  Landing, Returning, Total, Total-pure, Total-if, Total-bind, Total-forget,
}
use alonzo_bootloader_zephyr.Board.{Trace, Board, FilePath, firmware_bin, ble_bin, flm, Platform}
use alonzo_bootloader_zephyr.Board.Reading.{Offers}
use alonzo_bootloader_zephyr.MemoryLayout.{app_offset, app_size}
use alonzo_bootloader_zephyr.Led.{led_init, led_all_off}
use alonzo_bootloader_zephyr.Tf.{tf_mount}
use alonzo_bootloader_zephyr.FirmwareUpdate.{firmware_update}
use alonzo_bootloader_zephyr.FirmwareUpdate.Region.{IsPaged}
use alonzo_bootloader_zephyr.FirmwareUpdate.Image.{Returns}
use alonzo_bootloader_zephyr.FirmwareUpdate.Burning.{firmware_update-Burnt}
use alonzo_bootloader_zephyr.Update.{Fr8016, exists, ble_update, update_apply}
use alonzo_bootloader_zephyr.Boot.{
  updating, error_loop, start_application, conclude, update_if_mounted, try_update, main,
}

-- What remains of the update of the co-processor returns.
pub record Finishes {T : Type 0} (fr8016 : Fr8016 T) : Type 0 where
  pub update : Returning (fr8016.update ble_bin flm)
  pub cm_selftest : Returning fr8016.cm_selftest
  pub flm_selftest : Returning (fr8016.flm_selftest flm)

conclude-ends :
    {T : Type 0} (p : Platform) (size : ℕ) (rc : Result ⊤) (b : Board T)
    → rc ≢ no_return
    → (conclude p size rc b).0 ≢ updating
unfolding conclude start_application error_loop
conclude-ends p size (ok _) b h = ground arith
conclude-ends p size (err e) b h = λ e. cc
conclude-ends p size no_return b h = absurd (h refl)

returned : {S : Type 0} (r : Result ⊤) (s : S) → Landing (λ _ _. Unit) (r, s) → r ≢ no_return
returned (ok a) s h = λ e. cc
returned (err e) s h = λ e. cc
returned no_return s h = λ e. h

module _ {T : Type 0} (p : Platform) (fr8016 : Fr8016 T) (selftest : Bool) (fuel size : ℕ)
    (mounts : (t : Trace) → p.mount t ≢ no_return) (returns : Returns p) (file : List ℕ)
    (serves : Offers p firmware_bin file) (paged : IsPaged p (app_offset size))
    (finishes : Finishes fr8016) (enough : app_size size < fuel) where
  exists-Returning :
      (path : FilePath) → Total {S = Board T} (λ _. Unit) (exists p fr8016 path) (λ _ _. Unit)
  unfolding exists
  exists-Returning path = record { at = λ b h. tt }

  ble_update-Returning : Returning (ble_update p fr8016 selftest)
  unfolding ble_update
  ble_update-Returning =
      Total-if selftest _ _
        (λ _. Total-bind fr8016.cm_selftest _ finishes.cm_selftest λ _. finishes.flm_selftest)
        (λ _.
          Total-bind (exists p fr8016 flm) _ (exists-Returning flm)
            λ found. Total-if found _ _ (λ _. finishes.update) (λ _. Total-pure tt (λ b h. tt)))

  update_apply-Returning : Returning (update_apply p fr8016 selftest fuel size)
  unfolding update_apply
  update_apply-Returning =
      Total-bind (exists p fr8016 firmware_bin) _ (exists-Returning firmware_bin) λ found.
        Total-bind _ _
          (Total-if found _ _
            (λ _.
              Total-forget (firmware_update p fuel size)
                (firmware_update-Burnt p returns file serves fuel size paged enough))
            (λ _. Total-pure tt (λ b h. tt)))
          λ _. Total-bind (exists p fr8016 ble_bin) _ (exists-Returning ble_bin) λ found'.
            Total-if found' _ _ (λ _. ble_update-Returning) (λ _. Total-pure tt (λ b h. tt))

  update_if_mounted-returns :
      (mounted : Result ⊤) (b : Board T)
      → mounted ≢ no_return
      → (update_if_mounted p fr8016 selftest fuel size mounted b).0 ≢ no_return
  unfolding update_if_mounted
  update_if_mounted-returns (ok _) b h =
      let (r, b') = update_apply p fr8016 selftest fuel size b in
      returned r b' (update_apply-Returning.at b tt)
  update_if_mounted-returns (err e) b h = λ e. cc
  update_if_mounted-returns no_return b h = absurd (h refl)

  -- If the driver calls and the co-processor update return, the flash pages do not straddle the end
  -- of the bootloader, the file system serves firmware.bin, and the fuel exceeds the size of the
  -- application region, then the boot ends: in the application or in the error loop.
  pub main-ends : (b : Board T) → (main p fr8016 selftest fuel size b).0 ≢ updating
  unfolding main try_update tf_mount
  main-ends b =
      let dark = led_all_off p (led_init p b) in
      let (mounted, carded) = tf_mount p dark in
      let (rc, updated) = update_if_mounted p fr8016 selftest fuel size mounted carded in
      conclude-ends p size rc updated (update_if_mounted-returns mounted carded (mounts dark.trace))
