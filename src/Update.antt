-- ===== src/Update.antt =====
-- src/update.c and src/ble_update.c: which updates are applied, and in which order. Printing is left
-- out. The update of the BLE co-processor over SWD is an argument.
pub mod Order
use alonzo_bootloader_zephyr.Base.{ℕ, Bool, ⊤, Exec, ok, pure, ◌>>=◌, ◌>>◌, if◌then◌else◌}
use alonzo_bootloader_zephyr.Board.{Board, FilePath, firmware_bin, ble_bin, flm, Platform}
use alonzo_bootloader_zephyr.Tf.{tf_file_exists}
use alonzo_bootloader_zephyr.FirmwareUpdate.{firmware_update}

-- What the rest of src/fr8016 does for this module: `fr8016_update`, `cm_selftest` and
-- `fr8016_flm_selftest`.
pub record Fr8016 (T : Type 0) : Type 0 where
  pub update : FilePath → FilePath → Exec (Board T) ⊤
  pub cm_selftest : Exec (Board T) ⊤
  pub flm_selftest : FilePath → Exec (Board T) ⊤

module _ {T : Type 0} (p : Platform) (fr8016 : Fr8016 T) where
  unfoldable pub exists : FilePath → Exec (Board T) Bool
  exists path b = let (found, b') = tf_file_exists p path b in (ok found, b')

  -- `selftest` is CONFIG_ALONZO_FR8016_SWD_SELFTEST.
  unfoldable pub ble_update : Bool → Exec (Board T) ⊤
  unfolding exists
  ble_update selftest =
      if selftest
      then (do fr8016.cm_selftest; fr8016.flm_selftest flm)
      else (do found ← exists flm; if found then fr8016.update ble_bin flm else pure tt)

  unfoldable pub update_apply : Bool → ℕ → ℕ → Exec (Board T) ⊤
  unfolding exists
  update_apply selftest fuel bootloader_size = do
    found ← exists firmware_bin
    if found then firmware_update p fuel bootloader_size else pure tt
    found' ← exists ble_bin
    if found' then ble_update selftest else pure tt
