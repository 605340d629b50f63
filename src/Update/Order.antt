-- ===== src/Update/Order.antt =====
-- None of the updates touches the bootloader.
use alonzo_bootloader_zephyr.Base.{All, ℕ, Bool, pure, ◌∷◌, if◌then◌else◌}
use alonzo_bootloader_zephyr.Base.Hoare.{Keeps, Triple-pure, Triple-if, Triple-bind}
use alonzo_bootloader_zephyr.Board.{Trace, FilePath, firmware_bin, ble_bin, flm, Platform, stated}
use alonzo_bootloader_zephyr.MemoryLayout.{app_offset}
use alonzo_bootloader_zephyr.Board.Calls.{Kept}
use alonzo_bootloader_zephyr.Tf.{tf_file_exists}
use alonzo_bootloader_zephyr.FirmwareUpdate.{firmware_update}
use alonzo_bootloader_zephyr.FirmwareUpdate.Region.{
  IsAbove, AllAbove, IsPaged, firmware_update-AllAbove,
}
use alonzo_bootloader_zephyr.Update.{Fr8016, exists, ble_update, update_apply}

-- The update of the co-processor keeps a property of the record of the calls.
pub record Maintains {T : Type 0} (P : Trace → Type 0) (fr8016 : Fr8016 T) : Type 0 where
  pub update : (ble flm : FilePath) → Keeps (Kept P) (fr8016.update ble flm)
  pub cm_selftest : Keeps (Kept P) fr8016.cm_selftest
  pub flm_selftest : (flm : FilePath) → Keeps (Kept P) (fr8016.flm_selftest flm)

-- It erases and writes no flash below an offset.
abbrev pub SparesFlash : {T : Type 0} → ℕ → Fr8016 T → Type 0
SparesFlash low fr8016 = Maintains (All (IsAbove low)) fr8016

module _ {T : Type 0} (P : Trace → Type 0)
    (stats : (path : FilePath) (t : Trace) → P t → P (stated path ∷ t)) (p : Platform)
    (fr8016 : Fr8016 T) where
  pub exists-Kept : (path : FilePath) → Keeps (Kept {T = T} P) (exists p fr8016 path)
  unfolding exists tf_file_exists
  exists-Kept path = record { at = λ b h. stats path b.trace h }

  pub ble_update-Kept :
      (selftest : Bool) → Maintains P fr8016 → Keeps (Kept {T = T} P) (ble_update p fr8016 selftest)
  unfolding ble_update
  ble_update-Kept selftest maintains =
      Triple-if selftest _ _
        (λ _.
          Triple-bind fr8016.cm_selftest _ maintains.cm_selftest λ _. maintains.flm_selftest flm)
        (λ _. Triple-bind (exists p fr8016 flm) _ (exists-Kept flm) λ found.
          Triple-if found (fr8016.update ble_bin flm) (pure tt) (λ _. maintains.update ble_bin flm)
            (λ _. Triple-pure tt (λ b h. h)))

module _ {T : Type 0} (p : Platform) (fr8016 : Fr8016 T) (selftest : Bool)
    (fuel bootloader_size : ℕ) (paged : IsPaged p (app_offset bootloader_size))
    (spares : SparesFlash (app_offset bootloader_size) fr8016) where
  -- The updates as a whole erase and write nothing below the application region, if the SWD code
  -- does not.
  pub update_apply-AllAbove :
      Keeps
        (AllAbove (app_offset bootloader_size))
        (update_apply p fr8016 selftest fuel bootloader_size)
  unfolding update_apply
  update_apply-AllAbove =
      let low = app_offset bootloader_size in
      let above = All (IsAbove low) in
      let stats : (path : FilePath) (t : Trace) → above t → above (stated path ∷ t) =
        λ path t h. (tt, h) in
      Triple-bind (exists p fr8016 firmware_bin) _ (exists-Kept above stats p fr8016 firmware_bin)
        λ found.
          Triple-bind (if found then firmware_update p fuel bootloader_size else pure tt) _
            (Triple-if found (firmware_update p fuel bootloader_size) (pure tt)
              (λ _. firmware_update-AllAbove p fuel bootloader_size paged)
              (λ _. Triple-pure tt (λ b h. h)))
            λ _.
              Triple-bind (exists p fr8016 ble_bin) _ (exists-Kept above stats p fr8016 ble_bin)
                λ found'.
                  Triple-if found' (ble_update p fr8016 selftest) (pure tt)
                    (λ _. ble_update-Kept above stats p fr8016 selftest spares)
                    (λ _. Triple-pure tt (λ b h. h))
