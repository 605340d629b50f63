-- ===== src/CoProcessor/Safety.antt =====
-- What an update of the co-processor keeps, the STM32's own flash above all.
use alonzo_bootloader_zephyr.Base.{Bool, All, ℕ, List, ◌∷◌, Result, ok, err, no_return, is_ok, Exec}
use alonzo_bootloader_zephyr.Base.Hoare.{Keeps, Triple-pure, Triple-bind, Triple-if, Keeps-finally}
use alonzo_bootloader_zephyr.Board.{Trace, Board, FilePath, Platform, unlinked, stated}
use alonzo_bootloader_zephyr.Board.Calls.{Kept, Keeps-call}
use alonzo_bootloader_zephyr.Board.Drivers.{read_event, file_unlink, restore_usart2}
use alonzo_bootloader_zephyr.Tf.{tf_file_exists}
use alonzo_bootloader_zephyr.Swd.Port.{SwdPort}
use alonzo_bootloader_zephyr.Dap.Port.{DebugPort}
use alonzo_bootloader_zephyr.CortexM
use alonzo_bootloader_zephyr.Flm
use alonzo_bootloader_zephyr.Flm.{on_core}
use alonzo_bootloader_zephyr.Flm.Format.{Session}
use alonzo_bootloader_zephyr.FirmwareUpdate.Region.{IsAbove}
use alonzo_bootloader_zephyr.Update.Order.{Maintains, SparesFlash}
use alonzo_bootloader_zephyr.CoProcessor.{load_flm, enter_swd, update, flm_selftest, co_processor}
use alonzo_bootloader_zephyr.CoProcessor.Recorded.{
  Permits, on_target-Kept, lift-Kept, restore_usart2-Kept, load_flm-Kept,
}
use alonzo_bootloader_zephyr.CoProcessor.Phases.{update_attached-Steady}

read_event-IsAbove : (low : ℕ) (r : Result (List ℕ)) → IsAbove low (read_event r)
unfolding read_event
read_event-IsAbove low (ok bytes) = tt
read_event-IsAbove low (err e) = tt
read_event-IsAbove low no_return = tt

-- A property that the calls of the whole update keep.
pub record Tolerates (P : Trace → Type 0) : Type 0 where
  pub before : Permits P
  pub unlinks : (path : FilePath) (done : Bool) (t : Trace) → P t → P (unlinked path done ∷ t)

IsAbove-Tolerates : (low : ℕ) → Tolerates (All (IsAbove low))
IsAbove-Tolerates low = record {
  before = record {
    stats = λ path t h. (tt, h);
    opens = λ path done t h. (tt, h);
    reads = λ r t h. (read_event-IsAbove low r, h);
    closes = λ t h. (tt, h);
    seeks = λ done t h. (tt, h);
    restores = λ done t h. (tt, h);
    toggles = λ id t h. (tt, h);
  };
  unlinks = λ path done t h. (tt, h);
}

module _ {S : Type 0} (p : Platform) (swd : SwdPort S) (port : DebugPort S)
    (ram_base ram_size fuel : ℕ) where
  module _ (P : Trace → Type 0) (tolerates : Tolerates P) where
    abbrev Steady : {A : Type 0} → Exec (Board (Session S)) A → Type 0
    Steady m = Keeps (Kept {T = Session S} P) m

    file_unlink-Steady : (path : FilePath) → Steady (file_unlink p path)
    unfolding file_unlink
    file_unlink-Steady path =
        Keeps-call _ (λ r. unlinked path (is_ok r))
          (λ b r h. tolerates.unlinks path (is_ok r) b.trace h)

    update-Steady :
        (ble_path flm_path : FilePath)
        → Steady (update p swd port ram_base ram_size fuel ble_path flm_path)
    unfolding update enter_swd
    update-Steady ble_path flm_path =
        let permits = tolerates.before in
        Triple-bind (load_flm p swd port fuel flm_path) _
          (load_flm-Kept P permits p swd port fuel flm_path)
          λ (img, code, section_data).
            Triple-bind _ _ (on_target-Kept P permits p swd port (on_core swd.init)) λ _.
              Triple-bind _ _
                (Keeps-finally (Kept {T = Session S} P) (restore_usart2 p)
                  (restore_usart2-Kept P permits p swd port) _
                  (update_attached-Steady P permits p swd port ram_base ram_size fuel ble_path img
                    code section_data))
                λ _. Triple-bind _ _ (file_unlink-Steady ble_path) λ _. file_unlink-Steady flm_path

    flm_selftest-Steady :
        (path : FilePath) → Steady (flm_selftest p swd port ram_base ram_size fuel path)
    unfolding flm_selftest tf_file_exists
    flm_selftest-Steady path = record {
      at = λ b h.
          (Triple-if (is_ok (p.stat b.trace path)) _ _
              (λ _.
                Triple-bind (load_flm p swd port fuel path) _
                  (load_flm-Kept P tolerates.before p swd port fuel path)
                  λ (img, _, _). lift-Kept P tolerates.before p swd port (Flm.selftest img))
              (λ _. Triple-pure tt (λ b' h'. h'))).at
            (record b { trace = stated path ∷ b.trace }) (tolerates.before.stats path b.trace h);
    }

    -- The code for the co-processor keeps what its calls of drivers keep.
    pub co_processor-Maintains : Maintains P (co_processor p swd port ram_base ram_size fuel)
    co_processor-Maintains = record {
      update = update-Steady;
      cm_selftest = on_target-Kept P tolerates.before p swd port (on_core (CortexM.selftest port));
      flm_selftest = flm_selftest-Steady;
    }

  -- It erases and writes no internal flash, on any path: it meets what the boot assumes of it.
  pub co_processor-SparesFlash :
      (low : ℕ) → SparesFlash low (co_processor p swd port ram_base ram_size fuel)
  co_processor-SparesFlash low = co_processor-Maintains (All (IsAbove low)) (IsAbove-Tolerates low)
