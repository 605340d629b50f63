-- ===== src/CoProcessor/Completion.antt =====
-- The whole of src/fr8016/fr8016.c comes to an end, and with it what the boot calls of it.
use alonzo_bootloader_zephyr.Base.{
  ℕ, ◌<◌, ◌≡◌, ◌≢◌, arith, is_ok, List, length, ok, no_return, finally, ◌∷◌,
}
use alonzo_bootloader_zephyr.Base.Total.{
  Total, Returning, Returning-bind, pure-Returning, Total-if, Total-bind, Total-forget,
  Total-finally,
}
use alonzo_bootloader_zephyr.Base.Bytes.{drop}
use alonzo_bootloader_zephyr.Board.{
  Board, FilePath, ble_bin, flm, Trace, Platform, on_target, stated, unlinked, pins_restored,
}
use alonzo_bootloader_zephyr.Board.Reading.{Offers}
use alonzo_bootloader_zephyr.Board.Calls.{Total-call}
use alonzo_bootloader_zephyr.Board.Drivers.{file_unlink, restore_usart2}
use alonzo_bootloader_zephyr.Swd.Port.{SwdPort}
use alonzo_bootloader_zephyr.Dap.Port.{DebugPort}
use alonzo_bootloader_zephyr.CortexM.Returning.{Answers, selftest-Returning}
use alonzo_bootloader_zephyr.Flm
use alonzo_bootloader_zephyr.Flm.{on_core}
use alonzo_bootloader_zephyr.Flm.Format.{Image, Session}
use alonzo_bootloader_zephyr.Flm.Returning.{on_core-Returning, lift-Returning}
use alonzo_bootloader_zephyr.FlmElf.{flm_elf_parse}
use alonzo_bootloader_zephyr.Tf.{tf_file_exists}
use alonzo_bootloader_zephyr.FirmwareUpdate.Image.{Returns}
use alonzo_bootloader_zephyr.CoProcessor.{
  load_flm, enter_swd, update_attached, update, flm_selftest, co_processor,
}
use alonzo_bootloader_zephyr.CoProcessor.Ending.{ReadsBounded, on_target-Returning}
use alonzo_bootloader_zephyr.CoProcessor.Finishing.{IsUsable, update_attached-Ends}
use alonzo_bootloader_zephyr.CoProcessor.Fetching.{load_flm-parses}
use alonzo_bootloader_zephyr.Boot.Progress.{Finishes}

-- A .FLM file that the parser comes to an end on, and whose image, if it has one, can be programmed
-- into a flash of fewer bytes than the fuel.
pub record IsAlgorithm (fuel : ℕ) (file : List ℕ) : Type 0 where
  pub ends : flm_elf_parse file ≢ no_return
  pub usable :
      (img : Image) (c d : ℕ)
      → flm_elf_parse file ≡ ok (img, c, d)
      → IsUsable img (drop c file) (drop d file) × (img.flash_size < fuel)

-- The calls of the SWD and debug port and of the pin control return.
pub record LinkReturns {S : Type 0} (p : Platform) (swd : SwdPort S) (port : DebugPort S)
    : Type 0 where
  pub answers : Answers port
  pub selftests : Returning port.selftest
  pub starts : Returning swd.init
  pub resets : Returning swd.line_reset
  pub seeks : (t : Trace) → p.seek t ≢ no_return
  pub restores : (t : Trace) → p.restore_pins t ≢ no_return

selftest_returns : (img : Image) → Flm.selftest img ≢ no_return
unfolding Flm.selftest
selftest_returns img = ground arith

module _ {S : Type 0} (p : Platform) (swd : SwdPort S) (port : DebugPort S) (returns : Returns p)
    (bounded : ReadsBounded p) (link : LinkReturns p swd port) (file : List ℕ)
    (offers : Offers p flm file) (ram_base ram_size fuel : ℕ) (algorithm : IsAlgorithm fuel file)
    (enough : length file < fuel) where
  abbrev Loaded : Image × List ℕ × List ℕ → Type 0
  Loaded (img, code, section_data) =
      (c : ℕ) × (d : ℕ) × (flm_elf_parse file ≡ ok (img, c, d))
      × (code ≡ drop c file)
      × (section_data ≡ drop d file)

  loads : Total {S = Board (Session S)} (λ _. Unit) (load_flm p swd port fuel flm) (λ v _. Loaded v)
  loads = load_flm-parses p swd port returns bounded flm file offers fuel enough algorithm.ends

  restore-Returning : Returning {S = Board (Session S)} (restore_usart2 p)
  unfolding restore_usart2
  restore-Returning = Total-call _ (λ r. pins_restored (is_ok r)) link.restores (λ b a h e. tt)

  unlink-Returning : (path : FilePath) → Returning {S = Board (Session S)} (file_unlink p path)
  unfolding file_unlink
  unlink-Returning path =
      Total-call _ (λ r. unlinked path (is_ok r)) (returns.unlinks path) (λ b a h e. tt)

  attached-Returning :
      (path : FilePath) (img : Image) (code section_data : List ℕ)
      → Loaded (img, code, section_data)
      → Returning (update_attached p swd port ram_base ram_size fuel path img code section_data)
  attached-Returning path img code section_data (c, d, e, ec, ed) =
      let (usable, fits) = algorithm.usable img c d e in
      update_attached-Ends p swd port returns bounded link.answers link.seeks link.resets ram_base
        ram_size fuel img code section_data (rw (ec, ed) usable) fits path

  pub update-Returning :
      (path : FilePath) → Returning (update p swd port ram_base ram_size fuel path flm)
  unfolding update enter_swd
  update-Returning path =
      Total-bind {R = λ v _. Loaded v} (load_flm p swd port fuel flm) _ loads
        λ (img, code, section_data). record {
          at = λ b loaded.
              (Returning-bind (on_target (on_core swd.init)) _
                  (on_target-Returning _ (on_core-Returning _ link.starts))
                  λ _.
                    Returning-bind
                      (finally (restore_usart2 p) (
                        update_attached p swd port ram_base ram_size fuel path img code
                          section_data))
                      _
                      (Total-finally (restore_usart2 p) restore-Returning (λ _. Unit) _
                        (attached-Returning path img code section_data loaded))
                      λ _.
                        Returning-bind (file_unlink p path) _ (unlink-Returning path)
                          λ _. unlink-Returning flm).at
                b tt;
        }

  flm_selftest-Returning : Returning (flm_selftest p swd port ram_base ram_size fuel flm)
  unfolding flm_selftest tf_file_exists
  flm_selftest-Returning = record {
    at = λ b u.
        (Total-if (is_ok (p.stat b.trace flm)) _ _
            (λ _.
              Returning-bind (load_flm p swd port fuel flm) _ (Total-forget _ loads)
                λ (img, _, _). lift-Returning (Flm.selftest img) (selftest_returns img))
            (λ _. pure-Returning tt)).at
          (record b { trace = stated flm ∷ b.trace }) tt;
  }

  -- What the boot calls of the module returns.
  pub co_processor-Finishes : Finishes (co_processor p swd port ram_base ram_size fuel)
  co_processor-Finishes = record {
    update = update-Returning ble_bin;
    cm_selftest =
        on_target-Returning _
          (on_core-Returning _ (selftest-Returning port link.answers link.selftests));
    flm_selftest = flm_selftest-Returning;
  }
