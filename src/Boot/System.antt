-- ===== src/Boot/System.antt =====
-- The boot with the co-processor code of the repository in its place.
use alonzo_bootloader_zephyr.Base.{ℕ, ◌<◌, ◌≢◌, Bool, List, length, no_return}
use alonzo_bootloader_zephyr.Board.{Board, Trace, Platform, firmware_bin, flm}
use alonzo_bootloader_zephyr.Board.Reading.{Offers}
use alonzo_bootloader_zephyr.MemoryLayout.{app_offset, app_size}
use alonzo_bootloader_zephyr.Swd.Wire
use alonzo_bootloader_zephyr.Swd.Wire.{Pin, Mode, Gpio, Link}
use alonzo_bootloader_zephyr.Swd.Port.{SwdPort, bit_banged}
use alonzo_bootloader_zephyr.Swd.Returning.{bit_banged-PortReturns}
use alonzo_bootloader_zephyr.Dap.Port.{DebugPort, over}
use alonzo_bootloader_zephyr.Dap.Returning.{over-Answers, selftest-Returning}
use alonzo_bootloader_zephyr.Flm.Format.{Session}
use alonzo_bootloader_zephyr.FirmwareUpdate.Region.{AllAbove, IsPaged}
use alonzo_bootloader_zephyr.CoProcessor.{co_processor}
use alonzo_bootloader_zephyr.FirmwareUpdate.Image.{Returns}
use alonzo_bootloader_zephyr.CoProcessor.Ending.{ReadsBounded}
use alonzo_bootloader_zephyr.CoProcessor.Completion.{
  IsAlgorithm, LinkReturns, co_processor-Finishes,
}
use alonzo_bootloader_zephyr.CoProcessor.Safety.{co_processor-SparesFlash}
use alonzo_bootloader_zephyr.Boot.{updating, main}
use alonzo_bootloader_zephyr.Boot.Progress.{main-ends}
use alonzo_bootloader_zephyr.Boot.Safety.{main-AllAbove}

module _ {S : Type 0} (p : Platform) (swd : SwdPort S) (port : DebugPort S)
    (ram_base ram_size update_fuel : ℕ) (selftest : Bool) (fuel bootloader_size : ℕ)
    (b : Board (Session S)) where
  -- With the co-processor update of the repository, over any SWD and debug port: if no flash page
  -- straddles the end of the bootloader and no call before the boot erased or wrote flash below the
  -- application region, then no call of the boot has.
  pub system-AllAbove :
      IsPaged p (app_offset bootloader_size)
      → AllAbove (app_offset bootloader_size) b
      → AllAbove
          (app_offset bootloader_size)
          (main p
            (co_processor p swd port ram_base ram_size update_fuel)
            selftest
            fuel
            bootloader_size
            b).1
  system-AllAbove paged h =
      main-AllAbove p (co_processor p swd port ram_base ram_size update_fuel) selftest fuel
        bootloader_size b paged
        (co_processor-SparesFlash p swd port ram_base ram_size update_fuel
          (app_offset bootloader_size))
        h

-- What the drivers and the card must do for the boot to come to an end: every call returns, no flash
-- page straddles the end of the bootloader, and the card serves firmware.bin and the .FLM file,
-- whose image can be programmed. The fuel exceeds what each loop needs.
pub record Cooperates (p : Platform) (gpio : Gpio) (firmware algorithm : List ℕ)
    (update_fuel fuel bootloader_size : ℕ) : Type 0 where
  pub mounts : (t : Trace) → p.mount t ≢ no_return
  pub returns : Returns p
  pub seeks : (t : Trace) → p.seek t ≢ no_return
  pub restores : (t : Trace) → p.restore_pins t ≢ no_return
  pub configures :
      (t : Wire.Trace) (pin : Pin) (mode : Mode) → gpio.configures t pin mode ≢ no_return
  pub bounded : ReadsBounded p
  pub paged : IsPaged p (app_offset bootloader_size)
  pub firmware_there : Offers p firmware_bin firmware
  pub algorithm_there : Offers p flm algorithm
  pub usable : IsAlgorithm update_fuel algorithm
  pub update_enough : length algorithm < update_fuel
  pub enough : app_size bootloader_size < fuel

-- The whole bootloader, from main.c down to the pins of the SWD link: where the drivers and the card
-- do what `Cooperates` lists, with its fuel, the boot ends, in the application or in the error loop.
pub system-ends :
    (p : Platform) (gpio : Gpio) (firmware algorithm : List ℕ)
    (ram_base ram_size update_fuel fuel bootloader_size : ℕ) (selftest : Bool)
    → Cooperates p gpio firmware algorithm update_fuel fuel bootloader_size
    → (b : Board (Session Link))
    → (main p
        (co_processor p (bit_banged gpio) (over (bit_banged gpio)) ram_base ram_size update_fuel)
        selftest
        fuel
        bootloader_size
        b).0
      ≢ updating
system-ends p gpio firmware algorithm ram_base ram_size update_fuel fuel bootloader_size selftest c
      b =
    let port = bit_banged-PortReturns gpio c.configures in
    let link : LinkReturns p (bit_banged gpio) (over (bit_banged gpio)) = record {
      answers = over-Answers (bit_banged gpio) port;
      selftests = selftest-Returning (bit_banged gpio) port;
      starts = port.init;
      resets = port.line_reset;
      seeks = c.seeks;
      restores = c.restores;
    } in
    let finishes =
      co_processor-Finishes p (bit_banged gpio) (over (bit_banged gpio)) c.returns c.bounded link
        algorithm c.algorithm_there ram_base ram_size update_fuel c.usable c.update_enough in
    main-ends p
      (co_processor p (bit_banged gpio) (over (bit_banged gpio)) ram_base ram_size update_fuel)
      selftest fuel bootloader_size c.mounts c.returns firmware c.firmware_there c.paged finishes
      c.enough b
