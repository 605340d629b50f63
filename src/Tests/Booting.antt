-- ===== src/Tests/Booting.antt =====
-- A boot that finds firmware.bin and enters the application.
use alonzo_bootloader_zephyr.Base.{◌≡◌, refl, arith, false}
use alonzo_bootloader_zephyr.Board.{Platform}
use alonzo_bootloader_zephyr.Led.{led_set, led_toggle, led_init, led_all_off}
use alonzo_bootloader_zephyr.Tf.{tf_mount, tf_file_exists}
use alonzo_bootloader_zephyr.AppJump.{app_image_valid, app_jump}
use alonzo_bootloader_zephyr.FirmwareUpdate.{firmware_update, erase_app_region}
use alonzo_bootloader_zephyr.FirmwareUpdate.Cell.{Burnt}
use alonzo_bootloader_zephyr.FirmwareUpdate.Burning.{region_end}
use alonzo_bootloader_zephyr.MemoryLayout.{app_offset}
use alonzo_bootloader_zephyr.Update.{update_apply}
use alonzo_bootloader_zephyr.CoProcessor.{co_processor}
use alonzo_bootloader_zephyr.Boot.{in_application, main}
use alonzo_bootloader_zephyr.Boot.Burnt.{system-Burnt}
use alonzo_bootloader_zephyr.Tests.Fixtures.{
  platform, platform-IsPaged, platform-Returns, platform-Serves, sector_of, three,
}
use alonzo_bootloader_zephyr.Tests.Target.{wired, core, unloaded}

-- The vector table names an even handler.
abbrev with_firmware : Platform
with_firmware = platform 0x0802_0100

enters :
    (main with_firmware
      (co_processor with_firmware wired core 0x2000_0000 0x4000 20)
      false
      0x70000
      0x20000
      unloaded).0
    ≡ in_application
unfolding main firmware_update erase_app_region update_apply tf_mount tf_file_exists led_set
    led_toggle led_init led_all_off app_jump app_image_valid sector_of
enters = refl

system-Burnt_example :
    Burnt
      (app_offset 0x20000)
      (region_end 0x20000)
      three
      (main with_firmware
        (co_processor with_firmware wired core 0x2000_0000 0x4000 20)
        false
        0x70000
        0x20000
        unloaded).1.trace
unfolding tf_mount
system-Burnt_example =
    system-Burnt with_firmware wired core 0x2000_0000 0x4000 20 false 0x70000 0x20000 three unloaded
      (platform-Returns 0x0802_0100) (platform-Serves 0x0802_0100) (platform-IsPaged 0x0802_0100)
      (omega arith) refl refl enters
