-- ===== src/Tests/Boot.antt =====
-- Runs of the boot, and instances of its theorems.
use alonzo_bootloader_zephyr.Base.{
  arith, ℕ, ◌≤◌, ◌≡◌, refl, true, false, ◌∷◌, some, ok, err, eio, ⊤,
}
use alonzo_bootloader_zephyr.Base.Hoare.{Keeps, Triple}
use alonzo_bootloader_zephyr.MemoryLayout.{app_offset}
use alonzo_bootloader_zephyr.Board.{Trace, Platform, entered, Board}
use alonzo_bootloader_zephyr.Led.{led_set, led_toggle, led_init, led_all_off}
use alonzo_bootloader_zephyr.Tf.{tf_mount, tf_file_exists}
use alonzo_bootloader_zephyr.AppJump.{app_image_valid, app_jump}
use alonzo_bootloader_zephyr.AppJump.Handoff.{
  thumb_handler_refused, app_jump-handoff, irqs_on, lines_on, vector_table, stack_pointer,
}
use alonzo_bootloader_zephyr.FirmwareUpdate.{firmware_update, erase_app_region}
use alonzo_bootloader_zephyr.FirmwareUpdate.Region.{AllAbove, firmware_update-AllAbove}
use alonzo_bootloader_zephyr.Board.Deleting.{AllThere}
use alonzo_bootloader_zephyr.FirmwareUpdate.Deletion.{FirmwareDeleted, firmware_update-deletes}
use alonzo_bootloader_zephyr.FirmwareUpdate.Cell.{Burnt}
use alonzo_bootloader_zephyr.FirmwareUpdate.Burning.{IsDeleted, region_end, firmware_update-Burnt}
use alonzo_bootloader_zephyr.Base.Total.{Total}
use alonzo_bootloader_zephyr.Update.{update_apply}
use alonzo_bootloader_zephyr.Update.Order.{SparesFlash}
use alonzo_bootloader_zephyr.Boot.{
  in_application, in_error_loop, no_valid_application, try_update, main,
}
use alonzo_bootloader_zephyr.Boot.Endings.{HasFinalLeds, main-HasFinalLeds, main_entered}
use alonzo_bootloader_zephyr.Boot.Progress.{Finishes}
use alonzo_bootloader_zephyr.Boot.Safety.{flash_calls, main-no_card}
use alonzo_bootloader_zephyr.Tests.Fixtures.{
  platform, platform-IsPaged, platform-Returns, platform-Serves, three, sector_of, powered,
  no_target,
}

-- The handler is even.
abbrev pub even_handler : Platform
even_handler = platform 0x0802_0100

abbrev thumb_handler : Platform
thumb_handler = platform 0x0802_0101

-- The card cannot be mounted.
abbrev no_card : Platform
no_card = record even_handler { mount = λ _. err eio }

no_target-SparesFlash : (low : ℕ) → SparesFlash low no_target
no_target-SparesFlash low = record {
  update = λ _ _. record { at = λ b h. h };
  cm_selftest = record { at = λ b h. h };
  flm_selftest = λ _. record { at = λ b h. h };
}

no_target-Finishes : Finishes no_target
no_target-Finishes = record {
  update = record { at = λ b h. tt };
  cm_selftest = record { at = λ b h. tt };
  flm_selftest = record { at = λ b h. tt };
}

boots : (main even_handler no_target false 20 0x20000 powered).0 ≡ in_application
unfolding main firmware_update erase_app_region update_apply tf_mount tf_file_exists led_set
    led_toggle led_init led_all_off app_jump app_image_valid sector_of
boots = refl

firmware_update-AllAbove_example :
    Keeps (AllAbove 0x20000) (firmware_update {T = ⊤} even_handler 20 0x20000)
firmware_update-AllAbove_example =
    firmware_update-AllAbove even_handler 20 0x20000 (platform-IsPaged 0x0802_0100)

firmware_update-deletes_example :
    Triple
      (λ (b : Board ⊤). AllThere b.trace)
      (firmware_update even_handler 20 0x20000)
      (λ _ b. FirmwareDeleted b.trace)
      (λ b. AllThere b.trace)
firmware_update-deletes_example = firmware_update-deletes even_handler 20 0x20000

firmware_update-Burnt_example :
    Total
      (λ _. Unit)
      (firmware_update {T = ⊤} even_handler 0x70000 0x20000)
      (λ _ b. Burnt (app_offset 0x20000) (region_end 0x20000) three b.trace × IsDeleted b.trace)
firmware_update-Burnt_example =
    firmware_update-Burnt even_handler (platform-Returns 0x0802_0100) three
      (platform-Serves 0x0802_0100) 0x70000 0x20000 (platform-IsPaged 0x0802_0100) (omega arith)

main-HasFinalLeds_example : HasFinalLeds (main even_handler no_target false 20 0x20000 powered)
main-HasFinalLeds_example =
    main-HasFinalLeds even_handler no_target false 20 0x20000 powered refl refl

main_entered_example :
    let (rc, b') = try_update even_handler no_target false 20 0x20000 powered in
    (rc ≡ ok tt)
    × (app_image_valid even_handler 0x20000 0x0802_0000
          (led_set even_handler 1 true (led_all_off even_handler b'))
        ≡ true)
main_entered_example = main_entered even_handler no_target false 20 0x20000 powered boots

main-no_card_example :
    let green =
      led_set no_card 1 true (
        led_all_off no_card
          (tf_mount no_card (led_all_off no_card (led_init no_card powered))).1) in
    let ending = main no_card no_target false 20 0x20000 powered in
    (app_image_valid no_card 0x20000 0x0802_0000 green ≡ true → ending.0 ≡ in_application)
    × (app_image_valid no_card 0x20000 0x0802_0000 green ≡ false
        → ending.0 ≡ in_error_loop no_valid_application)
    × (flash_calls ending.1.trace ≡ flash_calls powered.trace)
unfolding tf_mount
main-no_card_example = main-no_card no_card no_target false 20 0x20000 powered eio refl

thumb_handler_refused_example :
    (app_image_valid thumb_handler 0x20000 0x0802_0000 powered ≡ false)
    × (app_jump thumb_handler 0x20000 0x0802_0000 powered ≡ (false, powered))
thumb_handler_refused_example = thumb_handler_refused thumb_handler 0x20000 0x0802_0000 powered refl

app_jump-handoff_example :
    let t = (app_jump even_handler 0x20000 0x0802_0000 powered).1.trace in
    (app_image_valid even_handler 0x20000 0x0802_0000 powered ≡ true)
    × (irqs_on t ≡ false)
    × ((i : ℕ) → i ≤ 2 → lines_on i t ≡ false)
    × (vector_table t ≡ some 0x0802_0000)
    × (stack_pointer t ≡ some 0x2001_0000)
    × ((rest : Trace) × (t ≡ entered 0x0802_0100 ∷ rest))
unfolding app_jump app_image_valid
app_jump-handoff_example = app_jump-handoff even_handler 0x20000 0x0802_0000 powered refl
