-- ===== src/Boot.antt =====
-- src/main.c: the boot sequence, up to the jump or to the endless error loop. Printing is left out.
pub mod Endings
pub mod Starting
pub mod Burnt
pub mod Safety
pub mod System
pub mod Progress
use alonzo_bootloader_zephyr.Base.{ℕ, Bool, true, ⊤, Result, ok, err, no_return, if◌then◌else◌}
use alonzo_bootloader_zephyr.MemoryLayout.{app_start}
use alonzo_bootloader_zephyr.Board.{Board, Platform}
use alonzo_bootloader_zephyr.Led.{led_red, led_green, led_init, led_set, led_all_off}
use alonzo_bootloader_zephyr.Tf.{tf_mount}
use alonzo_bootloader_zephyr.Update.{Fr8016, update_apply}
use alonzo_bootloader_zephyr.AppJump.{app_image_valid, app_jump}

pub data Reason : Type 0 where
  update_failed no_valid_application jump_failed : Reason

-- `main` does not return: it hands over to the application or stays in `error_loop`. `updating` is
-- an update that does not return.
pub data Ending : Type 0 where
  in_application : Ending
  in_error_loop : Reason → Ending
  updating : Ending

module _ {T : Type 0} (p : Platform) where
  -- Up to the loop in which nothing changes any more.
  pub error_loop : Reason → Board T → Ending × Board T
  error_loop reason b = (in_error_loop reason, led_set p led_red true (led_all_off p b))

  -- From the green LED on.
  start_application : ℕ → Board T → Ending × Board T
  unfolding error_loop
  start_application bootloader_size b =
      let start = app_start bootloader_size in
      let b' = led_set p led_green true (led_all_off p b) in
      let (jumped, b'') = app_jump p bootloader_size start b' in
      if app_image_valid p bootloader_size start b'
      then (if jumped then (in_application, b'') else error_loop jump_failed b'')
      else error_loop no_valid_application b'

  -- The test `rc < 0`, and what follows it.
  pub conclude : ℕ → Result ⊤ → Board T → Ending × Board T
  unfolding error_loop start_application
  conclude bootloader_size (ok _) b = start_application bootloader_size b
  conclude bootloader_size (err e) b = error_loop update_failed b
  conclude bootloader_size no_return b = (updating, b)

module _ {T : Type 0} (p : Platform) (fr8016 : Fr8016 T) (selftest : Bool)
    (fuel bootloader_size : ℕ) where
  -- A card that cannot be mounted counts as success.
  update_if_mounted : Result ⊤ → Board T → Result ⊤ × Board T
  update_if_mounted (ok _) b = update_apply p fr8016 selftest fuel bootloader_size b
  update_if_mounted (err e) b = (ok tt, b)
  update_if_mounted no_return b = (no_return, b)

  -- The LEDs off, the TF card, and the updates.
  pub try_update : Board T → Result ⊤ × Board T
  unfolding update_if_mounted
  try_update b =
      let (mounted, b') = tf_mount p (led_all_off p (led_init p b)) in update_if_mounted mounted b'

  unfoldable pub main : Board T → Ending × Board T
  unfolding conclude try_update
  main b = let (rc, b') = try_update b in conclude p bootloader_size rc b'
