-- ===== src/Boot/Safety.antt =====
-- The whole boot leaves the flash of the bootloader alone, and goes on without a TF card.
use alonzo_bootloader_zephyr.Base.{
  All, ℕ, ◌≡◌, refl, Bool, true, false, ⊤, Errno, [], ◌∷◌, Result, ok, err, no_return,
}
use alonzo_bootloader_zephyr.Base.Hoare.{Post-any}
use alonzo_bootloader_zephyr.Board.{Trace, Board, Platform, mounted, flash_erased, flash_written}
use alonzo_bootloader_zephyr.Led.{led_green, led_set, led_all_off, led_init}
use alonzo_bootloader_zephyr.MemoryLayout.{app_offset, app_start}
use alonzo_bootloader_zephyr.AppJump.{app_image_valid, app_jump}
use alonzo_bootloader_zephyr.Tf.{tf_mount}
use alonzo_bootloader_zephyr.FirmwareUpdate.Region.{IsAbove, AllAbove, IsPaged}
use alonzo_bootloader_zephyr.Update.{Fr8016, update_apply}
use alonzo_bootloader_zephyr.Update.Order.{SparesFlash, update_apply-AllAbove}
use alonzo_bootloader_zephyr.Boot.Starting.{Idle, led_all_off-Kept, led_init-Kept, conclude-Kept}
use alonzo_bootloader_zephyr.Boot.{
  in_application, in_error_loop, no_valid_application, error_loop, start_application, conclude,
  update_if_mounted, try_update, main,
}

IsAbove-Idle : (low : ℕ) → Idle (All (IsAbove low))
IsAbove-Idle low = record {
  configures = λ id t h. (tt, h);
  sets = λ id on t h. (tt, h);
  irqs = λ t h. (tt, h);
  systick = λ t h. (tt, h);
  pending = λ t h. (tt, h);
  lines = λ i t h. (tt, h);
  table = λ a t h. (tt, h);
  stack = λ a t h. (tt, h);
  enters = λ a t h. (tt, h);
}

-- The calls that erase or write flash, the latest first.
abbrev pub flash_calls : Trace → Trace
flash_calls [] = []
flash_calls (flash_erased off size done ∷ t) = flash_erased off size done ∷ flash_calls t
flash_calls (flash_written off bytes done ∷ t) = flash_written off bytes done ∷ flash_calls t
flash_calls (_ ∷ t) = flash_calls t

flash_calls-Idle : (before : Trace) → Idle (λ t. flash_calls t ≡ before)
flash_calls-Idle before = record {
  configures = λ id t h. h;
  sets = λ id on t h. h;
  irqs = λ t h. h;
  systick = λ t h. h;
  pending = λ t h. h;
  lines = λ i t h. h;
  table = λ a t h. h;
  stack = λ a t h. h;
  enters = λ a t h. h;
}

module _ {T : Type 0} (p : Platform) (fr8016 : Fr8016 T) (selftest : Bool)
    (fuel bootloader_size : ℕ) (b : Board T) where
  -- The boot keeps a property that the updates keep.
  main-Kept :
      (P : Trace → Type 0)
      → Idle P
      → ((done : Bool) (t : Trace) → P t → P (mounted done ∷ t))
      → (let (rc, carded) = tf_mount p (led_all_off p (led_init p b)) in
          P carded.trace
          → P (update_if_mounted p fr8016 selftest fuel bootloader_size rc carded).1.trace)
      → P b.trace
      → P (main p fr8016 selftest fuel bootloader_size b).1.trace
  unfolding main try_update tf_mount
  main-Kept P idle mounts updates h =
      let dark = led_all_off p (led_init p b) in
      let (carded_rc, carded) = tf_mount p dark in
      let (rc, updated) =
        update_if_mounted p fr8016 selftest fuel bootloader_size carded_rc carded in
      let dark_ok : P dark.trace = led_all_off-Kept P idle p _ (led_init-Kept P idle p b h) in
      conclude-Kept P idle p bootloader_size rc updated (updates (mounts _ _ dark_ok))

  module _ (paged : IsPaged p (app_offset bootloader_size))
      (spares : SparesFlash (app_offset bootloader_size) fr8016) where
    update_if_mounted-AllAbove :
        (mounted : Result ⊤) (b : Board T)
        → AllAbove (app_offset bootloader_size) b
        → AllAbove
            (app_offset bootloader_size)
            (update_if_mounted p fr8016 selftest fuel bootloader_size mounted b).1
    unfolding update_if_mounted
    update_if_mounted-AllAbove (ok _) b h =
        let (r, b') = update_apply p fr8016 selftest fuel bootloader_size b in
        Post-any (AllAbove (app_offset bootloader_size)) r b'
          ((update_apply-AllAbove p fr8016 selftest fuel bootloader_size paged spares).at b h)
    update_if_mounted-AllAbove (err e) b h = h
    update_if_mounted-AllAbove no_return b h = h

    -- If the flash pages do not straddle the end of the bootloader, and the co-processor update
    -- erases and writes no internal flash below the application region, then the whole boot erases
    -- and writes nothing there: if no call before it did, no call after it has.
    pub main-AllAbove :
        AllAbove (app_offset bootloader_size) b
        → AllAbove (app_offset bootloader_size) (main p fr8016 selftest fuel bootloader_size b).1
    main-AllAbove =
        let (rc, carded) = tf_mount p (led_all_off p (led_init p b)) in
        let low = app_offset bootloader_size in
        main-Kept (All (IsAbove low)) (IsAbove-Idle low) (λ done t h. (tt, h))
          (update_if_mounted-AllAbove rc carded)

  update_if_mounted-unmounted :
      (rc : Result ⊤) (e : Errno) (b : Board T)
      → rc ≡ err e
      → (update_if_mounted p fr8016 selftest fuel bootloader_size rc b).1 ≡ b
  unfolding update_if_mounted
  update_if_mounted-unmounted (ok _) e b absent = absurd cc
  update_if_mounted-unmounted (err _) e b absent = refl
  update_if_mounted-unmounted no_return e b absent = absurd cc

  -- If the TF card cannot be mounted, the boot goes on without it: it enters the application if its
  -- vector table is accepted with the green LED on, ends in the error loop for an application that is
  -- not valid otherwise, and erases and writes no flash at all, whatever the co-processor code is.
  pub main-no_card :
      (e : Errno)
      → (tf_mount p (led_all_off p (led_init p b))).0 ≡ err e
      → let carded = (tf_mount p (led_all_off p (led_init p b))).1 in
        let green = led_set p led_green true (led_all_off p carded) in
        let ending = main p fr8016 selftest fuel bootloader_size b in
        let start = app_start bootloader_size in
        (app_image_valid p bootloader_size start green ≡ true → ending.0 ≡ in_application)
        × (app_image_valid p bootloader_size start green ≡ false
            → ending.0 ≡ in_error_loop no_valid_application)
        × (flash_calls ending.1.trace ≡ flash_calls b.trace)
  unfolding main try_update update_if_mounted conclude start_application error_loop app_jump
  main-no_card e absent = (
    λ valid. rw absent (rw valid refl),
    λ refused. rw absent (rw refused refl),
    let (rc, carded) = tf_mount p (led_all_off p (led_init p b)) in
        let before = flash_calls b.trace in
        main-Kept (λ t. flash_calls t ≡ before) (flash_calls-Idle before) (λ done t h. h)
          (λ h. rw (update_if_mounted-unmounted rc e carded absent) h) refl,
  )
