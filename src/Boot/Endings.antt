-- ===== src/Boot/Endings.antt =====
-- How the boot ends: the LEDs, and when the application is entered.
use alonzo_bootloader_zephyr.Base.{
  ℕ, ◌≡◌, refl, if◌then◌else◌, arith, Bool, true, false, ⊤, Result, ok, err, no_return,
}
use alonzo_bootloader_zephyr.Board.{Board, Platform}
use alonzo_bootloader_zephyr.Led.{led_set, led_all_off}
use alonzo_bootloader_zephyr.Led.Lit.{lit, only_red, only_green}
use alonzo_bootloader_zephyr.MemoryLayout.{app_start}
use alonzo_bootloader_zephyr.AppJump.{app_image_valid, app_jump}
use alonzo_bootloader_zephyr.AppJump.Handoff.{app_jump-lit}
use alonzo_bootloader_zephyr.Update.{Fr8016}
use alonzo_bootloader_zephyr.Boot.{
  Ending, Reason, in_application, in_error_loop, updating, jump_failed, no_valid_application,
  update_failed, error_loop, try_update, start_application, conclude, main,
}

-- Red alone in the error loop, green alone in the application.
abbrev pub HasFinalLeds : {T : Type 0} → Ending × Board T → Type 0
HasFinalLeds (in_application, b) = (lit 0 b.trace ≡ false) × (lit 1 b.trace ≡ true)
HasFinalLeds (in_error_loop r, b) = (lit 0 b.trace ≡ true) × (lit 1 b.trace ≡ false)
HasFinalLeds (updating, b) = Unit

HasFinalLeds-if :
    {T : Type 0} (c : Bool) (x y : Ending × Board T)
    → (c ≡ true → HasFinalLeds x)
    → (c ≡ false → HasFinalLeds y)
    → HasFinalLeds (if c then x else y)
HasFinalLeds-if true x y hx hy = hx refl
HasFinalLeds-if false x y hx hy = hy refl

module _ {T : Type 0} (p : Platform) (red_ready : p.led_ready 0 ≡ true)
    (green_ready : p.led_ready 1 ≡ true) where
  error_loop-HasFinalLeds : (reason : Reason) (b : Board T) → HasFinalLeds (error_loop p reason b)
  unfolding error_loop
  error_loop-HasFinalLeds reason b = only_red p red_ready green_ready b

  start_application-HasFinalLeds :
      (size : ℕ) (b : Board T) → HasFinalLeds (start_application p size b)
  unfolding start_application
  start_application-HasFinalLeds size b =
      let green = led_set p 1 true (led_all_off p b) in
      HasFinalLeds-if (app_image_valid p size (app_start size) green) _ _
        (λ _.
          HasFinalLeds-if (app_jump p size (app_start size) green).0 _ _
            (λ _.
              rw
                (
                  app_jump-lit p size (app_start size) green 0,
                  app_jump-lit p size (app_start size) green 1,
                )
                (only_green p red_ready green_ready b))
            (λ _. error_loop-HasFinalLeds jump_failed _))
        (λ _. error_loop-HasFinalLeds no_valid_application green)

  conclude-HasFinalLeds :
      (size : ℕ) (rc : Result ⊤) (b : Board T) → HasFinalLeds (conclude p size rc b)
  unfolding conclude
  conclude-HasFinalLeds size (ok _) b = start_application-HasFinalLeds size b
  conclude-HasFinalLeds size (err e) b = error_loop-HasFinalLeds update_failed b
  conclude-HasFinalLeds size no_return b = tt

module _ {T : Type 0} (p : Platform) where
  start_application_entered :
      (size : ℕ) (b : Board T)
      → (start_application p size b).0 ≡ in_application
      → app_image_valid p size (app_start size) (led_set p 1 true (led_all_off p b)) ≡ true
  unfolding start_application error_loop
  start_application_entered size b h = ground arith

  conclude_entered :
      (size : ℕ) (rc : Result ⊤) (b : Board T)
      → (conclude p size rc b).0 ≡ in_application
      → (rc ≡ ok tt)
        × (app_image_valid p size (app_start size) (led_set p 1 true (led_all_off p b)) ≡ true)
  unfolding conclude error_loop
  conclude_entered size (ok tt) b h = (refl, start_application_entered size b h)
  conclude_entered size (err e) b h = cc
  conclude_entered size no_return b h = cc

module _ {T : Type 0} (p : Platform) (fr8016 : Fr8016 T) (selftest : Bool) (fuel size : ℕ)
    (b : Board T) where
  -- With both LEDs ready, the boot ends either in the application with the green LED on and the red
  -- one off, or in the error loop with the red LED on and the green one off, or it is still updating
  -- when the fuel ends.
  pub main-HasFinalLeds :
      p.led_ready 0 ≡ true
      → p.led_ready 1 ≡ true
      → HasFinalLeds (main p fr8016 selftest fuel size b)
  unfolding main
  main-HasFinalLeds red_ready green_ready =
      let (rc, b') = try_update p fr8016 selftest fuel size b in
      conclude-HasFinalLeds p red_ready green_ready size rc b'

  -- The application is entered only after updates that did not fail, and only if its vector table
  -- is accepted at the time of the jump.
  pub main_entered :
      (main p fr8016 selftest fuel size b).0 ≡ in_application
      → let (rc, b') = try_update p fr8016 selftest fuel size b in
        (rc ≡ ok tt)
        × (app_image_valid p size (app_start size) (led_set p 1 true (led_all_off p b')) ≡ true)
  unfolding main
  main_entered h =
      let (rc, b') = try_update p fr8016 selftest fuel size b in conclude_entered p size rc b' h
