-- ===== src/Led/Lit.antt =====
-- Whether a LED is on, as a function of the calls made so far.
use alonzo_bootloader_zephyr.Base.{
  ℕ, ◌≡◌, arith, Bool, true, false, not, [], ◌∷◌, ◌==◌, if◌then◌else◌,
}
use alonzo_bootloader_zephyr.Board.{
  Trace, Board, Platform, led_configured, led_written, led_toggled,
}
use alonzo_bootloader_zephyr.Led.{led_set, led_all_off}

abbrev pub lit : ℕ → Trace → Bool
lit id [] = false
lit id (led_configured i ∷ t) = if i == id then false else lit id t
lit id (led_written i on ∷ t) = if i == id then on else lit id t
lit id (led_toggled i ∷ t) = if i == id then not (lit id t) else lit id t
lit id (_ ∷ t) = lit id t

module _ {T : Type 0} (p : Platform) (red_ready : p.led_ready 0 ≡ true)
    (green_ready : p.led_ready 1 ≡ true) where
  -- All off and then one on: that one alone is lit.
  pub only_red :
      (b : Board T)
      → (lit 0 (led_set p 0 true (led_all_off p b)).trace ≡ true)
        × (lit 1 (led_set p 0 true (led_all_off p b)).trace ≡ false)
  unfolding led_set led_all_off
  only_red b = ground arith

  pub only_green :
      (b : Board T)
      → (lit 0 (led_set p 1 true (led_all_off p b)).trace ≡ false)
        × (lit 1 (led_set p 1 true (led_all_off p b)).trace ≡ true)
  unfolding led_set led_all_off
  only_green b = ground arith
