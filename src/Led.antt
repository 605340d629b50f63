-- ===== src/Led.antt =====
-- src/led.c: the status LEDs.
pub mod Lit
use alonzo_bootloader_zephyr.Base.{ℕ, Bool, false, ltb, if◌then◌else◌}
use alonzo_bootloader_zephyr.Board.{Board, Platform, emit, led_configured, led_written, led_toggled}

-- `enum alonzo_led_id`.
abbrev pub led_red : ℕ
led_red = 0

abbrev pub led_green : ℕ
led_green = 1

abbrev pub led_count : ℕ
led_count = 2

module _ {T : Type 0} (p : Platform) where
  -- The body of the loop of `led_init`.
  unfoldable pub configure_led : ℕ → Board T → Board T
  configure_led id b = if p.led_ready id then emit (led_configured id) b else b

  unfoldable pub led_init : Board T → Board T
  unfolding configure_led
  led_init b = configure_led 1 (configure_led 0 b)

  unfoldable pub led_set : ℕ → Bool → Board T → Board T
  led_set id on b =
      if ltb id led_count then (if p.led_ready id then emit (led_written id on) b else b) else b

  unfoldable pub led_toggle : ℕ → Board T → Board T
  led_toggle id b =
      if ltb id led_count then (if p.led_ready id then emit (led_toggled id) b else b) else b

  unfoldable pub led_all_off : Board T → Board T
  unfolding led_set
  led_all_off b = led_set 1 false (led_set 0 false b)
