-- ===== src/Swd/Wire.antt =====
-- The GPIO driver below src/fr8016/swd.c, and the record of every call that the module makes to it.
-- The driver's answers are a parameter: any functions of the calls made so far.
use alonzo_bootloader_zephyr.Base.{ℕ, Bool, List, Result, ⊤}

-- SWCLK is PA2 and SWDIO is PA3.
pub data Pin : Type 0 where
  swclk swdio : Pin

-- GPIO_OUTPUT_LOW, and GPIO_INPUT | GPIO_PULL_UP.
pub data Mode : Type 0 where
  output_low input_pull_up : Mode

-- The calls, each with its arguments; `configure` with whether the driver returned 0.
pub data Event : Type 0 where
  configure : Pin → Mode → Bool → Event
  set_raw : Pin → ℕ → Event
  get_raw : Pin → Event
  busy_wait : ℕ → Event

-- The latest call stands first.
abbrev pub Trace : Type 0
Trace = List Event

-- What the driver returns, given the calls before. `set_raw` is not here: the source drops its result.
pub record Gpio : Type 0 where
  pub is_ready : Trace → Bool
  pub configures : Trace → Pin → Mode → Result ⊤
  pub reads : Trace → Pin → Result ℕ

-- The static variables of swd.c, with the calls made so far.
-- `has_port` is `swd_port != NULL`.
pub record Link : Type 0 where
  pub has_port : Bool
  pub swdio_is_output : Bool
  pub trace : Trace
