-- ===== src/Swd/Port.antt =====
-- What the layers above swd.c use of it, over any state `S`, and the module as one such port.
use alonzo_bootloader_zephyr.Base.{ℕ, ⊤, Exec}
use alonzo_bootloader_zephyr.Swd.{
  emit, init, line_reset, read_dp, write_dp, read_ap, write_ap, read_idcode,
}
use alonzo_bootloader_zephyr.Swd.Wire.{busy_wait, Gpio, Link}

-- `wait` is `k_busy_wait`, in microseconds.
pub record SwdPort (S : Type 0) : Type 0 where
  pub init : Exec S ⊤
  pub line_reset : Exec S ⊤
  pub read_dp : ℕ → Exec S ℕ
  pub write_dp : ℕ → ℕ → Exec S ⊤
  pub read_ap : ℕ → Exec S ℕ
  pub write_ap : ℕ → ℕ → Exec S ⊤
  pub read_idcode : Exec S ℕ
  pub wait : ℕ → S → S

abbrev pub bit_banged : Gpio → SwdPort Link
bit_banged gpio = record {
  init = init gpio;
  line_reset = line_reset gpio;
  read_dp = read_dp gpio;
  write_dp = write_dp gpio;
  read_ap = read_ap gpio;
  write_ap = write_ap gpio;
  read_idcode = read_idcode gpio;
  wait = λ us. emit (busy_wait us);
}
