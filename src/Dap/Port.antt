-- ===== src/Dap/Port.antt =====
-- What the layers above dap.c use of it, over any state `S`, and the module as one such port.
use alonzo_bootloader_zephyr.Base.{ℕ, ⊤, Exec}
use alonzo_bootloader_zephyr.Dap.{init, clear_errors, mem_read32, mem_write32, selftest}
use alonzo_bootloader_zephyr.Swd.Port.{SwdPort}

-- `wait` is `k_busy_wait`, in microseconds.
pub record DebugPort (S : Type 0) : Type 0 where
  pub init : Exec S ⊤
  pub clear_errors : Exec S ⊤
  pub mem_read32 : ℕ → Exec S ℕ
  pub mem_write32 : ℕ → ℕ → Exec S ⊤
  pub selftest : Exec S ⊤
  pub wait : ℕ → S → S

abbrev pub over : {S : Type 0} → SwdPort S → DebugPort S
over swd = record {
  init = init swd;
  clear_errors = clear_errors swd;
  mem_read32 = mem_read32 swd;
  mem_write32 = mem_write32 swd;
  selftest = selftest swd;
  wait = swd.wait;
}
