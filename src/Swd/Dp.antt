-- ===== src/Swd/Dp.antt =====
-- The addresses of the debug port's registers (src/fr8016/swd.h).
use alonzo_bootloader_zephyr.Base.{ℕ}

abbrev pub dpidr : ℕ
dpidr = 0x0

abbrev pub abort : ℕ
abort = 0x0

abbrev pub ctrlstat : ℕ
ctrlstat = 0x4

abbrev pub select : ℕ
select = 0x8

abbrev pub rdbuff : ℕ
rdbuff = 0xc
