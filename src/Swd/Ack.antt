-- ===== src/Swd/Ack.antt =====
-- The acknowledge values of the target (src/fr8016/swd.h).
use alonzo_bootloader_zephyr.Base.{ℕ}

abbrev pub good : ℕ
good = 0x1

abbrev pub wait : ℕ
wait = 0x2

abbrev pub fault : ℕ
fault = 0x4
