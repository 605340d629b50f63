-- ===== src/CortexM/Register.antt =====
-- Addresses and bits of the Cortex-M debug registers (src/fr8016/cortexm.h).
use alonzo_bootloader_zephyr.Base.{ℕ, ◌<<<◌}

abbrev pub dhcsr : ℕ
dhcsr = 0xe000_edf0

abbrev pub dcrsr : ℕ
dcrsr = 0xe000_edf4

abbrev pub dcrdr : ℕ
dcrdr = 0xe000_edf8

abbrev pub demcr : ℕ
demcr = 0xe000_edfc

abbrev pub dfsr : ℕ
dfsr = 0xe000_ed30

abbrev pub aircr : ℕ
aircr = 0xe000_ed0c

abbrev pub dbgkey : ℕ
dbgkey = 0xa05f <<< 16

abbrev pub c_debugen : ℕ
c_debugen = 1 <<< 0

abbrev pub c_halt : ℕ
c_halt = 1 <<< 1

abbrev pub s_regrdy : ℕ
s_regrdy = 1 <<< 16

abbrev pub s_halt : ℕ
s_halt = 1 <<< 17

abbrev pub regwnr : ℕ
regwnr = 1 <<< 16

abbrev pub regsel_mask : ℕ
regsel_mask = 0x7f

abbrev pub vc_corereset : ℕ
vc_corereset = 1 <<< 0

abbrev pub vectkey : ℕ
vectkey = 0x05fa <<< 16

abbrev pub sysresetreq : ℕ
sysresetreq = 1 <<< 2

-- Selectors of the core registers; R0 to R12 are their numbers.
abbrev pub r9 : ℕ
r9 = 9

abbrev pub sp : ℕ
sp = 13

abbrev pub lr : ℕ
lr = 14

abbrev pub pc : ℕ
pc = 15

abbrev pub xpsr : ℕ
xpsr = 16
