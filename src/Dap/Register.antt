-- ===== src/Dap/Register.antt =====
-- Register addresses and bits of the debug port and the MEM-AP (src/fr8016/dap.h).
use alonzo_bootloader_zephyr.Base.{ℕ, ◌<<<◌, bit_or}

abbrev pub cdbgpwrupreq : ℕ
cdbgpwrupreq = 1 <<< 28

abbrev pub cdbgpwrupack : ℕ
cdbgpwrupack = 1 <<< 29

abbrev pub csyspwrupreq : ℕ
csyspwrupreq = 1 <<< 30

abbrev pub csyspwrupack : ℕ
csyspwrupack = 1 <<< 31

abbrev pub stkcmpclr : ℕ
stkcmpclr = 1 <<< 1

abbrev pub stkerrclr : ℕ
stkerrclr = 1 <<< 2

abbrev pub ap_csw : ℕ
ap_csw = 0x00

abbrev pub ap_tar : ℕ
ap_tar = 0x04

abbrev pub ap_drw : ℕ
ap_drw = 0x0c

abbrev pub ap_idr_reg : ℕ
ap_idr_reg = 0x0c

abbrev pub ap_idr_bank : ℕ
ap_idr_bank = 0x0f

-- 32-bit transfers with the address incremented.
abbrev pub csw_word : ℕ
csw_word = bit_or 0x2 (0x1 <<< 4)
