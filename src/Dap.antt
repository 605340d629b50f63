-- ===== src/Dap.antt =====
-- src/fr8016/dap.c: the debug port and the MEM-AP over an SWD port. Printing is left out.
pub mod Register
pub mod Port
pub mod Returning
pub mod Memory
use Register.{
  cdbgpwrupreq, cdbgpwrupack, csyspwrupreq, csyspwrupack, stkcmpclr, stkerrclr, ap_csw, ap_tar,
  ap_drw, ap_idr_reg, ap_idr_bank, csw_word,
}
use alonzo_bootloader_zephyr.Base.{
  ℕ, zero, suc, bit_and, bit_or, ◌<<<◌, u32, ⊤, etimedout, Exec, pure, raise, modify, ◌>>=◌, ◌>>◌,
  ◌==◌, if◌then◌else◌, finally,
}
use alonzo_bootloader_zephyr.Swd.Dp
use alonzo_bootloader_zephyr.Swd.Port.{SwdPort}

-- DAP_MEM_AP_SEL, DAP_POWERUP_RETRIES and DAP_POWERUP_POLL_US.
abbrev pub mem_ap_sel : ℕ
mem_ap_sel = 0

abbrev pub powerup_retries : ℕ
powerup_retries = 100

abbrev pub powerup_poll_us : ℕ
powerup_poll_us = 1000

abbrev pub powerup_acks : ℕ
powerup_acks = bit_or cdbgpwrupack csyspwrupack

module _ {S : Type 0} (swd : SwdPort S) where
  -- The loop of `dap_power_up`, with the rounds that are left.
  power_up_poll : ℕ → Exec S ⊤
  power_up_poll zero = raise etimedout
  power_up_poll (suc left) = do
    ctrlstat ← swd.read_dp Dp.ctrlstat
    if bit_and ctrlstat powerup_acks == powerup_acks
        then pure tt
        else (do modify (swd.wait powerup_poll_us); power_up_poll left)

  unfoldable pub power_up : Exec S ⊤
  unfolding power_up_poll
  power_up = do
    swd.write_dp Dp.ctrlstat (bit_or cdbgpwrupreq csyspwrupreq)
    power_up_poll powerup_retries

  -- Both arguments are `uint8_t`.
  unfoldable pub select : ℕ → ℕ → Exec S ⊤
  select apsel apbanksel =
      swd.write_dp Dp.select (bit_or (u32 (apsel <<< 24)) (u32 (apbanksel <<< 8)))

  unfoldable pub clear_errors : Exec S ⊤
  clear_errors = swd.write_dp Dp.abort (bit_or stkerrclr stkcmpclr)

  unfoldable pub init : Exec S ⊤
  init = do power_up; select mem_ap_sel 0

  -- Bank 0 is selected again whatever the read returned, and the outcome of that is dropped.
  unfoldable pub read_ap_idr : Exec S ℕ
  read_ap_idr = do
    select mem_ap_sel ap_idr_bank
    finally (select mem_ap_sel 0) (swd.read_ap ap_idr_reg)

  mem_ap_setup : ℕ → Exec S ⊤
  mem_ap_setup addr = do select mem_ap_sel 0; swd.write_ap ap_csw csw_word; swd.write_ap ap_tar addr

  -- The word posted by the read of DRW is fetched from RDBUFF.
  unfoldable pub mem_read32 : ℕ → Exec S ℕ
  unfolding mem_ap_setup select
  mem_read32 addr = do mem_ap_setup addr; swd.read_ap ap_drw; swd.read_dp Dp.rdbuff

  unfoldable pub mem_write32 : ℕ → ℕ → Exec S ⊤
  unfolding mem_ap_setup select
  mem_write32 addr value = do mem_ap_setup addr; swd.write_ap ap_drw value

  unfoldable pub selftest : Exec S ⊤
  selftest = do
    swd.init
    swd.line_reset
    swd.read_idcode
    power_up
    swd.read_dp Dp.ctrlstat
    read_ap_idr
    pure tt
