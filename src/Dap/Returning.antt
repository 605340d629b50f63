-- ===== src/Dap/Returning.antt =====
-- The debug port comes to an end: the wait for its power polls a bounded number of times.
use alonzo_bootloader_zephyr.Base.{ℕ, zero, suc, etimedout, bit_and, ◌==◌}
use alonzo_bootloader_zephyr.Base.Total.{
  Returning, Returning-bind, pure-Returning, raise-Returning, Total-if, Total-modify, Total-finally,
}
use alonzo_bootloader_zephyr.Swd.Dp
use alonzo_bootloader_zephyr.Swd.Port.{SwdPort}
use alonzo_bootloader_zephyr.Swd.Returning.{PortReturns}
use alonzo_bootloader_zephyr.Dap.Register.{
  ap_csw, ap_tar, ap_drw, ap_idr_reg, ap_idr_bank, csw_word,
}
use alonzo_bootloader_zephyr.Dap.Port.{over}
use alonzo_bootloader_zephyr.Dap.{
  mem_ap_sel, powerup_acks, powerup_poll_us, powerup_retries, power_up_poll, power_up, select, init,
  read_ap_idr, mem_ap_setup, mem_read32, mem_write32, selftest,
}
use alonzo_bootloader_zephyr.CortexM.Returning.{Answers}

module _ {S : Type 0} (swd : SwdPort S) (returns : PortReturns swd) where
  power_up_poll-Returning : (left : ℕ) → Returning (power_up_poll swd left)
  unfolding power_up_poll
  power_up_poll-Returning zero = raise-Returning etimedout
  power_up_poll-Returning (suc left) =
      Returning-bind (swd.read_dp Dp.ctrlstat) _ (returns.read_dp Dp.ctrlstat) λ ctrlstat.
        Total-if (bit_and ctrlstat powerup_acks == powerup_acks) _ _ (λ _. pure-Returning tt)
          (λ _. Total-modify (swd.wait powerup_poll_us) _ (λ s u. u) (power_up_poll-Returning left))

  power_up-Returning : Returning (power_up swd)
  unfolding power_up
  power_up-Returning =
      Returning-bind (swd.write_dp Dp.ctrlstat _) _ (returns.write_dp _ _)
        λ _. power_up_poll-Returning powerup_retries

  select-Returning : (apsel apbanksel : ℕ) → Returning (select swd apsel apbanksel)
  unfolding select
  select-Returning apsel apbanksel = returns.write_dp _ _

  init-Returning : Returning (init swd)
  unfolding init
  init-Returning =
      Returning-bind (power_up swd) _ power_up-Returning λ _. select-Returning mem_ap_sel 0

  read_ap_idr-Returning : Returning (read_ap_idr swd)
  unfolding read_ap_idr
  read_ap_idr-Returning =
      Returning-bind (select swd mem_ap_sel ap_idr_bank) _ (select-Returning mem_ap_sel ap_idr_bank)
        λ _.
          Total-finally (select swd mem_ap_sel 0) (select-Returning mem_ap_sel 0) (λ _. Unit) _
            (returns.read_ap ap_idr_reg)

  mem_ap_setup-Returning : (addr : ℕ) → Returning (mem_ap_setup swd addr)
  unfolding mem_ap_setup
  mem_ap_setup-Returning addr =
      Returning-bind (select swd mem_ap_sel 0) _ (select-Returning mem_ap_sel 0) λ _.
        Returning-bind (swd.write_ap ap_csw csw_word) _ (returns.write_ap ap_csw csw_word)
          λ _. returns.write_ap ap_tar addr

  mem_read32-Returning : (addr : ℕ) → Returning (mem_read32 swd addr)
  unfolding mem_read32
  mem_read32-Returning addr =
      Returning-bind (mem_ap_setup swd addr) _ (mem_ap_setup-Returning addr) λ _.
        Returning-bind (swd.read_ap ap_drw) _ (returns.read_ap ap_drw)
          λ _. returns.read_dp Dp.rdbuff

  mem_write32-Returning : (addr value : ℕ) → Returning (mem_write32 swd addr value)
  unfolding mem_write32
  mem_write32-Returning addr value =
      Returning-bind (mem_ap_setup swd addr) _ (mem_ap_setup-Returning addr)
        λ _. returns.write_ap ap_drw value

  pub selftest-Returning : Returning (selftest swd)
  unfolding selftest
  selftest-Returning = Returning-bind swd.init _ returns.init λ _.
      Returning-bind swd.line_reset _ returns.line_reset λ _.
        Returning-bind swd.read_idcode _ returns.read_idcode λ _.
          Returning-bind (power_up swd) _ power_up-Returning λ _.
            Returning-bind (swd.read_dp Dp.ctrlstat) _ (returns.read_dp Dp.ctrlstat)
              λ _. Returning-bind (read_ap_idr swd) _ read_ap_idr-Returning λ _. pure-Returning tt

  -- What the layers above use of the debug port returns.
  pub over-Answers : Answers (over swd)
  over-Answers = record {
    init = init-Returning;
    reads = mem_read32-Returning;
    writes = mem_write32-Returning;
  }
