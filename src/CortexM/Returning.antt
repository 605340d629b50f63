-- ===== src/CortexM/Returning.antt =====
-- Halting debug comes to an end: each wait polls a bounded number of times.
use alonzo_bootloader_zephyr.Base.{ℕ, zero, suc, bit_and, bit_or, and_not, ◌==◌}
use alonzo_bootloader_zephyr.Base.Total.{
  Returning, Returning-bind, pure-Returning, raise-Returning, Total-if, Total-modify,
}
use alonzo_bootloader_zephyr.Dap.Port.{DebugPort}
use alonzo_bootloader_zephyr.CortexM.Register.{
  dhcsr, dcrdr, demcr, dbgkey, c_debugen, s_halt, s_regrdy, vc_corereset, sp, pc, xpsr,
}
use alonzo_bootloader_zephyr.CortexM.{
  poll_us, halt_retries, regrdy_retries, wait_dhcsr, halt, run, resume, reset, is_halted, read_reg,
  write_reg, write_sp, write_pc, read_pc, read_sp, selftest,
}

-- The calls of the debug port that return.
pub record Answers {S : Type 0} (port : DebugPort S) : Type 0 where
  pub init : Returning port.init
  pub reads : (addr : ℕ) → Returning (port.mem_read32 addr)
  pub writes : (addr value : ℕ) → Returning (port.mem_write32 addr value)

module _ {S : Type 0} (port : DebugPort S) (answers : Answers port) where
  wait_dhcsr-Returning : (mask want left : ℕ) → Returning (wait_dhcsr port mask want left)
  unfolding wait_dhcsr
  wait_dhcsr-Returning mask want zero = raise-Returning _
  wait_dhcsr-Returning mask want (suc left) =
      Returning-bind (port.mem_read32 dhcsr) _ (answers.reads dhcsr) λ value.
        Total-if (bit_and value mask == want) _ _ (λ _. pure-Returning tt)
          (λ _. Total-modify (port.wait poll_us) _ (λ s h. h) (wait_dhcsr-Returning mask want left))

  pub halt-Returning : Returning (halt port)
  unfolding halt
  halt-Returning =
      Returning-bind (port.mem_write32 _ _) _ (answers.writes _ _)
        λ _. wait_dhcsr-Returning s_halt s_halt halt_retries

  pub run-Returning : Returning (run port)
  unfolding run
  run-Returning =
      Returning-bind (port.mem_write32 _ _) _ (answers.writes _ _)
        λ _. wait_dhcsr-Returning s_halt 0 halt_retries

  pub resume-Returning : Returning (resume port)
  unfolding resume
  resume-Returning = answers.writes dhcsr (bit_or dbgkey c_debugen)

  pub reset-Returning : Returning (reset port)
  unfolding reset
  reset-Returning = Returning-bind (port.mem_read32 demcr) _ (answers.reads demcr) λ before.
      Returning-bind (port.mem_write32 _ _) _ (answers.writes _ _) λ _.
        Returning-bind (halt port) _ halt-Returning λ _.
          Returning-bind (port.mem_write32 _ _) _ (answers.writes _ _) λ _.
            Returning-bind (wait_dhcsr port s_halt s_halt halt_retries) _
              (wait_dhcsr-Returning s_halt s_halt halt_retries)
              λ _.
                Returning-bind (port.mem_read32 demcr) _ (answers.reads demcr)
                  λ after. answers.writes demcr (and_not after vc_corereset)

  pub is_halted-Returning : Returning (is_halted port)
  unfolding is_halted
  is_halted-Returning =
      Returning-bind (port.mem_read32 dhcsr) _ (answers.reads dhcsr) λ value. pure-Returning _

  pub read_reg-Returning : (regsel : ℕ) → Returning (read_reg port regsel)
  unfolding read_reg
  read_reg-Returning regsel = Returning-bind (port.mem_write32 _ _) _ (answers.writes _ _) λ _.
      Returning-bind (wait_dhcsr port s_regrdy s_regrdy regrdy_retries) _
        (wait_dhcsr-Returning s_regrdy s_regrdy regrdy_retries) λ _. answers.reads dcrdr

  pub write_reg-Returning : (regsel value : ℕ) → Returning (write_reg port regsel value)
  unfolding write_reg
  write_reg-Returning regsel value =
      Returning-bind (port.mem_write32 _ _) _ (answers.writes _ _) λ _.
        Returning-bind (port.mem_write32 _ _) _ (answers.writes _ _)
          λ _. wait_dhcsr-Returning s_regrdy s_regrdy regrdy_retries

  pub write_sp-Returning : (value : ℕ) → Returning (write_sp port value)
  unfolding write_sp
  write_sp-Returning value = write_reg-Returning sp value

  pub write_pc-Returning : (value : ℕ) → Returning (write_pc port value)
  unfolding write_pc
  write_pc-Returning value = write_reg-Returning pc value

  pub selftest-Returning : Returning port.selftest → Returning (selftest port)
  unfolding selftest read_pc read_sp
  selftest-Returning passes = Returning-bind port.selftest _ passes λ _.
      Returning-bind (halt port) _ halt-Returning λ _.
        Returning-bind (read_reg port pc) _ (read_reg-Returning pc) λ _.
          Returning-bind (read_reg port sp) _ (read_reg-Returning sp)
            λ _. Returning-bind (read_reg port xpsr) _ (read_reg-Returning xpsr) λ _. run-Returning
