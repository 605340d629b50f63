-- ===== src/CortexM.antt =====
-- src/fr8016/cortexm.c: halting debug of the target core over a debug port. Printing is left out.
pub mod Register
pub mod Returning
pub mod Core
pub mod Waiting
pub mod Resetting
pub mod Restart
use Register.{
  dhcsr, dcrsr, dcrdr, demcr, dfsr, aircr, dbgkey, c_debugen, c_halt, s_regrdy, s_halt, regwnr,
  regsel_mask, vc_corereset, vectkey, sysresetreq, sp, pc, xpsr,
}
use alonzo_bootloader_zephyr.Base.{
  ℕ, zero, suc, bit_and, bit_or, and_not, Bool, not, ⊤, etimedout, Exec, pure, raise, modify, ◌>>=◌,
  ◌>>◌, ◌==◌, if◌then◌else◌,
}
use alonzo_bootloader_zephyr.Dap.Port.{DebugPort}

-- CM_POLL_US, CM_HALT_RETRIES and CM_REGRDY_RETRIES.
abbrev pub poll_us : ℕ
poll_us = 1000

abbrev pub halt_retries : ℕ
halt_retries = 1000

abbrev pub regrdy_retries : ℕ
regrdy_retries = 1000

module _ {S : Type 0} (port : DebugPort S) where
  open port use {mem_read32, mem_write32}

  -- The last argument is the number of polls.
  unfoldable pub wait_dhcsr : ℕ → ℕ → ℕ → Exec S ⊤
  wait_dhcsr mask want zero = raise etimedout
  wait_dhcsr mask want (suc left) = do
    value ← mem_read32 dhcsr
    if bit_and value mask == want
        then pure tt
        else (do modify (port.wait poll_us); wait_dhcsr mask want left)

  unfoldable pub halt : Exec S ⊤
  halt = do
    mem_write32 dhcsr (bit_or (bit_or dbgkey c_debugen) c_halt)
    wait_dhcsr s_halt s_halt halt_retries

  unfoldable pub run : Exec S ⊤
  run = do mem_write32 dhcsr (bit_or dbgkey c_debugen); wait_dhcsr s_halt 0 halt_retries

  unfoldable pub resume : Exec S ⊤
  resume = mem_write32 dhcsr (bit_or dbgkey c_debugen)

  unfoldable pub reset : Exec S ⊤
  reset = do
    before ← mem_read32 demcr
    mem_write32 demcr (bit_or before vc_corereset)
    halt
    mem_write32 aircr (bit_or vectkey sysresetreq)
    wait_dhcsr s_halt s_halt halt_retries
    after ← mem_read32 demcr
    mem_write32 demcr (and_not after vc_corereset)

  unfoldable pub is_halted : Exec S Bool
  is_halted = do value ← mem_read32 dhcsr; pure (not (bit_and value s_halt == 0))

  unfoldable pub wait_halted : Exec S ⊤
  wait_halted = wait_dhcsr s_halt s_halt halt_retries

  unfoldable pub read_reg : ℕ → Exec S ℕ
  read_reg regsel = do
    mem_write32 dcrsr (bit_and regsel regsel_mask)
    wait_dhcsr s_regrdy s_regrdy regrdy_retries
    mem_read32 dcrdr

  unfoldable pub write_reg : ℕ → ℕ → Exec S ⊤
  write_reg regsel value = do
    mem_write32 dcrdr value
    mem_write32 dcrsr (bit_or regwnr (bit_and regsel regsel_mask))
    wait_dhcsr s_regrdy s_regrdy regrdy_retries

  pub read_pc : Exec S ℕ
  read_pc = read_reg pc

  unfoldable pub write_pc : ℕ → Exec S ⊤
  write_pc = write_reg pc

  pub read_sp : Exec S ℕ
  read_sp = read_reg sp

  unfoldable pub write_sp : ℕ → Exec S ⊤
  write_sp = write_reg sp

  pub read_dfsr : Exec S ℕ
  read_dfsr = mem_read32 dfsr

  unfoldable pub clear_errors : Exec S ⊤
  clear_errors = do
    port.clear_errors
    value ← mem_read32 dfsr
    if value == 0 then pure tt else mem_write32 dfsr value

  pub selftest : Exec S ⊤
  selftest = do port.selftest; halt; read_pc; read_sp; read_reg xpsr; run
