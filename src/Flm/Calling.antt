-- ===== src/Flm/Calling.antt =====
-- The registers with which a routine of the flash algorithm is started.
use alonzo_bootloader_zephyr.Base.{ℕ, ◌+◌, ◌≤◌, ◌≡◌, ◌≢◌, refl, arith, bit_or, and_not, u32}
use alonzo_bootloader_zephyr.Dap.Port.{DebugPort}
use alonzo_bootloader_zephyr.Dap.Memory.{store}
use alonzo_bootloader_zephyr.CortexM.Core.{Core, IsHalted, idle}
use alonzo_bootloader_zephyr.CortexM.Register.{r9, sp, lr, pc}
use alonzo_bootloader_zephyr.Flm.Format.{Loaded}

-- A procedure call of the Arm standard: four arguments, the static base, the stack, a return
-- address with the Thumb bit, and the program counter at an even address; the other registers are
-- as they were.
pub record IsCall (l : Loaded) (entry a0 a1 a2 a3 : ℕ) (before after : ℕ → ℕ) : Type 0 where
  pub argument0 : after 0 ≡ a0
  pub argument1 : after 1 ≡ a1
  pub argument2 : after 2 ≡ a2
  pub argument3 : after 3 ≡ a3
  pub static_base : after r9 ≡ l.rt.data_base
  pub stack : after sp ≡ l.rt.stack_top
  pub return_to : after lr ≡ bit_or l.bkpt 1
  pub starts_at : after pc ≡ u32 (l.rt.code_base + and_not entry 1)
  pub other : (n : ℕ) → 4 ≤ n → n ≢ r9 → n ≢ sp → n ≢ lr → n ≢ pc → after n ≡ before n

-- The registers after the writes of a set-up, in their order.
abbrev pub call_registers : Loaded → ℕ → ℕ → ℕ → ℕ → ℕ → (ℕ → ℕ) → ℕ → ℕ
call_registers l entry a0 a1 a2 a3 before =
    let r1 = store before r9 l.rt.data_base in
    let r2 = store r1 sp l.rt.stack_top in
    let r3 = store r2 lr (bit_or l.bkpt 1) in
    let r4 = store (store (store (store r3 0 a0) 1 a1) 2 a2) 3 a3 in
    store r4 pc (u32 (l.rt.code_base + and_not entry 1))

pub call_registers-IsCall :
    (l : Loaded) (entry a0 a1 a2 a3 : ℕ) (before : ℕ → ℕ)
    → IsCall l entry a0 a1 a2 a3 before (call_registers l entry a0 a1 a2 a3 before)
call_registers-IsCall l entry a0 a1 a2 a3 before = record {
  argument0 = refl;
  argument1 = refl;
  argument2 = refl;
  argument3 = refl;
  static_base = refl;
  stack = refl;
  return_to = refl;
  starts_at = refl;
  other = λ n hi h9 hsp hlr hpc. ground arith;
}

module _ {S : Type 0} (port : DebugPort S) (view : S → Core) (law : IsHalted port view) where
  abbrev written : ℕ → ℕ → Core → Core
  written n v w = record w { registers = store w.registers n v; transfer = v; request = idle }
