-- ===== src/Tests/Restarted.antt =====
-- A simulated core that halts and is reset with a delay, and a reset of it.
use alonzo_bootloader_zephyr.Base.{
  ℕ, zero, suc, ◌+◌, ◌%◌, Bool, true, false, ok, pure, ◌==◌, leb, if◌then◌else◌,
}
use alonzo_bootloader_zephyr.Base.Works.{Works}
use alonzo_bootloader_zephyr.Dap.Port.{DebugPort}
use alonzo_bootloader_zephyr.Dap.Memory.{store}
use alonzo_bootloader_zephyr.CortexM
use alonzo_bootloader_zephyr.CortexM.Register.{dhcsr, demcr, aircr, dbgkey, c_debugen, s_halt}
use alonzo_bootloader_zephyr.CortexM.Resetting.{
  Phase, running, halting, stopped, resetting, at_vector, Machine, stopping, Step,
}

-- The machine, and how many reads of DHCSR do not show yet what it was told to do.
abbrev Simulation : Type 0
Simulation = Machine × ℕ

abbrev in_phase : Phase → Machine → Machine
in_phase ph w = record w { phase = ph }

-- A read of DHCSR. A reset that is not caught leaves the core running.
abbrev polled : ℕ → Phase → Bool → Machine → ℕ × Simulation
polled (suc n) ph catches w = (0, (w, n))
polled zero running catches w = (0, (w, 0))
polled zero halting catches w = (s_halt, (in_phase stopped w, 0))
polled zero stopped catches w = (s_halt, (w, 0))
polled zero resetting true w = (s_halt, (in_phase at_vector w, 0))
polled zero resetting false w = (0, (in_phase running w, 0))
polled zero at_vector catches w = (s_halt, (w, 0))

-- A reset forgets the words of the RAM.
abbrev simulated : DebugPort Simulation
simulated = record {
  init = pure tt;
  clear_errors = pure tt;
  mem_read32 = λ addr (w, n).
      if addr == dhcsr
      then (let (v, s) = polled n w.phase (w.control % 2 == 1) w in (ok v, s))
      else (ok (if addr == demcr then w.control else w.memory addr), (w, n));
  mem_write32 = λ addr v (w, n). (
    ok tt,
    if addr == dhcsr
        then (in_phase (if v == dbgkey + c_debugen then running else stopping w.phase) w, 3)
        else if addr == demcr
        then (record w { control = v }, n)
        else if addr == aircr
        then (
          record w { memory = λ a. if leb 0x2000_0000 a then 0 else w.memory a; phase = resetting },
          5,
        )
        else (record w { memory = store w.memory addr v }, n),
  );
  selftest = pure tt;
  wait = λ us s. s;
}

abbrev Moved : Phase → ℕ → Machine → Machine → Type 0
Moved = Step 0x0100_0000 0x0108_0000

-- A core that runs, with 0 in its memory.
abbrev busy : Machine
busy = record { memory = λ a. 0; control = 5; phase = running }
