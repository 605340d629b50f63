-- ===== src/Tests.antt =====
-- Concrete drivers, runs of the code on them, and instances of the theorems.
mod Fixtures
mod Swd
mod Dap
mod Elf
mod Target
mod CoProcessor
mod Boot
mod Flashing
mod System
mod Parsing
mod Halted
mod Booting
mod Restarted
