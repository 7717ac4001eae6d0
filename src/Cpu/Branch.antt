-- ===== src/Cpu/Branch.antt =====
-- `branch_if` of emulator/cpu.c.
use nes_emulator.Prelude.{ℕ, truth, if◌then◌else◌, add_size}
use nes_emulator.State.{Cpu}
use nes_emulator.Cpu.Address.{crosses_page_borders}

unfoldable pub branch_if : ℕ → Cpu → Cpu
branch_if predicate c =
    if truth predicate
    then record c {
      cycles =
          if crosses_page_borders c.pc c.address
          then add_size (add_size c.cycles 1) 1
          else add_size c.cycles 1;
      pc = c.address;
    }
    else c
