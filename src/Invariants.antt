-- ===== src/Invariants.antt =====
-- The invariant of the emulator, operation by operation of the CPU, of its memory and of the PPU.
use nes_emulator.Prelude.{ℕ, ◌<◌}
use nes_emulator.State.{Emulator}
use nes_emulator.State.Valid.{IsValid}
use nes_emulator.Outcome.Ensures.{Holds, Any, IsByte}
use nes_emulator.Mem.{mem_write_8, mem_read_8}
use nes_emulator.Mem.Valid.{mem_write_8-IsValid, mem_read_8-IsByte}
use nes_emulator.Opcodes.{Opcode, AddressMode}
use nes_emulator.Cpu.Address.{set_address}
use nes_emulator.Cpu.Execute.{execute_instruction}
use nes_emulator.Cpu.Interrupt.{handle_nes_interrupt}
use nes_emulator.Cpu.Cycle.{cpu_run_cycle}
use nes_emulator.Cpu.Valid.Reads.{set_address-IsValid}
use nes_emulator.Cpu.Valid.Execute.{execute_instruction-IsValid}
use nes_emulator.Cpu.Valid.Cycle.{handle_nes_interrupt-IsValid, cpu_run_cycle-IsValid}
use nes_emulator.Ppu.Cycle.{ppu_run_cycle}
use nes_emulator.Ppu.Valid.Cycle.{ppu_run_cycle-IsValid}

module _ (e : Emulator) (v : IsValid e) where
  -- From a state with the invariant, a cycle of the CPU that returns leaves a state with the
  -- invariant: an interrupt, the fetch, the addressing mode and the instruction all keep it.
  pub cpu_run_cycle-Holds : Holds IsValid Any (cpu_run_cycle e)
  cpu_run_cycle-Holds = cpu_run_cycle-IsValid.at e v

  -- From a state with the invariant, a cycle of the PPU that returns leaves a state with the
  -- invariant, on each line and dot of the picture.
  pub ppu_run_cycle-Holds : Holds IsValid Any (ppu_run_cycle e)
  ppu_run_cycle-Holds = ppu_run_cycle-IsValid.at e v

  -- From a state with the invariant, each opcode in each addressing mode keeps it where it
  -- returns.
  pub execute_instruction-Holds :
      (o : Opcode) (mode : AddressMode) → Holds IsValid Any (execute_instruction o mode e)
  execute_instruction-Holds o mode = (execute_instruction-IsValid o mode).at e v

  -- From a state with the invariant, the address of the operand is computed in each addressing
  -- mode with the invariant kept, where the reads that it takes return.
  pub set_address-Holds :
      (o : Opcode) (mode : AddressMode) → Holds IsValid Any (set_address o mode e)
  set_address-Holds o mode = (set_address-IsValid o mode).at e v

  -- From a state with the invariant, the handling of the pending interrupt keeps it where it
  -- returns.
  pub handle_nes_interrupt-Holds : Holds IsValid Any (handle_nes_interrupt e)
  handle_nes_interrupt-Holds = handle_nes_interrupt-IsValid.at e v

  -- From a state with the invariant, a write of a byte to any address keeps it where it returns:
  -- to the RAM, the PPU's registers and its memory, the object memory, and the cartridge.
  pub mem_write_8-Holds :
      (address value : ℕ) → value < 256 → Holds IsValid Any (mem_write_8 address value e)
  mem_write_8-Holds address value h = (mem_write_8-IsValid address value h).at e v

  -- From a state with the invariant, a read of any address that returns gives a byte, and keeps
  -- the invariant.
  pub mem_read_8-Holds : (address : ℕ) → Holds IsValid IsByte (mem_read_8 address e)
  mem_read_8-Holds address = (mem_read_8-IsByte address).at e v
