-- ===== src/Cpu/Cycle.antt =====
-- `cpu_init` and `cpu_run_cycle` of emulator/cpu.c, but for the log of `is_logging`.
pub mod Decode
use nes_emulator.Prelude.{ℕ, ◌+◌, ◌-◌, ltb, ◌==◌, if◌then◌else◌, u16, add_size, sub_size}
use nes_emulator.State.{none}
use nes_emulator.Outcome.{Run, pure, ◌>>=◌, ◌>>◌, get_cpu, modify_cpu}
use nes_emulator.Mem.{mem_read_8, mem_read_16}
use nes_emulator.Opcodes.{instruction_lookup, cycle_lookup}
use nes_emulator.Cpu.Flags.{unused, set_flag}
use nes_emulator.Cpu.Address.{set_address}
use nes_emulator.Cpu.Execute.{execute_instruction}
use nes_emulator.Cpu.Interrupt.{handle_nes_interrupt}

-- `address` keeps what it held.
unfoldable pub cpu_init : Run (Unit {0})
cpu_init = do
  modify_cpu (λ c. record c {
    ac = 0x00;
    x = 0x00;
    y = 0x00;
    total_cycles = 0;
    cycles = 0;
    dma_cycles = 0;
    sr = 0x24;
    sp = 0xFD;
    pending_interrupt = none;
  })
  pc ← mem_read_16 0xFFFC
  modify_cpu (λ c. record c { pc = pc; is_logging = 0 })

-- `mem_read_8(mem, cpu->pc++)`
unfoldable pub fetch : Run ℕ
fetch = do c ← get_cpu; modify_cpu (λ c. record c { pc = u16 (c.pc + 1) }); mem_read_8 c.pc

-- the body of `if (cpu->cycles == 0)`
unfoldable pub run_instruction : Run (Unit {0})
run_instruction = do
  handle_nes_interrupt
  byte ← fetch
  modify_cpu (λ c. record c { cycles = add_size c.cycles (cycle_lookup byte) })
  modify_cpu (set_flag unused 1)
  let instruction = instruction_lookup byte
  set_address instruction.opcode instruction.address_mode
  execute_instruction instruction.opcode instruction.address_mode
  modify_cpu (λ c. record c { total_cycles = add_size c.total_cycles c.cycles })

unfoldable pub cpu_run_cycle : Run (Unit {0})
cpu_run_cycle = do
  c ← get_cpu
  if ltb 0 c.dma_cycles then modify_cpu (λ c. record c { dma_cycles = c.dma_cycles - 1 }) else (do
    if c.cycles == 0 then run_instruction else pure tt
    modify_cpu (λ c. record c { cycles = sub_size c.cycles 1 }))
