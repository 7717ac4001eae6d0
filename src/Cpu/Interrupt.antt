-- ===== src/Cpu/Interrupt.antt =====
-- `cpu_set_interrupt` and `handle_nes_interrupt` of emulator/cpu.c.
pub mod Laws
use nes_emulator.Prelude.{ℕ, Bool, truth, if◌then◌else◌, add_size}
use nes_emulator.State.{Interrupt, none, nmi, irq, rsi, Cpu}
use nes_emulator.Outcome.{Run, pure, exit_failure, ◌>>=◌, ◌>>◌, get_cpu, modify_cpu}
use nes_emulator.Mem.{mem_read_16}
use nes_emulator.Mem.Stack.{mem_push_stack_8, mem_push_stack_16}
use nes_emulator.Cpu.Flags.{interrupt, get_flag, set_flag}
use nes_emulator.Cpu.StackOps.{irq_vector_offset}

abbrev pub nmi_vector_offset : ℕ
nmi_vector_offset = 0xFFFA

unfoldable pub cpu_set_interrupt : Interrupt → Cpu → Cpu
cpu_set_interrupt i c = record c { pending_interrupt = i }

-- the part after the choice of the vector
unfoldable pub enter_interrupt : ℕ → Run (Unit {0})
enter_interrupt address = do
  c ← get_cpu
  mem_push_stack_16 c.pc
  c ← get_cpu
  mem_push_stack_8 c.sr
  modify_cpu (set_flag interrupt 1)
  pc ← mem_read_16 address
  modify_cpu (λ c. record c { pc = pc; cycles = add_size c.cycles 7; pending_interrupt = none })

unfoldable pub drop_interrupt : Run (Unit {0})
drop_interrupt = modify_cpu (λ c. record c { pending_interrupt = none })

-- by the pending interrupt; `masked` is the INTERRUPT flag
unfoldable pub dispatch_interrupt : Interrupt → Bool → Run (Unit {0})
dispatch_interrupt none masked = pure tt
dispatch_interrupt nmi masked = enter_interrupt nmi_vector_offset
dispatch_interrupt irq masked = if masked then drop_interrupt else enter_interrupt irq_vector_offset
dispatch_interrupt rsi masked = if masked then drop_interrupt else exit_failure

unfoldable pub handle_nes_interrupt : Run (Unit {0})
handle_nes_interrupt = do
  c ← get_cpu
  dispatch_interrupt c.pending_interrupt (truth (get_flag interrupt c))
