-- ===== src/Cpu/StackOps.antt =====
-- The instructions of `execute_instruction` that use the stack.
pub mod Laws
use nes_emulator.Prelude.{ℕ, ◌+◌, bit_and, bit_or, bit_not, u16}
use nes_emulator.State.{Emulator, Cpu}
use nes_emulator.Outcome.{Run, ◌>>=◌, ◌>>◌, get_cpu, modify_cpu}
use nes_emulator.Mem.{mem_read_16}
use nes_emulator.Mem.Stack.{mem_push_stack_8, mem_pop_stack_8, mem_push_stack_16, pop_stack_16}
use nes_emulator.Cpu.Flags.{interrupt, set_flag}
use nes_emulator.Cpu.ReadOps.{put_ac}

abbrev pub irq_vector_offset : ℕ
irq_vector_offset = 0xFFFE

-- BREAK | UNUSED
abbrev pub break_unused : ℕ
break_unused = bit_or 16 32

-- cpu->sr | BREAK | UNUSED
abbrev pub pushed_status : ℕ → ℕ
pushed_status sr = bit_or (bit_or sr 16) 32

-- what PLP and RTI make of the status that they pop
unfoldable pub pulled_status : ℕ → Cpu → Cpu
pulled_status popped c = record c {
  sr = bit_or (bit_and c.sr break_unused) (bit_and popped (bit_not break_unused));
}

unfoldable pub run_brk : Run (Unit {0})
run_brk = do
  modify_cpu (λ c. record c { pc = u16 (c.pc + 1) })
  c ← get_cpu
  mem_push_stack_16 c.pc
  c ← get_cpu
  mem_push_stack_8 (pushed_status c.sr)
  address ← mem_read_16 irq_vector_offset
  modify_cpu (λ c. set_flag interrupt 1 (record c { pc = address }))

unfoldable pub run_jsr : Run (Unit {0})
run_jsr = do
  c ← get_cpu
  mem_push_stack_16 (u16 (c.pc + 65535))
  modify_cpu (λ c. record c { pc = c.address })

unfoldable pub run_pha : Run (Unit {0})
run_pha = do c ← get_cpu; mem_push_stack_8 c.ac

unfoldable pub run_php : Run (Unit {0})
run_php = do c ← get_cpu; mem_push_stack_8 (pushed_status c.sr)

unfoldable pub run_pla : Run (Unit {0})
run_pla = do m ← mem_pop_stack_8; modify_cpu (put_ac m)

unfoldable pub run_plp : Run (Unit {0})
run_plp = do popped ← mem_pop_stack_8; modify_cpu (pulled_status popped)

unfoldable pub run_rti : Run (Unit {0})
run_rti = do
  popped ← mem_pop_stack_8
  modify_cpu (pulled_status popped)
  address ← pop_stack_16
  modify_cpu (λ c. record c { pc = address })

unfoldable pub run_rts : Run (Unit {0})
run_rts = do address ← pop_stack_16; modify_cpu (λ c. record c { pc = u16 (address + 1) })
