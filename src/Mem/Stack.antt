-- ===== src/Mem/Stack.antt =====
-- The stack of emulator/mem.c, in the page from 0x0100 on.
use nes_emulator.Prelude.{ℕ, ◌+◌, bit_and, bit_or, u8, u16, ◌<<<◌, ◌>>>◌, sub_size}
pub mod Laws
use nes_emulator.State.{Cpu}
use nes_emulator.Outcome.{Run, pure, ◌>>=◌, ◌>>◌, get_cpu, modify_cpu}
use nes_emulator.Mem.{mem_read_8, mem_write_8}

abbrev pub stack_offset : ℕ
stack_offset = 0x0100

unfoldable pub mem_push_stack_8 : ℕ → Run (Unit {0})
mem_push_stack_8 value = do
  c ← get_cpu
  mem_write_8 (stack_offset + c.sp) value
  modify_cpu (λ c. record c { sp = u8 (c.sp + 255) })

unfoldable pub mem_pop_stack_8 : Run ℕ
mem_pop_stack_8 = do
  modify_cpu (λ c. record c { sp = u8 (c.sp + 1) })
  c ← get_cpu
  mem_read_8 (stack_offset + c.sp)

unfoldable pub mem_push_stack_16 : ℕ → Run (Unit {0})
mem_push_stack_16 value = do
  mem_push_stack_8 (bit_and (value >>> 8) 0xFF)
  mem_push_stack_8 (bit_and value 0xFF)

unfoldable pub pop_stack_16 : Run ℕ
pop_stack_16 = do low ← mem_pop_stack_8; high ← mem_pop_stack_8; pure (bit_or (high <<< 8) low)
