-- ===== src/Cpu/ReadOps.antt =====
-- The instructions of `execute_instruction` that read their operand and change registers only.
use nes_emulator.Prelude.{ℕ, bit_and, bit_or, bit_xor, ◌==◌, bool_to_int}
use nes_emulator.State.{Cpu}
use nes_emulator.Outcome.{Run, ◌>>=◌, get_cpu, modify_cpu}
use nes_emulator.Mem.{mem_read_8}
use nes_emulator.Cpu.Flags.{zero, negative, overflw, set_flag, set_zn_flags}
use nes_emulator.Cpu.Arith.{add_with_carry, subtract_with_carry, compare_with}

-- `mem_read_8(mem, cpu->address)`
unfoldable pub operand : Run ℕ
operand = do c ← get_cpu; mem_read_8 c.address

unfoldable pub run_adc : Run (Unit {0})
run_adc = do c ← get_cpu; m ← operand; modify_cpu (add_with_carry c.ac m)

unfoldable pub run_sbc : Run (Unit {0})
run_sbc = do c ← get_cpu; m ← operand; modify_cpu (subtract_with_carry c.ac m)

-- the accumulator gets a value, and Z and N follow it
unfoldable pub put_ac : ℕ → Cpu → Cpu
put_ac value c = set_zn_flags value (record c { ac = value })

unfoldable pub put_x : ℕ → Cpu → Cpu
put_x value c = set_zn_flags value (record c { x = value })

unfoldable pub put_y : ℕ → Cpu → Cpu
put_y value c = set_zn_flags value (record c { y = value })

unfoldable pub run_and : Run (Unit {0})
run_and = do m ← operand; modify_cpu (λ c. put_ac (bit_and c.ac m) c)

unfoldable pub run_eor : Run (Unit {0})
run_eor = do m ← operand; modify_cpu (λ c. put_ac (bit_xor c.ac m) c)

unfoldable pub run_ora : Run (Unit {0})
run_ora = do m ← operand; modify_cpu (λ c. put_ac (bit_or c.ac m) c)

unfoldable pub test_bits : ℕ → Cpu → Cpu
test_bits op c =
    set_flag overflw (bit_and op 0x40)
      (set_flag negative (bit_and op 0x80) (set_flag zero (bool_to_int (bit_and c.ac op == 0)) c))

unfoldable pub run_bit : Run (Unit {0})
run_bit = do op ← operand; modify_cpu (test_bits op)

unfoldable pub run_cmp : Run (Unit {0})
run_cmp = do c ← get_cpu; m ← operand; modify_cpu (compare_with c.ac m)

unfoldable pub run_cpx : Run (Unit {0})
run_cpx = do c ← get_cpu; m ← operand; modify_cpu (compare_with c.x m)

unfoldable pub run_cpy : Run (Unit {0})
run_cpy = do c ← get_cpu; m ← operand; modify_cpu (compare_with c.y m)

unfoldable pub run_lda : Run (Unit {0})
run_lda = do m ← operand; modify_cpu (put_ac m)

unfoldable pub run_ldx : Run (Unit {0})
run_ldx = do m ← operand; modify_cpu (put_x m)

unfoldable pub run_ldy : Run (Unit {0})
run_ldy = do m ← operand; modify_cpu (put_y m)
