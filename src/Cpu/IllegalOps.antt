-- ===== src/Cpu/IllegalOps.antt =====
-- The illegal instructions of `execute_instruction` that are implemented.
use nes_emulator.Prelude.{
  ℕ, ◌+◌, bit_and, bit_or, bit_xor, not, leb, truth, bool_to_int, u8, u16, int_sub, ◌<<<◌, ◌>>>◌,
}
use nes_emulator.State.{Cpu}
use nes_emulator.Outcome.{Run, ◌>>=◌, ◌>>◌, get_cpu, modify_cpu}
use nes_emulator.Mem.{mem_write_8}
use nes_emulator.Cpu.Flags.{carry, overflw, get_flag, set_flag, set_zn_flags}
use nes_emulator.Cpu.Shift.{shift_right, rotate_right}
use nes_emulator.Cpu.Arith.{add_with_carry, subtract_with_carry}
use nes_emulator.Cpu.ReadOps.{operand, put_ac, put_x}
use nes_emulator.Cpu.WriteOps.{run_cpu, write_operand, shift_ac}

unfoldable pub run_alr : Run (Unit {0})
run_alr = do m ← operand; modify_cpu (λ c. record c { ac = bit_and c.ac m }); shift_ac shift_right

unfoldable pub run_anc : Run (Unit {0})
run_anc = do
  m ← operand
  modify_cpu (λ c. put_ac (bit_and c.ac m) c)
  modify_cpu (λ c. set_flag carry (bit_and c.ac 0x80) c)

unfoldable pub rotated_flags : ℕ → Cpu → Cpu
rotated_flags rotated c =
    record (set_flag overflw (bit_xor (bit_and rotated 0x40 >>> 1) (bit_and rotated 0x20))
      (set_flag carry (bit_and rotated 0x40) c)) { ac = rotated }

unfoldable pub run_arr : Run (Unit {0})
run_arr = do
  c ← get_cpu
  m ← operand
  rotated ← run_cpu (rotate_right (bit_and c.ac m))
  modify_cpu (rotated_flags rotated)

-- The carry is set before Z and N.
unfoldable pub compare_decremented : ℕ → Cpu → Cpu
compare_decremented m c =
    set_zn_flags (u8 (int_sub c.ac m)) (set_flag carry (bool_to_int (leb m c.ac)) c)

unfoldable pub run_dcp : Run (Unit {0})
run_dcp = do
  m ← operand
  write_operand (bit_and (u8 (m + 255)) 0xFF)
  modify_cpu (compare_decremented (bit_and (u8 (m + 255)) 0xFF))

unfoldable pub run_isb : Run (Unit {0})
run_isb = do
  c ← get_cpu
  m ← operand
  write_operand (u8 (m + 1))
  modify_cpu (subtract_with_carry c.ac (u8 (m + 1)))

unfoldable pub run_lax : Run (Unit {0})
run_lax = do m ← operand; modify_cpu (λ c. put_ac m (record c { x = m }))

-- the rotated value, the carry from the old one, then AND
unfoldable pub run_rla : Run (Unit {0})
run_rla = do
  m ← operand
  c ← get_cpu
  let rotated = u8 (bit_or (m <<< 1) (get_flag carry c))
  modify_cpu (set_flag carry (bit_and m 0x80))
  write_operand rotated
  modify_cpu (λ c. put_ac (bit_and c.ac rotated) c)

-- The write comes before the carry; the sum takes the new carry.
unfoldable pub run_rra : Run (Unit {0})
run_rra = do
  m ← operand
  c ← get_cpu
  let rotated = u8 (bit_or (get_flag carry c <<< 7) (m >>> 1))
  write_operand rotated
  modify_cpu (set_flag carry (bit_and m 0x01))
  modify_cpu (λ c. add_with_carry c.ac rotated c)

unfoldable pub run_sax : Run (Unit {0})
run_sax = do c ← get_cpu; write_operand (bit_and c.ac c.x)

unfoldable pub subtract_from_and : ℕ → Cpu → Cpu
subtract_from_and m c =
    let result = u16 (int_sub (bit_and c.ac c.x) m) in
    set_flag carry (bool_to_int (not (truth (bit_and result 0xFF00)))) (put_x (u8 result) c)

unfoldable pub run_sbx : Run (Unit {0})
run_sbx = do m ← operand; modify_cpu (subtract_from_and m)

-- SHX and SHY, which store a register anded with the high byte of the address
unfoldable pub store_high_anded : ℕ → ℕ → Run (Unit {0})
store_high_anded register address =
    let hi = u8 (address >>> 8) in
    let lo = u8 (bit_and address 0xFF) in
    let temp = u8 (bit_and register (hi + 1)) in mem_write_8 (u16 (bit_or (temp <<< 8) lo)) temp

unfoldable pub run_shx : Run (Unit {0})
run_shx = do c ← get_cpu; store_high_anded c.x c.address

unfoldable pub run_shy : Run (Unit {0})
run_shy = do c ← get_cpu; store_high_anded c.y c.address

unfoldable pub run_slo : Run (Unit {0})
run_slo = do
  m ← operand
  modify_cpu (set_flag carry (bit_and m 0x80))
  write_operand (u8 (m <<< 1))
  modify_cpu (λ c. put_ac (bit_or c.ac (u8 (m <<< 1))) c)

unfoldable pub run_sre : Run (Unit {0})
run_sre = do
  m ← operand
  modify_cpu (set_flag carry (bit_and m 0x1))
  write_operand (m >>> 1)
  modify_cpu (λ c. put_ac (bit_xor c.ac (m >>> 1)) c)
