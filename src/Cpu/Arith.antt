-- ===== src/Cpu/Arith.antt =====
-- What ADC, SBC and the comparisons of `execute_instruction` do to the registers, once the operand
-- is read.
pub mod Overflow
pub mod Laws
use nes_emulator.Prelude.{
  ℕ, ◌+◌, ◌-◌, bit_and, bit_xor, bit_not, not, ltb, leb, ◌==◌, bool_to_int, if◌then◌else◌, u8, u16,
  int_sub,
}
use nes_emulator.State.{Cpu}
use nes_emulator.Cpu.Flags.{carry, overflw, get_flag, set_flag, set_zn_flags}

-- `R & 0xFF` into the accumulator, with the flags; `v` is the condition for overflow.
unfoldable pub put_sum : ℕ → ℕ → Cpu → Cpu
put_sum r v c =
    let ac = bit_and r 0xFF in
    set_zn_flags ac (
      set_flag overflw (bool_to_int (not (v == 0)))
        (set_flag carry (bool_to_int (ltb 0xFF r)) (record c { ac = ac })))

unfoldable pub add_with_carry : ℕ → ℕ → Cpu → Cpu
add_with_carry a m c =
    let r = u16 (a + m + get_flag carry c) in
    put_sum r (bit_and (bit_and (bit_not (bit_xor a m)) (bit_xor a r)) 0x80) c

unfoldable pub subtract_with_carry : ℕ → ℕ → Cpu → Cpu
subtract_with_carry a m c =
    let r = u16 (a + bit_xor m 0xFF + get_flag carry c) in
    put_sum r (bit_and (bit_and (bit_xor a r) (bit_xor a m)) 0x80) c

-- CMP, CPX and CPY
unfoldable pub compare_with : ℕ → ℕ → Cpu → Cpu
compare_with r m c =
    set_flag carry (bool_to_int (leb m r)) (set_zn_flags (bit_and (int_sub r m) 0xFF) c)
