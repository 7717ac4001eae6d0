-- ===== src/Cpu/Arith/Overflow.antt =====
-- The bit that `execute_instruction` tests for V in ADC and SBC, as digits.
use nes_emulator.Prelude.{
  ℕ, ◌+◌, ◌-◌, ◌*◌, ◌/◌, ◌%◌, ◌<◌, min, bit_and, bit_xor, bit_not, ◌≡◌, refl, arith, all_below,
  all_below_sound, eqb→eq, ◌==◌, true,
}
use nes_emulator.Prelude.Bits.{bit_at, bit_at-bit_and, bit_at-bit_xor, bit_and-bit}

bit_at_seven : (x : ℕ) → bit_at 7 x ≡ x / 128 % 2
bit_at_seven x = omega arith

bit_at_seven-bit_not : (x : ℕ) → x < 65536 → bit_at 7 (bit_not x) ≡ 1 - bit_at 7 x
bit_at_seven-bit_not x h = omega arith

-- in ADC
pub add_overflow_bit :
    (a m r : ℕ)
    → bit_xor a m < 65536
    → bit_and (bit_and (bit_not (bit_xor a m)) (bit_xor a r)) 0x80
      ≡ min (1 - (bit_at 7 a + bit_at 7 m) % 2) ((bit_at 7 a + bit_at 7 r) % 2) * 128
add_overflow_bit a m r h = ground (
  arith,
  bit_and-bit 7 (bit_and (bit_not (bit_xor a m)) (bit_xor a r)),
  bit_at-bit_and 7 (bit_not (bit_xor a m)) (bit_xor a r),
  bit_at_seven-bit_not (bit_xor a m) h,
  bit_at-bit_xor 7 a m,
  bit_at-bit_xor 7 a r,
)

-- in SBC
pub subtract_overflow_bit :
    (a m r : ℕ)
    → bit_and (bit_and (bit_xor a r) (bit_xor a m)) 0x80
      ≡ min ((bit_at 7 a + bit_at 7 r) % 2) ((bit_at 7 a + bit_at 7 m) % 2) * 128
subtract_overflow_bit a m r = ground (
  arith,
  bit_and-bit 7 (bit_and (bit_xor a r) (bit_xor a m)),
  bit_at-bit_and 7 (bit_xor a r) (bit_xor a m),
  bit_at-bit_xor 7 a m,
  bit_at-bit_xor 7 a r,
)

-- `^` with all of the ones of a byte is the complement.
pub bit_xor_ones : (m : ℕ) → m < 256 → bit_xor m 0xFF ≡ 255 - m
bit_xor_ones m h =
    eqb→eq _ _ (all_below_sound 256 (λ m. bit_xor m 0xFF == 255 - m) m complement_table h)
  where
    complement_table : all_below 256 (λ m. bit_xor m 0xFF == 255 - m) ≡ true
    complement_table = unfold all_below in refl
