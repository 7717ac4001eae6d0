-- ===== src/Cpu/Arith/Laws.antt =====
-- ADC, SBC and the comparisons against arithmetic on the numbers that the bytes stand for.
use nes_emulator.Prelude.{
  ℕ, ◌+◌, ◌-◌, ◌*◌, ◌/◌, ◌%◌, ◌^◌, ◌≤◌, ◌<◌, min, bit_and, bit_xor, ◌≡◌, refl, arith, Bool, not,
  ◌&&◌, ltb, leb, ◌==◌, bool_to_int, if◌then◌else◌, int_sub,
}
use nes_emulator.Prelude.Bits.{bit_at, bit_at-le, bit_and_mask, bit_xor-lt}
use nes_emulator.State.{Cpu}
use nes_emulator.Cpu.Flags.{
  CpuFlag, carry, zero, overflw, negative, get_flag, set_flag, set_zn_flags,
}
use nes_emulator.Cpu.Flags.Laws.{
  same_flag, get_flag-eq-bit_at, get_flag-set_flag, get_flag-set_zn_flags,
}
use nes_emulator.Cpu.Arith.{put_sum, add_with_carry, subtract_with_carry, compare_with}
use nes_emulator.Cpu.Arith.Overflow.{add_overflow_bit, subtract_overflow_bit, bit_xor_ones}

pub get_flag-le : (f : CpuFlag) (c : Cpu) → get_flag f c ≤ 1
get_flag-le f c = omega (arith, get_flag-eq-bit_at f c, bit_at-le _ c.sr)

get_flag-record :
    (g : CpuFlag) (ac : ℕ) (c : Cpu) → get_flag g (record c { ac = ac }) ≡ get_flag g c
unfolding get_flag
get_flag-record g ac c = refl

-- The flags and the accumulator after `put_sum`.
pub get_flag-put_sum :
    (g : CpuFlag) (r v : ℕ) (c : Cpu)
    → get_flag g (put_sum r v c) ≡ (
        if same_flag negative g
        then r / 128 % 2
        else if same_flag zero g
        then bool_to_int (r % 256 == 0)
        else if same_flag overflw g
        then bool_to_int (not (v == 0))
        else if same_flag carry g
        then bool_to_int (ltb 0xFF r)
        else get_flag g c)
unfolding put_sum
get_flag-put_sum g r v c =
    simp (get_flag-set_zn_flags, get_flag-set_flag)
      (ground (arith, bit_and_mask 8 r, get_flag-record g (bit_and r 0xFF) c))

ac-set_flag : (f : CpuFlag) (value : ℕ) (c : Cpu) → (set_flag f value c).ac ≡ c.ac
unfolding set_flag
ac-set_flag f value c = ground arith

ac-set_zn_flags : (value : ℕ) (c : Cpu) → (set_zn_flags value c).ac ≡ c.ac
unfolding set_zn_flags
ac-set_zn_flags value c = simp ac-set_flag

pub ac-put_sum : (r v : ℕ) (c : Cpu) → (put_sum r v c).ac ≡ r % 256
unfolding put_sum
ac-put_sum r v c = simp (ac-set_zn_flags, ac-set_flag) (bit_and_mask 8 r)

-- The signed number that a byte stands for, plus 128.
abbrev pub biased : ℕ → ℕ
biased x = (x + 128) % 256

-- Whether a + m + c, as signed numbers, is from -128 to 127.
abbrev pub fits_sum : ℕ → ℕ → ℕ → Bool
fits_sum a m c = leb 128 (biased a + biased m + c) && ltb (biased a + biased m + c) 384

-- Whether a - m - (1 - c), as signed numbers, is from -128 to 127.
abbrev pub fits_difference : ℕ → ℕ → ℕ → Bool
fits_difference a m c =
    leb (biased m + 1) (biased a + 128 + c) && ltb (biased a + c) (biased m + 129)

-- What a sum leaves in the registers: the accumulator is a byte, Z and N follow it.
pub record IsResult (c : Cpu) : Type 0 where
  pub byte : c.ac < 256
  pub zero_flag : get_flag zero c ≡ bool_to_int (c.ac == 0)
  pub negative_flag : get_flag negative c ≡ c.ac / 128

pub put_sum-IsResult : (r v : ℕ) (c : Cpu) → IsResult (put_sum r v c)
put_sum-IsResult r v c = record {
  byte = omega (arith, ac-put_sum r v c);
  zero_flag = rw (get_flag-put_sum, ac-put_sum);
  negative_flag = rw (get_flag-put_sum, ac-put_sum) (omega arith);
}

add_overflow :
    (a m k : ℕ)
    → a < 256
    → m < 256
    → k ≤ 1
    → bool_to_int (
        not (
          min (1 - (bit_at 7 a + bit_at 7 m) % 2) ((bit_at 7 a + bit_at 7 (a + m + k)) % 2) * 128
          == 0))
      ≡ bool_to_int (not (fits_sum a m k))
add_overflow a m k ha hm hk = ground arith

subtract_overflow :
    (a m k : ℕ)
    → a < 256
    → m < 256
    → k ≤ 1
    → bool_to_int (
        not (
          min ((bit_at 7 a + bit_at 7 (a + (255 - m) + k)) % 2) ((bit_at 7 a + bit_at 7 m) % 2)
            * 128
          == 0))
      ≡ bool_to_int (not (fits_difference a m k))
subtract_overflow a m k ha hm hk = ground arith

-- ADC on bytes: the accumulator and the carry are the sum of both bytes and the old carry, V is
-- set exactly when the signed sum does not fit a byte, and Z and N follow the accumulator.
pub add_with_carry_lem :
    (a m : ℕ) (c : Cpu)
    → a < 256
    → m < 256
    → let c' = add_with_carry a m c in
      (c'.ac + 256 * get_flag carry c' ≡ a + m + get_flag carry c)
      × (get_flag overflw c' ≡ bool_to_int (not (fits_sum a m (get_flag carry c))))
      × IsResult c'
unfolding add_with_carry
add_with_carry_lem a m c ha hm = (
  rw (no_wrap, get_flag-put_sum, ac-put_sum) (ground (arith, get_flag-le carry c)),
  rw (no_wrap, get_flag-put_sum, add_overflow_bit a m (a + m + get_flag carry c) small)
      (add_overflow a m (get_flag carry c) ha hm (get_flag-le carry c)),
  put_sum-IsResult _ _ c,
)
  where
    no_wrap : (a + m + get_flag carry c) % 2 ^ 16 ≡ a + m + get_flag carry c
    no_wrap = omega (arith, get_flag-le carry c)

    small : bit_xor a m < 65536
    small = omega (arith, bit_xor-lt 8 a m ha hm)

-- SBC on bytes: the accumulator is the first byte less the second and less one if the carry is
-- clear, plus 256 if that is below 0, and the carry says that it is not; V is set exactly when the
-- signed difference does not fit a byte, and Z and N follow the accumulator.
pub subtract_with_carry_lem :
    (a m : ℕ) (c : Cpu)
    → a < 256
    → m < 256
    → let c' = subtract_with_carry a m c in
      (c'.ac + m + 1 + 256 * get_flag carry c' ≡ a + 256 + get_flag carry c)
      × (get_flag overflw c' ≡ bool_to_int (not (fits_difference a m (get_flag carry c))))
      × IsResult c'
unfolding subtract_with_carry
subtract_with_carry_lem a m c ha hm = (
  rw (complement, no_wrap, get_flag-put_sum, ac-put_sum) (ground (arith, get_flag-le carry c)),
  rw
      (
        complement,
        no_wrap,
        get_flag-put_sum,
        subtract_overflow_bit a m (a + (255 - m) + get_flag carry c),
      )
      (subtract_overflow a m (get_flag carry c) ha hm (get_flag-le carry c)),
  put_sum-IsResult _ _ c,
)
  where
    complement : bit_xor m 0xFF ≡ 255 - m
    complement = bit_xor_ones m hm

    no_wrap : (a + (255 - m) + get_flag carry c) % 2 ^ 16 ≡ a + (255 - m) + get_flag carry c
    no_wrap = omega (arith, get_flag-le carry c)

-- CMP, CPX and CPY on bytes: the carry is set exactly when the register is not below the operand,
-- Z exactly when they are equal, and N is bit 7 of the difference that wraps at 256.
pub compare_with_lem :
    (r m : ℕ) (c : Cpu)
    → r < 256
    → m < 256
    → let c' = compare_with r m c in
      (get_flag carry c' ≡ bool_to_int (leb m r))
      × (get_flag zero c' ≡ bool_to_int (r == m))
      × (get_flag negative c' ≡ (r + 256 - m) % 256 / 128)
      × (get_flag overflw c' ≡ get_flag overflw c)
unfolding compare_with
compare_with_lem r m c hr hm = (
  rw get_flag-set_flag (ground arith),
  simp (get_flag-set_flag, get_flag-set_zn_flags) (ground (arith, bit_and_mask 8 (int_sub r m))),
  simp (get_flag-set_flag, get_flag-set_zn_flags) (ground (arith, bit_and_mask 8 (int_sub r m))),
  simp (get_flag-set_flag, get_flag-set_zn_flags),
)
