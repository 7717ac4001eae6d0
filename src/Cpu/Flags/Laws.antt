-- ===== src/Cpu/Flags/Laws.antt =====
-- The flags of the status register as its binary digits.
use nes_emulator.Prelude.{
  ℕ, bit_and, bit_or, bit_not, ◌≡◌, refl, arith, truth, not, Bool, ◌==◌, if◌then◌else◌, bool_to_int,
}
use nes_emulator.Prelude.Bits.{bit_at, bit_at-le, bit_at-bit_and, bit_at-bit_or, bit_and-bit}
use nes_emulator.State.{Cpu}
use nes_emulator.Cpu.Flags.{
  CpuFlag, carry, zero, interrupt, decimal, break, unused, overflw, negative, flag_place, flag_bit,
  get_flag, set_flag, set_zn_flags,
}

-- A flag is the binary digit at its place.
pub get_flag-eq-bit_at : (f : CpuFlag) (c : Cpu) → get_flag f c ≡ bit_at (flag_place f) c.sr
unfolding get_flag
get_flag-eq-bit_at carry c = ground (arith, bit_and-bit 0 c.sr, bit_at-le 0 c.sr)
get_flag-eq-bit_at zero c = ground (arith, bit_and-bit 1 c.sr, bit_at-le 1 c.sr)
get_flag-eq-bit_at interrupt c = ground (arith, bit_and-bit 2 c.sr, bit_at-le 2 c.sr)
get_flag-eq-bit_at decimal c = ground (arith, bit_and-bit 3 c.sr, bit_at-le 3 c.sr)
get_flag-eq-bit_at break c = ground (arith, bit_and-bit 4 c.sr, bit_at-le 4 c.sr)
get_flag-eq-bit_at unused c = ground (arith, bit_and-bit 5 c.sr, bit_at-le 5 c.sr)
get_flag-eq-bit_at overflw c = ground (arith, bit_and-bit 6 c.sr, bit_at-le 6 c.sr)
get_flag-eq-bit_at negative c = ground (arith, bit_and-bit 7 c.sr, bit_at-le 7 c.sr)

-- The places of two flags are the same only if the flags are.
abbrev pub same_flag : CpuFlag → CpuFlag → Bool
same_flag f g = flag_place f == flag_place g

digit_of_flag : (f g : CpuFlag) → bit_at (flag_place g) (flag_bit f) ≡ bool_to_int (same_flag f g)
digit_of_flag carry carry = refl
digit_of_flag carry _ = refl
digit_of_flag zero carry = refl
digit_of_flag zero _ = refl
digit_of_flag interrupt carry = refl
digit_of_flag interrupt _ = refl
digit_of_flag decimal carry = refl
digit_of_flag decimal _ = refl
digit_of_flag break carry = refl
digit_of_flag break _ = refl
digit_of_flag unused carry = refl
digit_of_flag unused _ = refl
digit_of_flag overflw carry = refl
digit_of_flag overflw _ = refl
digit_of_flag negative carry = refl
digit_of_flag negative _ = refl

digit_of_other_flags :
    (f g : CpuFlag)
    → bit_at (flag_place g) (bit_not (flag_bit f)) ≡ bool_to_int (not (same_flag f g))
digit_of_other_flags carry carry = refl
digit_of_other_flags carry _ = refl
digit_of_other_flags zero carry = refl
digit_of_other_flags zero _ = refl
digit_of_other_flags interrupt carry = refl
digit_of_other_flags interrupt _ = refl
digit_of_other_flags decimal carry = refl
digit_of_other_flags decimal _ = refl
digit_of_other_flags break carry = refl
digit_of_other_flags break _ = refl
digit_of_other_flags unused carry = refl
digit_of_other_flags unused _ = refl
digit_of_other_flags overflw carry = refl
digit_of_other_flags overflw _ = refl
digit_of_other_flags negative carry = refl
digit_of_other_flags negative _ = refl

-- A flag that is set or cleared reads back, and the seven others keep their values.
pub get_flag-set_flag :
    (f g : CpuFlag) (value : ℕ) (c : Cpu)
    → get_flag g (set_flag f value c)
      ≡ (if same_flag f g then bool_to_int (truth value) else get_flag g c)
unfolding set_flag
get_flag-set_flag f g value c = ground (
  arith,
  get_flag-eq-bit_at g c,
  get_flag-eq-bit_at g (record c { sr = bit_or c.sr (flag_bit f) }),
  get_flag-eq-bit_at g (record c { sr = bit_and c.sr (bit_not (flag_bit f)) }),
  bit_at-bit_or (flag_place g) c.sr (flag_bit f),
  bit_at-bit_and (flag_place g) c.sr (bit_not (flag_bit f)),
  digit_of_flag f g,
  digit_of_other_flags f g,
  bit_at-le (flag_place g) c.sr,
)

-- `set_zn_flags` sets Z to whether the value is 0, N to its bit 7, and keeps the other flags.
pub get_flag-set_zn_flags :
    (g : CpuFlag) (value : ℕ) (c : Cpu)
    → get_flag g (set_zn_flags value c) ≡ (
        if same_flag negative g
        then bit_at 7 value
        else if same_flag zero g
        then bool_to_int (value == 0)
        else get_flag g c)
unfolding set_zn_flags
get_flag-set_zn_flags g value c = ground (
  arith,
  get_flag-set_flag negative g (bit_and value 0x80) (set_flag zero (bool_to_int (value == 0)) c),
  get_flag-set_flag zero g (bool_to_int (value == 0)) c,
  bit_and-bit 7 value,
  bit_at-le 7 value,
)
