-- ===== src/Cpu/Shift/Laws.antt =====
-- Shifts and rotations as multiplication and division through the carry.
use nes_emulator.Prelude.{
  ℕ, ◌+◌, ◌*◌, ◌/◌, ◌%◌, ◌≤◌, ◌<◌, bit_and, bit_or, ◌≡◌, arith, ◌==◌, truth, bool_to_int,
}
use nes_emulator.Prelude.Bits.{bit_and-bit, bit_or_fields, bit_or_fields_low}
use nes_emulator.State.{Cpu}
use nes_emulator.Cpu.Flags.{carry, zero, negative, get_flag, set_flag, set_zn_flags}
use nes_emulator.Cpu.Flags.Laws.{get_flag-eq-bit_at, get_flag-set_flag, get_flag-set_zn_flags}
use nes_emulator.Cpu.Shift.{shift_left, shift_right, rotate_left, rotate_right}

-- The value that an operation returned is a byte, and Z and N follow it.
pub record IsShifted (val : ℕ) (c : Cpu) : Type 0 where
  pub byte : val < 256
  pub zero_flag : get_flag zero c ≡ bool_to_int (val == 0)
  pub negative_flag : get_flag negative c ≡ val / 128

carry_mask : (c : Cpu) → bit_and c.sr 1 ≡ get_flag carry c
carry_mask c = omega (arith, get_flag-eq-bit_at carry c, bit_and-bit 0 c.sr)

carry-le : (c : Cpu) → get_flag carry c ≤ 1
carry-le c = omega (arith, get_flag-eq-bit_at carry c)

-- the carry and the flags after the two calls that end each operation
module _ (val mask : ℕ) (c : Cpu) where
  abbrev ended : Cpu
  ended = set_zn_flags val (set_flag carry mask c)

  ended-IsShifted : val < 256 → IsShifted val ended
  ended-IsShifted h = record {
    byte = h;
    zero_flag = rw get_flag-set_zn_flags;
    negative_flag = rw get_flag-set_zn_flags (omega arith);
  }

  carry-ended : get_flag carry ended ≡ bool_to_int (truth mask)
  carry-ended = simp (get_flag-set_zn_flags, get_flag-set_flag)

high_digit : (val : ℕ) → val < 256 → bool_to_int (truth (bit_and val 0x80)) ≡ val / 128
high_digit val h = ground (arith, bit_and-bit 7 val)

low_digit : (val : ℕ) → bool_to_int (truth (bit_and val 0x01)) ≡ val % 2
low_digit val = ground (arith, bit_and-bit 0 val)

-- ASL doubles a byte: the result with the carry above it is twice the value.
shift_left_lem :
    (val : ℕ) (c : Cpu)
    → val < 256
    → let (r, c') = shift_left val c in (r + 256 * get_flag carry c' ≡ 2 * val) × IsShifted r c'
unfolding shift_left
shift_left_lem val c h = (
  rw (carry-ended, high_digit val h) (omega arith),
  ended-IsShifted _ (bit_and val 0x80) c (omega arith),
)

-- LSR halves a byte: the carry is the bit that is lost.
shift_right_lem :
    (val : ℕ) (c : Cpu)
    → val < 256
    → let (r, c') = shift_right val c in (2 * r + get_flag carry c' ≡ val) × IsShifted r c'
unfolding shift_right
shift_right_lem val c h = (
  rw (carry-ended, low_digit val) (omega arith),
  ended-IsShifted _ (bit_and val 0x01) c (omega arith),
)

rotated_left :
    (val : ℕ) (c : Cpu) → bit_or (val * 2 % 256) (bit_and c.sr 1) ≡ val * 2 % 256 + get_flag carry c
rotated_left val c =
    rw (carry_mask, even)
      (bit_or_fields 1 (val % 128) (get_flag carry c) (omega (arith, carry-le c)))
  where
    even : val * 2 % 256 ≡ val % 128 * 2
    even = omega arith

rotated_right :
    (val : ℕ) (c : Cpu)
    → val < 256
    → bit_or (val / 2) (bit_and c.sr 1 * 128) ≡ get_flag carry c * 128 + val / 2
rotated_right val c h =
    rw carry_mask (bit_or_fields_low 7 (get_flag carry c) (val / 2) (omega arith))

-- ROL doubles a byte and takes the old carry in below.
rotate_left_lem :
    (val : ℕ) (c : Cpu)
    → val < 256
    → let (r, c') = rotate_left val c in
      (r + 256 * get_flag carry c' ≡ 2 * val + get_flag carry c) × IsShifted r c'
unfolding rotate_left
rotate_left_lem val c h = rw rotated_left (
  rw (carry-ended, high_digit val h) (omega arith),
  ended-IsShifted _ (bit_and val 0x80) c (omega (arith, carry-le c)),
)

-- ROR halves a byte and takes the old carry in above.
rotate_right_lem :
    (val : ℕ) (c : Cpu)
    → val < 256
    → let (r, c') = rotate_right val c in
      (2 * r + get_flag carry c' ≡ val + 256 * get_flag carry c) × IsShifted r c'
unfolding rotate_right
rotate_right_lem val c h = rw (rotated_right val c h) (
  rw (carry-ended, low_digit val) (omega arith),
  ended-IsShifted _ (bit_and val 0x01) c (omega (arith, carry-le c)),
)

-- On a byte, ASL and ROL double it, with 0 or the carry below, and the carry is what goes out at
-- the top; LSR and ROR halve it, with 0 or the carry above, and the carry is the bit that is
-- lost. The results are bytes, and Z and N follow them.
pub shifts_lem :
    (val : ℕ) (c : Cpu)
    → val < 256
    → (let (r, c') = shift_left val c in (r + 256 * get_flag carry c' ≡ 2 * val) × IsShifted r c')
      × (let (r, c') = shift_right val c in (2 * r + get_flag carry c' ≡ val) × IsShifted r c')
      × (let (r, c') = rotate_left val c in
          (r + 256 * get_flag carry c' ≡ 2 * val + get_flag carry c) × IsShifted r c')
      × (let (r, c') = rotate_right val c in
          (2 * r + get_flag carry c' ≡ val + 256 * get_flag carry c) × IsShifted r c')
shifts_lem val c h = (
  shift_left_lem val c h,
  shift_right_lem val c h,
  rotate_left_lem val c h,
  rotate_right_lem val c h,
)

-- ROR undoes ROL on a byte: the value and the carry come back.
pub rotate_right-rotate_left :
    (val : ℕ) (c : Cpu)
    → val < 256
    → let (r, c') = rotate_left val c in
      let (val', c'') = rotate_right r c' in (val' ≡ val) × (get_flag carry c'' ≡ get_flag carry c)
rotate_right-rotate_left val c h = omega (
  arith,
  rotate_left_lem val c h,
  rotate_right_lem (rotate_left val c).0 (rotate_left val c).1 (rotate_left_lem val c h).1.byte,
  carry-le c,
  carry-le (rotate_left val c).1,
  carry-le (rotate_right (rotate_left val c).0 (rotate_left val c).1).1,
)
