-- ===== src/Prelude/Bits/Masks.antt =====
-- `&` with a low mask or with one bit, and `|` of disjoint fields, as arithmetic.
use Prim.Native.Nat.{ℕ, zero, suc, ◌+◌, ◌-◌, ◌*◌, ◌/◌, ◌%◌, ◌^◌, ◌≤◌, ◌<◌, bit_and, bit_or}
use mathlib.Core.Path.{◌≡◌, refl, ap}
use native.Mathlib.Nat.{pow-suc, one-le-pow}
use native.Mathlib.Omega.{arith}
use nes_emulator.Prelude.Bits.Digits.{bit_and_step, bit_or_step, bit_at}
use nes_emulator.Prelude.Bits.Extent.{bit_and-le_right}

or_nothing : (passes x : ℕ) → x ≤ passes → bit_or x 0 ≡ x
or_nothing passes zero small = refl
or_nothing (suc passes) (suc x) small =
    omega (arith, or_nothing passes (suc x / 2) (omega arith), bit_or_step (suc x) 0)
or_nothing zero (suc x) small = absurd (omega arith)

pub bit_or-zero : (x : ℕ) → bit_or x 0 ≡ x
bit_or-zero x = or_nothing x x (omega arith)

pub bit_and-zero : (x : ℕ) → bit_and x 0 ≡ 0
bit_and-zero x = omega (arith, bit_and-le_right x 0)

-- a field that moves up by one place
shifted_field : (w high : ℕ) → high * 2 ^ suc w ≡ high * 2 ^ w + high * 2 ^ w
shifted_field w high = omega (arith, ap (λ (unit : ℕ). high * unit) (pow-suc 2 w))

-- Two fields that do not meet are joined by `|` as by a sum.
pub bit_or_fields : (w high low : ℕ) → low < 2 ^ w → bit_or (high * 2 ^ w) low ≡ high * 2 ^ w + low
bit_or_fields (suc w) high low small = ground (
  arith,
  bit_or_fields w high (low / 2),
  shifted_field w high,
  pow-suc 2 w,
  bit_or_step (high * 2 ^ suc w) low,
)
bit_or_fields zero high low small = ground (arith, bit_or-zero high)

low_field : (w high low : ℕ) → low < 2 ^ w → bit_and (high * 2 ^ w + low) (2 ^ w - 1) ≡ low
low_field (suc w) high low small = ground (
  arith,
  low_field w high (low / 2),
  shifted_field w high,
  pow-suc 2 w,
  bit_and_step (high * 2 ^ suc w + low) (2 ^ suc w - 1),
)
low_field zero high low small = rw bit_and-zero (omega arith)

-- `&` with the mask of the `w` low bits takes the remainder.
pub bit_and_mask : (w x : ℕ) → bit_and x (2 ^ w - 1) ≡ x % 2 ^ w
bit_and_mask w x = ground (arith, low_field w (x / 2 ^ w) (x % 2 ^ w), one-le-pow w 2)

-- `&` with a single bit.
pub bit_and-bit : (k a : ℕ) → bit_and a (2 ^ k) ≡ bit_at k a * 2 ^ k
bit_and-bit zero a = omega (arith, bit_and_step a 1, bit_and-zero (a / 2))
bit_and-bit (suc k) a = ground (
  arith,
  bit_and_step a (2 ^ suc k),
  shifted_field k (bit_at k (a / 2)),
  pow-suc 2 k,
  bit_and-bit k (a / 2),
)

bit_or_comm_fuel : (n a b : ℕ) → a ≤ n → b ≤ n → bit_or a b ≡ bit_or b a
bit_or_comm_fuel zero zero zero p q = refl
bit_or_comm_fuel zero (suc a) b p q = absurd (omega arith)
bit_or_comm_fuel zero a (suc b) p q = absurd (omega arith)
bit_or_comm_fuel (suc n) a b p q = omega (
  arith,
  bit_or_step a b,
  bit_or_step b a,
  bit_or_comm_fuel n (a / 2) (b / 2) (omega arith) (omega arith),
)

pub bit_or_comm : (a b : ℕ) → bit_or a b ≡ bit_or b a
bit_or_comm a b = bit_or_comm_fuel (a + b) a b (omega arith) (omega arith)

-- The same with the low field first.
pub bit_or_fields_low : (k q r : ℕ) → r < 2 ^ k → bit_or r (q * 2 ^ k) ≡ q * 2 ^ k + r
bit_or_fields_low k q r fits = rw (bit_or_comm r (q * 2 ^ k)) (bit_or_fields k q r fits)

-- `&` with a mask that stands `w` places up.
pub high_field :
    (w high low m : ℕ)
    → low < 2 ^ w
    → bit_and (high * 2 ^ w + low) (m * 2 ^ w) ≡ bit_and high m * 2 ^ w
high_field (suc w) high low m small = ground (
  arith,
  high_field w high (low / 2) m,
  shifted_field w high,
  shifted_field w m,
  shifted_field w (bit_and high m),
  pow-suc 2 w,
  bit_and_step (high * 2 ^ suc w + low) (m * 2 ^ suc w),
)
high_field zero high low m small =
    let place : high * 2 ^ 0 + low ≡ high = omega arith in
    let mask : m * 2 ^ 0 ≡ m = omega arith in rw (place, mask) (omega arith)
