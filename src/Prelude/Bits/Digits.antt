-- ===== src/Prelude/Bits/Digits.antt =====
-- What `&`, `|` and `^` do to the lowest binary digit, and from that to the digit at each place.
-- The native operations count passes over the digits; more passes than needed make no difference.
use Prim.Native.Nat.{
  ℕ, zero, suc, ◌+◌, ◌-◌, ◌*◌, ◌/◌, ◌%◌, ◌≤◌, ◌<◌, min, max, digits, bitwise, bit_and, bit_or,
  bit_xor,
}
use Prim.Native.Nat.{bit_and-bitwise, bit_or-bitwise, bit_xor-bitwise, differ}
use mathlib.Core.Path.{◌≡◌, refl, ap, subst}
use native.Mathlib.Numerals.{unary_clauses}
use native.Mathlib.Omega.{arith}

module _ (rest : ℕ → ℕ) (op : ℕ → ℕ → ℕ) where
  one_spare : (fuel x y : ℕ) → x ≤ fuel → digits rest op (suc fuel) x y ≡ digits rest op fuel x y
  one_spare zero zero y h = refl
  one_spare (suc fuel) zero y h = refl
  one_spare zero (suc x) y h = absurd (omega arith)
  one_spare (suc fuel) (suc x) y h =
      ap (λ high. high * 2 + op (suc x % 2) (y % 2))
        (one_spare fuel (suc x / 2) (y / 2) (omega arith))

  spare : (extra x y : ℕ) → digits rest op (x + extra) x y ≡ digits rest op x x y
  spare zero x y = simp unary_clauses
  spare (suc extra) x y =
      simp unary_clauses (rw (one_spare (x + extra) x y (omega arith)) (spare extra x y))

  lowest_digit :
      (x y : ℕ)
      → bitwise rest op (suc x) y ≡ bitwise rest op (suc x / 2) (y / 2) * 2 + op (suc x % 2) (y % 2)
  lowest_digit x y = ap (λ high. high * 2 + op (suc x % 2) (y % 2)) enough
    where
      left_over : suc x / 2 + (x - suc x / 2) ≡ x
      left_over = omega arith

      enough : digits rest op x (suc x / 2) (y / 2) ≡ digits rest op (suc x / 2) (suc x / 2) (y / 2)
      enough =
          subst
            (λ fuel.
              digits rest op fuel (suc x / 2) (y / 2)
              ≡ digits rest op (suc x / 2) (suc x / 2) (y / 2))
            left_over (spare (x - suc x / 2) (suc x / 2) (y / 2))

differ_digits : (x y : ℕ) → x < 2 → y < 2 → differ x y ≡ (x + y) % 2
differ_digits zero zero p q = refl
differ_digits zero (suc zero) p q = refl
differ_digits (suc zero) zero p q = refl
differ_digits (suc zero) (suc zero) p q = refl
differ_digits (suc (suc x)) y p q = absurd (omega arith)
differ_digits x (suc (suc y)) p q = absurd (omega arith)

zero_differ : (b : ℕ) → b ≡ b / 2 * 2 + differ 0 (b % 2)
zero_differ b = omega (arith, differ_digits 0 (b % 2) (omega arith) (omega arith))

pub bit_xor_step : (x y : ℕ) → bit_xor x y ≡ bit_xor (x / 2) (y / 2) * 2 + (x % 2 + y % 2) % 2
bit_xor_step (suc x) y =
    rw (← differ_digits (suc x % 2) (y % 2) (omega arith) (omega arith))
      (simp bit_xor-bitwise (lowest_digit (λ y. y) differ x y))
bit_xor_step zero y = simp bit_xor-bitwise (omega arith)

-- The lowest digit of `&` is the smaller one, that of `|` the larger one.
pub bit_and_step : (x y : ℕ) → bit_and x y ≡ bit_and (x / 2) (y / 2) * 2 + min (x % 2) (y % 2)
bit_and_step (suc x) y = simp bit_and-bitwise (lowest_digit (λ _. 0) min x y)
bit_and_step zero y = simp bit_and-bitwise (omega arith)

pub bit_or_step : (x y : ℕ) → bit_or x y ≡ bit_or (x / 2) (y / 2) * 2 + max (x % 2) (y % 2)
bit_or_step (suc x) y = simp bit_or-bitwise (lowest_digit (λ rest. rest) max x y)
bit_or_step zero y = simp bit_or-bitwise (omega arith)

-- The binary digit of `x` at place `k`.
abbrev pub bit_at : ℕ → ℕ → ℕ
bit_at zero x = x % 2
bit_at (suc k) x = bit_at k (x / 2)

pub bit_at-le : (k x : ℕ) → bit_at k x ≤ 1
bit_at-le zero x = omega arith
bit_at-le (suc k) x = bit_at-le k (x / 2)

pub bit_at-bit_and : (k a b : ℕ) → bit_at k (bit_and a b) ≡ min (bit_at k a) (bit_at k b)
bit_at-bit_and zero a b = omega (arith, bit_and_step a b)
bit_at-bit_and (suc k) a b = rw half-bit_and (bit_at-bit_and k (a / 2) (b / 2))
  where
    half-bit_and : bit_and a b / 2 ≡ bit_and (a / 2) (b / 2)
    half-bit_and = omega (arith, bit_and_step a b)

pub bit_at-bit_or : (k a b : ℕ) → bit_at k (bit_or a b) ≡ max (bit_at k a) (bit_at k b)
bit_at-bit_or zero a b = omega (arith, bit_or_step a b)
bit_at-bit_or (suc k) a b = rw half-bit_or (bit_at-bit_or k (a / 2) (b / 2))
  where
    half-bit_or : bit_or a b / 2 ≡ bit_or (a / 2) (b / 2)
    half-bit_or = omega (arith, bit_or_step a b)

pub bit_at-bit_xor : (k a b : ℕ) → bit_at k (bit_xor a b) ≡ (bit_at k a + bit_at k b) % 2
bit_at-bit_xor zero a b = omega (arith, bit_xor_step a b)
bit_at-bit_xor (suc k) a b = rw half-bit_xor (bit_at-bit_xor k (a / 2) (b / 2))
  where
    half-bit_xor : bit_xor a b / 2 ≡ bit_xor (a / 2) (b / 2)
    half-bit_xor = omega (arith, bit_xor_step a b)
