-- ===== src/Board/Text/Decimal.antt =====
-- The decimal digits that are printed for a number, read back.
use nes_emulator.Prelude.{
  ℕ, zero, suc, ◌+◌, ◌-◌, ◌*◌, ◌/◌, ◌≤◌, ◌<◌, ◌≡◌, false, Bool-cases, inl, inr, ap, sym, refl, ◌∙◌,
  arith, List, [], ◌∷◌, ◌++◌, ltb, ◌==◌, if◌then◌else◌,
}
use native.Mathlib.Nat.{div-add-mod', mod-lt, lt_of_mul-lt-mul_right}
use nes_emulator.Board.Text.{print_digits}

-- the value of a character as a digit
abbrev pub digit_value : ℕ → ℕ
digit_value c = if ltb c 58 then c - 48 else c - 55

-- the number that a list of digits stands for in a base, after what was read before
abbrev pub read_digits : ℕ → ℕ → List ℕ → ℕ
read_digits base acc [] = acc
read_digits base acc (c ∷ s) = read_digits base (acc * base + digit_value c) s

horner :
    (acc dv p d x : ℕ)
    → d ≡ 10 * p
    → dv * d ≤ x
    → (acc * 10 + dv) * (10 * p) + (x - dv * d) ≡ acc * (10 * d) + x
horner acc dv p d x e h = rw (sym e) (regroup h)
  where
    regroup : dv * d ≤ x → (acc * 10 + dv) * d + (x - dv * d) ≡ acc * (10 * d) + x
    regroup k = omega arith

left_over : (x d : ℕ) → 0 < d → (x / d * d ≤ x) × (x - x / d * d < d)
left_over x d h = (omega (arith, div-add-mod' x d), omega (arith, div-add-mod' x d, mod-lt x h))

quotient_digit : (x d : ℕ) → 0 < d → x < 10 * d → x / d < 10
quotient_digit x d p h = lt_of_mul-lt-mul_right d (omega (arith, left_over x d p))

pub ten_power : ℕ → ℕ
ten_power zero = 1
ten_power (suc k) = 10 * ten_power k

positive : (k : ℕ) → 0 < ten_power k
unfolding ten_power
positive zero = omega arith
positive (suc k) = omega (arith, positive k)

ten_step : (k : ℕ) → ten_power (suc k) ≡ 10 * ten_power k
unfolding ten_power
ten_step k = refl

tenth : (k : ℕ) → ten_power (suc k) / 10 ≡ ten_power k
unfolding ten_power
tenth k = omega arith

value-digit : (dv : ℕ) → dv < 10 → digit_value (48 + dv) ≡ dv
value-digit dv h = ground arith

nonzero : (k : ℕ) → (ten_power k == 0) ≡ false
nonzero k = ground (arith, positive k)

-- `first` after a digit
abbrev next_first : ℕ → ℕ → ℕ
next_first first dv = if dv == 0 then first else 1

next_first-zero :
    (acc first dv : ℕ) → (first ≡ 0 → acc ≡ 0) → next_first first dv ≡ 0 → acc * 10 + dv ≡ 0
next_first-zero acc first dv f h = ground arith

-- a digit, printed or not, before what follows
read_step :
    (acc first dv : ℕ) (rest : List ℕ)
    → dv < 10
    → (first ≡ 0 → acc ≡ 0)
    → read_digits 10 acc ((if next_first first dv == 0 then [] else (48 + dv) ∷ []) ++ rest)
      ≡ read_digits 10 (acc * 10 + dv) rest
read_step acc first dv rest h f = elim (Bool-cases (next_first first dv == 0)) [
  | inl silent ↦ rw silent (
      ap (λ n. read_digits 10 n rest)
        (unread acc (acc * 10 + dv) (ground arith) (next_first-zero acc first dv f (ground arith))))
  | inr loud ↦ rw loud (ap (λ n. read_digits 10 (acc * 10 + n) rest) (value-digit dv h))
]
  where
    unread : (m n : ℕ) → m ≡ 0 → n ≡ 0 → m ≡ n
    unread m n k l = omega (arith, k, l)

whole : (x : ℕ) → x / 1 ≡ x
whole x = omega arith

append_nil : (xs : List ℕ) → xs ++ [] ≡ xs
append_nil [] = refl
append_nil (x ∷ xs) = ap (λ ys. x ∷ ys) (append_nil xs)

read_single :
    (acc first x : ℕ)
    → x < 10
    → (first ≡ 0 → acc ≡ 0)
    → read_digits 10 acc (if next_first first x == 0 then [] else (48 + x) ∷ []) ≡ acc * 10 + x
read_single acc first x h f =
    let printed : List ℕ = if next_first first x == 0 then [] else (48 + x) ∷ [] in
    ap (λ s. read_digits 10 acc s) (sym (append_nil printed)) ∙ read_step acc first x [] h f

-- what the printing of a number below the next power of ten adds to what was read before
pub read-print_digits :
    (k acc first x : ℕ)
    → (first ≡ 0 → acc ≡ 0)
    → x < 10 * ten_power k
    → read_digits 10 acc (print_digits (suc k) (ten_power k) first x).0
      ≡ acc * (10 * ten_power k) + x
unfolding print_digits ten_power
read-print_digits zero acc first x f h = rw (whole x) (read_single acc first x (omega (arith, h)) f)
read-print_digits (suc k) acc first x f h =
    let d = ten_power (suc k) in
    let dv = x / d in
    let rest = print_digits (suc k) (ten_power k) (next_first first dv) (x - dv * d) in
    rw (tenth k, nonzero k)
      (read_step acc first dv rest.0 (quotient_digit x d (positive (suc k)) h) f
        ∙ read-print_digits k (acc * 10 + dv) (next_first first dv) (x - dv * d)
            (next_first-zero acc first dv f)
            (omega (arith, (left_over x d (positive (suc k))).1, ten_step k))
        ∙ horner acc dv (ten_power k) d x (ten_step k) (left_over x d (positive (suc k))).0)

first-step :
    (k first x : ℕ)
    → let d = ten_power (suc k) in
      (print_digits (suc (suc k)) d first x).1
      ≡ (print_digits (suc k) (ten_power k) (next_first first (x / d)) (x - x / d * d)).1
unfolding print_digits
first-step k first x = rw (tenth k, nonzero k) refl

none_printed : (a b : ℕ) → next_first a b ≡ 0 → (a ≡ 0) × (b ≡ 0)
none_printed a b e = (ground arith, ground arith)

no_digits :
    (first dv d x : ℕ)
    → next_first first dv ≡ 0
    → x - dv * d ≡ 0
    → dv * d ≤ x
    → (first ≡ 0) × (x ≡ 0)
no_digits first dv d x e r h =
    let p = none_printed first dv e in (p.0, omega (arith, r, h, ap (λ n. n * d) p.1))

-- Nothing is printed before the last digit for 0 alone.
pub first-print_digits :
    (k first x : ℕ)
    → x < 10 * ten_power k
    → (print_digits (suc k) (ten_power k) first x).1 ≡ 0
    → (first ≡ 0) × (x ≡ 0)
unfolding print_digits ten_power
first-print_digits zero first x h e = none_printed first x (rw (sym (whole x)) e)
first-print_digits (suc k) first x h e =
    let d = ten_power (suc k) in
    let dv = x / d in
    let bounds = left_over x d (positive (suc k)) in
    let rest =
      first-print_digits k (next_first first dv) (x - dv * d) (omega (arith, bounds.1, ten_step k))
        (sym (first-step k first x) ∙ e) in
    no_digits first dv d x rest.0 rest.1 bounds.0

read-append :
    (s : List ℕ) (acc c : ℕ)
    → read_digits 10 acc (s ++ (c ∷ [])) ≡ read_digits 10 acc s * 10 + digit_value c
read-append [] acc c = refl
read-append (x ∷ s) acc c = read-append s (acc * 10 + digit_value x) c

pub print_dec_value :
    (printed : List ℕ) (first x : ℕ)
    → read_digits 10 0 printed ≡ x
    → (first ≡ 0 → x ≡ 0)
    → read_digits 10 0 (if first == 0 then printed ++ (48 ∷ []) else printed) ≡ x
print_dec_value printed first x e z = elim (Bool-cases (first == 0)) [
  | inl none ↦ rw (none, read-append printed 0 48, e) (omega (arith, z (ground arith)))
  | inr some ↦ rw some e
]

pub billion : ten_power 9 ≡ 1000000000
unfolding ten_power
billion = refl

pub ten_billion : 10 * ten_power 9 ≡ 10000000000
unfolding ten_power
ten_billion = refl
