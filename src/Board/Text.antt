-- ===== src/Board/Text.antt =====
-- The printing of dtekv-build/dtekv-lib.c: the characters that go to the UART.
pub mod Decimal
pub mod Laws
use nes_emulator.Prelude.{
  ℕ, zero, suc, ◌+◌, ◌-◌, ◌*◌, ◌/◌, bit_and, List, [], ◌∷◌, ◌++◌, ltb, ◌==◌, truth, if◌then◌else◌,
  ◌>>>◌,
}

-- the characters of a string up to its end
unfoldable pub dtekv_print : List ℕ → List ℕ
dtekv_print [] = []
dtekv_print (c ∷ s) = if c == 0 then [] else c ∷ dtekv_print s

-- The loop, of at most `fuel` passes: what it prints, and `first` at its end.
unfoldable pub print_digits : ℕ → ℕ → ℕ → ℕ → List ℕ × ℕ
print_digits zero divident first x = ([], first)
print_digits (suc fuel) divident first x =
    let dv = x / divident in
    let first' = if dv == 0 then first else 1 in
    let printed = if first' == 0 then [] else (48 + dv) ∷ [] in
    let rest = print_digits fuel (divident / 10) first' (x - dv * divident) in
    if divident / 10 == 0 then (printed, first') else (printed ++ rest.0, rest.1)

unfoldable pub dtekv_print_dec : ℕ → List ℕ
dtekv_print_dec x =
    let (printed, first) = print_digits 10 1000000000 0 x in
    if first == 0 then printed ++ (48 ∷ []) else printed

-- the character of a digit
unfoldable pub hex_digit : ℕ → ℕ
hex_digit hd = if ltb hd 10 then hd + 48 else hd + (65 - 10)

-- the loop, from digit `left - 1` down
unfoldable pub print_hex_digits : ℕ → ℕ → List ℕ
print_hex_digits zero x = []
print_hex_digits (suc i) x = hex_digit (bit_and (x >>> (i * 4)) 0xF) ∷ print_hex_digits i x

unfoldable pub dtekv_print_hex32 : ℕ → List ℕ
dtekv_print_hex32 x = b'0' ∷ b'x' ∷ print_hex_digits 8 x
