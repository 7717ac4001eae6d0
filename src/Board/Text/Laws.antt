-- ===== src/Board/Text/Laws.antt =====
-- The numbers that are printed read back as they were.
use nes_emulator.Prelude.{ℕ, ◌<◌, ◌≡◌, arith, List, ◌∷◌}
use nes_emulator.Board.Text.Decimal.{digit_value, read_digits}
use nes_emulator.Board.Text.{hex_digit}

pub value-hex_digit : (d : ℕ) → d < 16 → digit_value (hex_digit d) ≡ d
unfolding hex_digit
value-hex_digit d h = ground arith

-- the number after the two characters of the prefix
abbrev pub read_hex : List ℕ → ℕ
read_hex (a ∷ b ∷ s) = read_digits 16 0 s
read_hex s = 0
