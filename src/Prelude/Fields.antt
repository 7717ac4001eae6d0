-- ===== src/Prelude/Fields.antt =====
-- Bit fields: `w` bits from place `lo` on.
use Prim.Native.Nat.{ℕ, ◌+◌, ◌-◌, ◌*◌, ◌/◌, ◌%◌, ◌^◌}

abbrev pub get_bits : ℕ → ℕ → ℕ → ℕ
get_bits lo w reg = reg / 2 ^ lo % 2 ^ w

-- The bits of `v` beyond the width are dropped.
abbrev pub set_bits : ℕ → ℕ → ℕ → ℕ → ℕ
set_bits lo w v reg = reg - reg / 2 ^ lo % 2 ^ w * 2 ^ lo + v % 2 ^ w * 2 ^ lo
