-- ===== src/Debug/Dump/Laws.antt =====
-- The rows of a dump of the memory.
use nes_emulator.Prelude.{
  ℕ, zero, suc, ◌+◌, ◌*◌, ◌/◌, ◌%◌, ◌≤◌, ◌<◌, ◌≡◌, ◌==◌, if◌then◌else◌, arith, List, [], ◌++◌,
  length,
}
use nes_emulator.State.{Emulator}
use nes_emulator.Outcome.Ensures.{Ensures, bind-Any, Ensures-bind, Ensures-pure}
use nes_emulator.Debug.Log.Laws.{Same, const_read-Same, length-append}
use nes_emulator.Debug.Dump.{hex_sum, row_start, row_end, shown_hex, dump_bytes}

-- how many characters are printed for the bytes before number `i`
abbrev pub printed : ℕ → ℕ
printed i = 3 * i + 7 * ((i + 7) / 8) + i / 8

pub row_start-length :
    (start i : ℕ) → start + i < 0x10000 → length (row_start start i) ≡ (if i % 8 == 0 then 7 else 0)
unfolding row_start hex_sum
row_start-length start i h = ground arith

row_end-length : (i : ℕ) → length (row_end i) ≡ (if i % 8 == 7 then 1 else 0)
unfolding row_end
row_end-length i = ground arith

one_more :
    (i : ℕ)
    → (if i % 8 == 0 then 7 else 0) + 3 + (if i % 8 == 7 then 1 else 0) + printed i
      ≡ printed (i + 1)
one_more i = ground arith

pub byte-length :
    (start i b : ℕ) (rest : List ℕ)
    → start + i < 0x10000
    → length (row_start start i ++ shown_hex b ++ row_end i ++ rest) + printed i
      ≡ length rest + printed (i + 1)
unfolding shown_hex
byte-length start i b rest h = omega (
  arith,
  length-append (row_start start i ++ shown_hex b ++ row_end i) rest,
  length-append (row_start start i ++ shown_hex b) (row_end i),
  length-append (row_start start i) (shown_hex b),
  row_start-length start i h,
  row_end-length i,
  one_more i,
)

module _ (e : Emulator) where
  abbrev Rows : ℕ → ℕ → List ℕ → Type 0
  Rows i left text = length text + printed i ≡ printed (i + left)

  pub dump_bytes-Same :
      (start left i : ℕ)
      → start + i + left ≤ 0x10000
      → Ensures (Same e) (Rows i left) (dump_bytes shown_hex start left i)
  unfolding dump_bytes
  dump_bytes-Same start zero i h = Ensures-pure [] (omega arith)
  dump_bytes-Same start (suc left) i h = bind-Any _ _ (const_read-Same e _) λ b.
      Ensures-bind _ _ (dump_bytes-Same start left (i + 1) (omega arith))
        λ rest k. Ensures-pure _ (omega (arith, byte-length start i b rest (omega arith), k))
