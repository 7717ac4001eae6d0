-- ===== src/Debug/Dump.antt =====
-- `debug_memory_dump` and `debug_memory_dump_ascii` of dev/debug.c: the characters that they print.
pub mod Laws
pub mod Bytes
use nes_emulator.Prelude.{
  ℕ, zero, suc, ◌+◌, ◌/◌, ◌%◌, ◌||◌, List, [], ◌∷◌, ◌++◌, ltb, leb, ◌==◌, if◌then◌else◌, u16,
}
use nes_emulator.Outcome.{Run, pure, ◌>>=◌}
use nes_emulator.Mem.{mem_const_read_8}
use nes_emulator.Board.Text.{hex_digit}
use nes_emulator.Debug.Log.{hex_2, hex_4}

-- `%04X` of the `int` sum of two `uint16_t`: five digits from 0x10000 on
unfoldable pub hex_sum : ℕ → List ℕ
hex_sum n = if ltb n 0x10000 then hex_4 n else hex_digit (n / 0x10000) ∷ hex_4 (n % 0x10000)

-- what is printed before and after each byte
unfoldable pub row_start : ℕ → ℕ → List ℕ
row_start start i = if i % 8 == 0 then b'$' ∷ hex_sum (start + i) ++ (b':' ∷ b' ' ∷ []) else []

unfoldable pub row_end : ℕ → List ℕ
row_end i = if i % 8 == 7 then 10 ∷ [] else []

-- "%02X "
unfoldable pub shown_hex : ℕ → List ℕ
shown_hex byte = hex_2 byte ++ (b' ' ∷ [])

-- a blank for a line feed and for what is not ASCII
unfoldable pub shown_ascii : ℕ → List ℕ
shown_ascii byte = (if byte == 10 then b' ' else if ltb byte 128 then byte else b' ') ∷ []

-- the loop of both, with `left` bytes to go from number `i` on
unfoldable pub dump_bytes : (ℕ → List ℕ) → ℕ → ℕ → ℕ → Run (List ℕ)
dump_bytes shown start zero i = pure []
dump_bytes shown start (suc left) i = do
  byte ← mem_const_read_8 (u16 (start + i))
  rest ← dump_bytes shown start left (i + 1)
  pure (row_start start i ++ shown byte ++ row_end i ++ rest)

unfoldable pub debug_memory_dump : ℕ → ℕ → Run (List ℕ)
debug_memory_dump start len = do rows ← dump_bytes shown_hex start len 0; pure (rows ++ (10 ∷ []))

unfoldable pub debug_memory_dump_ascii : ℕ → ℕ → Run (List ℕ)
debug_memory_dump_ascii start len = do
  rows ← dump_bytes shown_ascii start len 0
  pure (rows ++ (10 ∷ []))
