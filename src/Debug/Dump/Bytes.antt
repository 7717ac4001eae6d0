-- ===== src/Debug/Dump/Bytes.antt =====
-- Where a dump of the memory shows each byte.
use nes_emulator.Prelude.{ℕ, ◌+◌, ◌*◌, ◌/◌, ◌%◌, ◌≡◌, List, ◌++◌, length, u16}
use nes_emulator.State.{Emulator}
use nes_emulator.Outcome.{Outcome, done}
use nes_emulator.Outcome.Ensures.{Ensures}
use nes_emulator.Mem.{mem_const_read_8}
use nes_emulator.Board.Text.Decimal.{read_digits}
use nes_emulator.Debug.Dump.Laws.{printed}

-- what is before byte `i`: three characters for each byte before it, and for each row up to its
-- own the seven at the start, and a line feed for each row before
column : ℕ → ℕ
column i = 3 * i + 7 * (i / 8 + 1) + i / 8

-- At a place of the text there are two hexadecimal digits, of the byte.
pub record Shows (place byte : ℕ) (text : List ℕ) : Type 0 where
  pub front : List ℕ
  pub digits : List ℕ
  pub rest : List ℕ
  pub parts : text ≡ front ++ digits ++ rest
  pub before : length front ≡ place
  pub two : length digits ≡ 2
  pub value : read_digits 16 0 digits ≡ byte % 256

module _ (e : Emulator) (start j : ℕ) where
  -- the byte that the memory gives for number `j`, and its digits in the text from byte `i` on
  record Found (i : ℕ) (text : List ℕ) : Type 0 where
    byte : ℕ
    place : ℕ
    given : mem_const_read_8 (u16 (start + j)) e ≡ done (byte, e)
    there : place + printed i ≡ column j
    shown : Shows place byte text
