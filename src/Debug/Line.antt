-- ===== src/Debug/Line.antt =====
-- `debug_log_instruction` of dev/debug.c: a line of the log, as the characters that `printf` writes.
pub mod Laws
use nes_emulator.Prelude.{
  ℕ, zero, suc, ◌+◌, ◌-◌, ◌/◌, ◌%◌, List, [], ◌∷◌, ◌++◌, length, ltb, ◌==◌, if◌then◌else◌, u16,
}
use nes_emulator.State.{Cpu, Ppu}
use nes_emulator.Outcome.{Run, pure, ◌>>=◌, gets, get_cpu}
use nes_emulator.Mem.{mem_const_read_8}
use nes_emulator.Opcodes.{
  AddressMode, imm, zp0, zpx, zpy, xin, yin, rel, abs, abx, aby, ind, instruction_lookup,
}
use nes_emulator.Debug.Names.{opcode_name}
use nes_emulator.Debug.Log.{hex_2, hex_4, blanks, is_illegal, log_address_mode_info}

-- `%lu`: the decimal digits of a number with at most `fuel` of them, before what follows
unfoldable pub decimal_before : ℕ → ℕ → List ℕ → List ℕ
decimal_before zero n rest = rest
decimal_before (suc fuel) n rest =
    let digit = 48 + n % 10 in
    let more = decimal_before fuel (n / 10) (digit ∷ rest) in
    if ltb n 10 then digit ∷ rest else more

-- a `size_t` is below 2 ^ 64, which has 20 digits
unfoldable pub decimal : ℕ → List ℕ
decimal n = decimal_before 20 n []

-- `%3li`
unfoldable pub decimal_3 : ℕ → List ℕ
decimal_3 n = let digits = decimal n in blanks (3 - length digits) ++ digits

-- the `switch` that prints the bytes of the instruction
unfoldable pub log_bytes : AddressMode → ℕ → ℕ → ℕ → List ℕ
log_bytes imm byte0 byte1 byte2 = hex_2 byte0 ++ blanks 1 ++ hex_2 byte1 ++ blanks 4
log_bytes zp0 byte0 byte1 byte2 = hex_2 byte0 ++ blanks 1 ++ hex_2 byte1 ++ blanks 4
log_bytes zpx byte0 byte1 byte2 = hex_2 byte0 ++ blanks 1 ++ hex_2 byte1 ++ blanks 4
log_bytes zpy byte0 byte1 byte2 = hex_2 byte0 ++ blanks 1 ++ hex_2 byte1 ++ blanks 4
log_bytes xin byte0 byte1 byte2 = hex_2 byte0 ++ blanks 1 ++ hex_2 byte1 ++ blanks 4
log_bytes yin byte0 byte1 byte2 = hex_2 byte0 ++ blanks 1 ++ hex_2 byte1 ++ blanks 4
log_bytes rel byte0 byte1 byte2 = hex_2 byte0 ++ blanks 1 ++ hex_2 byte1 ++ blanks 4
log_bytes abs byte0 byte1 byte2 =
    hex_2 byte0 ++ blanks 1 ++ hex_2 byte1 ++ blanks 1 ++ hex_2 byte2 ++ blanks 1
log_bytes abx byte0 byte1 byte2 =
    hex_2 byte0 ++ blanks 1 ++ hex_2 byte1 ++ blanks 1 ++ hex_2 byte2 ++ blanks 1
log_bytes aby byte0 byte1 byte2 =
    hex_2 byte0 ++ blanks 1 ++ hex_2 byte1 ++ blanks 1 ++ hex_2 byte2 ++ blanks 1
log_bytes ind byte0 byte1 byte2 =
    hex_2 byte0 ++ blanks 1 ++ hex_2 byte1 ++ blanks 1 ++ hex_2 byte2 ++ blanks 1
log_bytes other byte0 byte1 byte2 = hex_2 byte0 ++ blanks 7

-- "A:%02X X:%02X Y:%02X P:%02X SP:%02X PPU:%3li,%3li CYC:%lu", and the end of the line
unfoldable pub log_state : Cpu → Ppu → List ℕ
log_state c p =
    (b'A' ∷ b':' ∷ hex_2 c.ac)
    ++ (b' ' ∷ b'X' ∷ b':' ∷ hex_2 c.x)
    ++ (b' ' ∷ b'Y' ∷ b':' ∷ hex_2 c.y)
    ++ (b' ' ∷ b'P' ∷ b':' ∷ hex_2 c.sr)
    ++ (b' ' ∷ b'S' ∷ b'P' ∷ b':' ∷ hex_2 c.sp)
    ++ (b' ' ∷ b'P' ∷ b'P' ∷ b'U' ∷ b':' ∷ decimal_3 p.cur_scanline)
    ++ (b',' ∷ decimal_3 p.cur_dot)
    ++ (b' ' ∷ b'C' ∷ b'Y' ∷ b'C' ∷ b':' ∷ decimal c.total_cycles)
    ++ (10 ∷ [])

-- what is printed before that, with the text about the addressing mode
unfoldable pub log_front : ℕ → ℕ → ℕ → ℕ → List ℕ → List ℕ
log_front pc byte0 byte1 byte2 column =
    let instruction = instruction_lookup byte0 in
    hex_4 pc
    ++ blanks 2
    ++ log_bytes instruction.address_mode byte0 byte1 byte2
    ++ ((if is_illegal byte0 then b'*' else b' ') ∷ [])
    ++ opcode_name instruction.opcode
    ++ blanks 1
    ++ column

unfoldable pub debug_log_instruction : Run (List ℕ)
debug_log_instruction = do
  c ← get_cpu
  p ← gets (λ e. e.ppu)
  byte0 ← mem_const_read_8 c.pc
  byte1 ← mem_const_read_8 (u16 (c.pc + 1))
  byte2 ← mem_const_read_8 (u16 (c.pc + 2))
  column ← log_address_mode_info (instruction_lookup byte0)
  pure (log_front c.pc byte0 byte1 byte2 column ++ log_state c p)
