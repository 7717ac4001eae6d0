-- ===== src/Debug/Log.antt =====
-- The log of instructions of dev/debug.c: the characters that `printf` writes.
pub mod Laws
pub mod Addresses
use nes_emulator.Prelude.{
  ℕ, zero, suc, ◌+◌, ◌-◌, ◌/◌, ◌%◌, bit_and, bit_or, Bool, true, false, not, ◌||◌, ◌&&◌, List, [],
  ◌∷◌, ◌++◌, ltb, ◌==◌, if◌then◌else◌, u8, u16, ◌<<<◌,
}
use nes_emulator.State.{Cpu}
use nes_emulator.Outcome.{Run, pure, ◌>>=◌, get_cpu}
use nes_emulator.Opcodes.{Opcode, AddressMode, Instruction, instruction_lookup}
use nes_emulator.Cpu.Address.{sign_extend}
use nes_emulator.Mem.{mem_const_read_8}
use nes_emulator.Board.Text.{hex_digit}

-- `instruction.opcode >= 56`: the opcodes after TYA
unfoldable pub is_after_tya : Opcode → Bool
is_after_tya Opcode.alr = true
is_after_tya Opcode.anc = true
is_after_tya Opcode.an2 = true
is_after_tya Opcode.ane = true
is_after_tya Opcode.arr = true
is_after_tya Opcode.dcp = true
is_after_tya Opcode.isb = true
is_after_tya Opcode.las = true
is_after_tya Opcode.lax = true
is_after_tya Opcode.lxa = true
is_after_tya Opcode.rla = true
is_after_tya Opcode.rra = true
is_after_tya Opcode.sax = true
is_after_tya Opcode.sbx = true
is_after_tya Opcode.sha = true
is_after_tya Opcode.shx = true
is_after_tya Opcode.shy = true
is_after_tya Opcode.slo = true
is_after_tya Opcode.sre = true
is_after_tya Opcode.tas = true
is_after_tya Opcode.ubc = true
is_after_tya Opcode.jam = true
is_after_tya other = false

unfoldable pub is_nop : Opcode → Bool
is_nop Opcode.nop = true
is_nop other = false

unfoldable pub is_illegal : ℕ → Bool
is_illegal byte =
    let instruction = instruction_lookup byte in
    is_after_tya instruction.opcode
    || is_nop instruction.opcode && not (byte == 0xEA)
    || byte == 0xEB

-- `%02X` of a byte and `%04X` of a `uint16_t`
abbrev pub hex_2 : ℕ → List ℕ
hex_2 n = hex_digit (n / 16 % 16) ∷ hex_digit (n % 16) ∷ []

abbrev pub hex_4 : ℕ → List ℕ
hex_4 n = hex_2 (n / 256) ++ hex_2 (n % 256)

-- What the first `switch` leaves: the address, what it printed, and how wide it takes that to be.
pub record Operand : Type 0 where
  pub address : ℕ
  pub printed : List ℕ
  pub width : ℕ

abbrev operand : ℕ → List ℕ → ℕ → Operand
operand address printed width = record { address = address; printed = printed; width = width }

-- the first `switch`, from the two bytes after the opcode
unfoldable pub log_operand : AddressMode → ℕ → ℕ → Cpu → Run Operand
log_operand AddressMode.acc byte1 byte2 c = pure (operand 0 (b'A' ∷ b' ' ∷ []) 2)
log_operand AddressMode.abs byte1 byte2 c =
    let address = u16 (bit_or (byte2 <<< 8) byte1) in
    pure (operand address (b'$' ∷ hex_4 address ++ (b' ' ∷ [])) 6)
log_operand AddressMode.abx byte1 byte2 c =
    let address_pre = u16 (bit_or (byte2 <<< 8) byte1) in
    let address = u16 (address_pre + c.x) in
    pure (
      operand address
        (b'$' ∷ hex_4 address_pre
          ++ (b',' ∷ b'X' ∷ b' ' ∷ b'@' ∷ b' ' ∷ hex_4 address)
          ++ (b' ' ∷ []))
        15)
log_operand AddressMode.aby byte1 byte2 c =
    let address_pre = u16 (bit_or (byte2 <<< 8) byte1) in
    let address = u16 (address_pre + c.y) in
    pure (
      operand address
        (b'$' ∷ hex_4 address_pre
          ++ (b',' ∷ b'Y' ∷ b' ' ∷ b'@' ∷ b' ' ∷ hex_4 address)
          ++ (b' ' ∷ []))
        15)
log_operand AddressMode.imm byte1 byte2 c =
    pure (operand c.pc (b'#' ∷ b'$' ∷ hex_2 byte1 ++ (b' ' ∷ [])) 5)
log_operand AddressMode.imp byte1 byte2 c = pure (operand 0 [] 0)
log_operand AddressMode.rel byte1 byte2 c =
    let address = u16 (c.pc + 2 + sign_extend byte1) in
    pure (operand address (b'$' ∷ hex_4 address ++ (b' ' ∷ [])) 6)
log_operand AddressMode.ind byte1 byte2 c = do
  let address_pre = u16 (bit_or (byte2 <<< 8) byte1)
  low_byte ← mem_const_read_8 address_pre
  hi_byte ← mem_const_read_8 (bit_or (bit_and address_pre 0xFF00) (bit_and (address_pre + 1) 0xFF))
  let address = u16 (bit_or low_byte (hi_byte <<< 8))
  pure (
      operand address
        (b'(' ∷ b'$' ∷ hex_4 address_pre
          ++ (b')' ∷ b' ' ∷ b'=' ∷ b' ' ∷ hex_4 address)
          ++ (b' ' ∷ []))
        15)
log_operand AddressMode.xin byte1 byte2 c = do
  let zp_address = bit_and (byte1 + c.x) 0xFF
  hi_byte ← mem_const_read_8 (bit_and (zp_address + 1) 0xFF)
  low_byte ← mem_const_read_8 (bit_and zp_address 0xFF)
  let address = u16 (bit_or (hi_byte <<< 8) low_byte)
  pure (
      operand address
        (b'(' ∷ b'$' ∷ hex_2 byte1
          ++ (b',' ∷ b'X' ∷ b')' ∷ b' ' ∷ b'@' ∷ b' ' ∷ hex_2 zp_address)
          ++ (b' ' ∷ b'=' ∷ b' ' ∷ hex_4 address)
          ++ (b' ' ∷ []))
        20)
log_operand AddressMode.yin byte1 byte2 c = do
  let zp_address = byte1
  hi_byte ← mem_const_read_8 (bit_and (zp_address + 1) 0xFF)
  low_byte ← mem_const_read_8 (bit_and zp_address 0xFF)
  let real_address = u16 (bit_or (hi_byte <<< 8) low_byte)
  let address = bit_and (real_address + c.y) 0xFFFF
  pure (
      operand address
        (b'(' ∷ b'$' ∷ hex_2 byte1
          ++ (b')' ∷ b',' ∷ b'Y' ∷ b' ' ∷ b'=' ∷ b' ' ∷ hex_4 real_address)
          ++ (b' ' ∷ b'@' ∷ b' ' ∷ hex_4 address)
          ++ (b' ' ∷ []))
        22)
log_operand AddressMode.zp0 byte1 byte2 c =
    pure (operand byte1 (b'$' ∷ hex_2 byte1 ++ (b' ' ∷ [])) 4)
log_operand AddressMode.zpx byte1 byte2 c =
    let address = bit_and (byte1 + c.x) 0xFF in
    pure (
      operand address
        (b'$' ∷ hex_2 byte1 ++ (b',' ∷ b'X' ∷ b' ' ∷ b'@' ∷ b' ' ∷ hex_2 address) ++ (b' ' ∷ []))
        11)
log_operand AddressMode.zpy byte1 byte2 c =
    let address = bit_and (byte1 + c.y) 0xFF in
    pure (
      operand address
        (b'$' ∷ hex_2 byte1 ++ (b',' ∷ b'Y' ∷ b' ' ∷ b'@' ∷ b' ' ∷ hex_2 address) ++ (b' ' ∷ []))
        11)
log_operand AddressMode.unk byte1 byte2 c = pure (operand 0 (b'?' ∷ b'?' ∷ b'?' ∷ []) 3)

-- the addressing modes that the second `switch` leaves out
unfoldable pub has_no_value : AddressMode → Bool
has_no_value AddressMode.imm = true
has_no_value AddressMode.acc = true
has_no_value AddressMode.ind = true
has_no_value AddressMode.imp = true
has_no_value other = false

-- the instructions whose value is shown
unfoldable pub shows_value : Opcode → Bool
shows_value Opcode.sta = true
shows_value Opcode.stx = true
shows_value Opcode.sty = true
shows_value Opcode.bit = true
shows_value Opcode.lda = true
shows_value Opcode.ldx = true
shows_value Opcode.ldy = true
shows_value Opcode.cpy = true
shows_value Opcode.and = true
shows_value Opcode.ora = true
shows_value Opcode.eor = true
shows_value Opcode.adc = true
shows_value Opcode.sbc = true
shows_value Opcode.cmp = true
shows_value Opcode.cpx = true
shows_value Opcode.lsr = true
shows_value Opcode.asl = true
shows_value Opcode.ror = true
shows_value Opcode.rol = true
shows_value Opcode.inc = true
shows_value Opcode.dec = true
shows_value Opcode.nop = true
shows_value Opcode.lax = true
shows_value Opcode.sax = true
shows_value Opcode.dcp = true
shows_value Opcode.isb = true
shows_value Opcode.slo = true
shows_value Opcode.rla = true
shows_value Opcode.sre = true
shows_value Opcode.rra = true
shows_value other = false

-- the second `switch`
unfoldable pub log_value : Instruction → Operand → Run Operand
log_value instruction o =
    if not (has_no_value instruction.address_mode) && shows_value instruction.opcode
    then (do
      value ← mem_const_read_8 o.address
      pure (operand o.address (o.printed ++ (b'=' ∷ b' ' ∷ hex_2 value)) (o.width + 4)))
    else pure o

abbrev pub blanks : ℕ → List ℕ
blanks zero = []
blanks (suc n) = b' ' ∷ blanks n

-- ADDRESS_MODE_COLUMN_WIDTH
abbrev pub address_mode_column_width : ℕ
address_mode_column_width = 28

-- the two bytes after the opcode, and the first `switch`
unfoldable pub log_mode : AddressMode → Run Operand
log_mode mode = do
  c ← get_cpu
  byte1 ← mem_const_read_8 (u16 (c.pc + 1))
  byte2 ← mem_const_read_8 (u16 (c.pc + 2))
  log_operand mode byte1 byte2 c

unfoldable pub log_address_mode_info : Instruction → Run (List ℕ)
log_address_mode_info instruction = do
  o ← log_mode instruction.address_mode
  shown ← log_value instruction o
  pure (shown.printed ++ blanks (address_mode_column_width - shown.width))
