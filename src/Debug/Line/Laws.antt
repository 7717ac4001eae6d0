-- ===== src/Debug/Line/Laws.antt =====
-- The lines of the log.
use nes_emulator.Prelude.{
  ℕ, ◌+◌, ◌≡◌, refl, ap, ap₂, arith, List, [], ◌∷◌, ◌++◌, length, u16, if◌then◌else◌,
}
use nes_emulator.State.{Cpu, Ppu, Emulator}
use nes_emulator.Outcome.{gets, get_cpu}
use nes_emulator.Outcome.Ensures.{Holds, Ensures, bind-Any, Ensures-bind, Ensures-pure}
use nes_emulator.Opcodes.{
  Opcode, AddressMode, acc, abs, abx, aby, imm, imp, ind, xin, yin, rel, zp0, zpx, zpy, unk,
  instruction_lookup,
}
use nes_emulator.Debug.Names.{opcode_name}
use nes_emulator.Debug.Log.{hex_4, blanks, is_illegal}
use nes_emulator.Debug.Log.Laws.{Same, const_read-Same, column-Same, length-append}
use nes_emulator.Debug.Line.{log_bytes, log_front, log_state, debug_log_instruction}

log_bytes-length : (m : AddressMode) (a b c : ℕ) → length (log_bytes m a b c) ≡ 9
unfolding log_bytes
log_bytes-length acc a b c = refl
log_bytes-length abs a b c = refl
log_bytes-length abx a b c = refl
log_bytes-length aby a b c = refl
log_bytes-length imm a b c = refl
log_bytes-length imp a b c = refl
log_bytes-length ind a b c = refl
log_bytes-length xin a b c = refl
log_bytes-length yin a b c = refl
log_bytes-length rel a b c = refl
log_bytes-length zp0 a b c = refl
log_bytes-length zpx a b c = refl
log_bytes-length zpy a b c = refl
log_bytes-length unk a b c = refl

opcode_name-length : (o : Opcode) → length (opcode_name o) ≡ 3
unfolding opcode_name
opcode_name-length Opcode.adc = refl
opcode_name-length Opcode.and = refl
opcode_name-length Opcode.asl = refl
opcode_name-length Opcode.bcc = refl
opcode_name-length Opcode.bcs = refl
opcode_name-length Opcode.beq = refl
opcode_name-length Opcode.bit = refl
opcode_name-length Opcode.bmi = refl
opcode_name-length Opcode.bne = refl
opcode_name-length Opcode.bpl = refl
opcode_name-length Opcode.brk = refl
opcode_name-length Opcode.bvc = refl
opcode_name-length Opcode.bvs = refl
opcode_name-length Opcode.clc = refl
opcode_name-length Opcode.cld = refl
opcode_name-length Opcode.cli = refl
opcode_name-length Opcode.clv = refl
opcode_name-length Opcode.cmp = refl
opcode_name-length Opcode.cpx = refl
opcode_name-length Opcode.cpy = refl
opcode_name-length Opcode.dec = refl
opcode_name-length Opcode.dex = refl
opcode_name-length Opcode.dey = refl
opcode_name-length Opcode.eor = refl
opcode_name-length Opcode.inc = refl
opcode_name-length Opcode.inx = refl
opcode_name-length Opcode.iny = refl
opcode_name-length Opcode.jmp = refl
opcode_name-length Opcode.jsr = refl
opcode_name-length Opcode.lda = refl
opcode_name-length Opcode.ldx = refl
opcode_name-length Opcode.ldy = refl
opcode_name-length Opcode.lsr = refl
opcode_name-length Opcode.nop = refl
opcode_name-length Opcode.ora = refl
opcode_name-length Opcode.pha = refl
opcode_name-length Opcode.php = refl
opcode_name-length Opcode.pla = refl
opcode_name-length Opcode.plp = refl
opcode_name-length Opcode.rol = refl
opcode_name-length Opcode.ror = refl
opcode_name-length Opcode.rti = refl
opcode_name-length Opcode.rts = refl
opcode_name-length Opcode.sbc = refl
opcode_name-length Opcode.sec = refl
opcode_name-length Opcode.sed = refl
opcode_name-length Opcode.sei = refl
opcode_name-length Opcode.sta = refl
opcode_name-length Opcode.stx = refl
opcode_name-length Opcode.sty = refl
opcode_name-length Opcode.tax = refl
opcode_name-length Opcode.tay = refl
opcode_name-length Opcode.tsx = refl
opcode_name-length Opcode.txa = refl
opcode_name-length Opcode.txs = refl
opcode_name-length Opcode.tya = refl
opcode_name-length Opcode.alr = refl
opcode_name-length Opcode.anc = refl
opcode_name-length Opcode.an2 = refl
opcode_name-length Opcode.ane = refl
opcode_name-length Opcode.arr = refl
opcode_name-length Opcode.dcp = refl
opcode_name-length Opcode.isb = refl
opcode_name-length Opcode.las = refl
opcode_name-length Opcode.lax = refl
opcode_name-length Opcode.lxa = refl
opcode_name-length Opcode.rla = refl
opcode_name-length Opcode.rra = refl
opcode_name-length Opcode.sax = refl
opcode_name-length Opcode.sbx = refl
opcode_name-length Opcode.sha = refl
opcode_name-length Opcode.shx = refl
opcode_name-length Opcode.shy = refl
opcode_name-length Opcode.slo = refl
opcode_name-length Opcode.sre = refl
opcode_name-length Opcode.tas = refl
opcode_name-length Opcode.ubc = refl
opcode_name-length Opcode.jam = refl

log_front-length :
    (pc byte0 byte1 byte2 : ℕ) (column : List ℕ)
    → length column ≡ 28
    → length (log_front pc byte0 byte1 byte2 column) ≡ 48
unfolding log_front
log_front-length pc byte0 byte1 byte2 column h =
    let i = instruction_lookup byte0 in
    let address = hex_4 pc ++ blanks 2 in
    let bytes = address ++ log_bytes i.address_mode byte0 byte1 byte2 in
    let mark : List ℕ = (if is_illegal byte0 then b'*' else b' ') ∷ [] in
    let name = bytes ++ mark ++ opcode_name i.opcode in
    omega (
      arith,
      h,
      length-append (name ++ blanks 1) column,
      length-append name (blanks 1),
      length-append (bytes ++ mark) (opcode_name i.opcode),
      length-append bytes mark,
      length-append address (log_bytes i.address_mode byte0 byte1 byte2),
      log_bytes-length i.address_mode byte0 byte1 byte2,
      opcode_name-length i.opcode,
    )

module _ (e : Emulator) where
  abbrev HasFront : List ℕ → Type 0
  HasFront text = (front : List ℕ) × (length front ≡ 48) × (text ≡ front ++ log_state e.cpu e.ppu)

  same_end :
      (front : List ℕ) (c : Cpu) (p : Ppu)
      → c ≡ e.cpu
      → p ≡ e.ppu
      → front ++ log_state c p ≡ front ++ log_state e.cpu e.ppu
  same_end front c p h k = ap₂ (λ c' p'. front ++ log_state c' p') h k

  ask_cpu : Ensures (Same e) (λ c. c ≡ e.cpu) get_cpu
  unfolding get_cpu
  ask_cpu = record { at = λ e' h. (ap (λ e. e.cpu) h, h) }

  ask_ppu : Ensures (Same e) (λ p. p ≡ e.ppu) (gets (λ e'. e'.ppu))
  unfolding gets
  ask_ppu = record { at = λ e' h. (ap (λ e. e.ppu) h, h) }

  line-Same : Ensures (Same e) HasFront debug_log_instruction
  unfolding debug_log_instruction
  line-Same = Ensures-bind _ _ ask_cpu λ c hc. Ensures-bind _ _ ask_ppu λ p hp.
      bind-Any _ _ (const_read-Same e c.pc) λ byte0.
        bind-Any _ _ (const_read-Same e (u16 (c.pc + 1))) λ byte1.
          bind-Any _ _ (const_read-Same e (u16 (c.pc + 2))) λ byte2.
            Ensures-bind _ _ (column-Same e _) λ column whole. Ensures-pure _ (
              log_front c.pc byte0 byte1 byte2 column,
              log_front-length c.pc byte0 byte1 byte2 column whole,
              same_end (log_front c.pc byte0 byte1 byte2 column) c p hc hp,
            )

-- Where its reads return, each line of the log shows the registers from its column 48 on,
-- whichever the instruction, its addressing mode and its bytes; the log leaves the emulator as it
-- was.
pub debug_log_instruction_lem :
    (e : Emulator)
    → Holds
        (λ e'. e' ≡ e)
        (λ text. (front : List ℕ) × (length front ≡ 48) × (text ≡ front ++ log_state e.cpu e.ppu))
        (debug_log_instruction e)
debug_log_instruction_lem e = (line-Same e).at e refl
