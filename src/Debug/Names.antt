-- ===== src/Debug/Names.antt =====
-- `opcode_name_lookup` of emulator/opcodes.h, which only the log of dev/debug.c reads.
use nes_emulator.Prelude.{ℕ, List, [], ◌∷◌}
use nes_emulator.Opcodes.{Opcode}

-- a name of three characters
abbrev name : ℕ → ℕ → ℕ → List ℕ
name a b c = a ∷ b ∷ c ∷ []

unfoldable pub opcode_name : Opcode → List ℕ
opcode_name Opcode.adc = name b'A' b'D' b'C'
opcode_name Opcode.and = name b'A' b'N' b'D'
opcode_name Opcode.asl = name b'A' b'S' b'L'
opcode_name Opcode.bcc = name b'B' b'C' b'C'
opcode_name Opcode.bcs = name b'B' b'C' b'S'
opcode_name Opcode.beq = name b'B' b'E' b'Q'
opcode_name Opcode.bit = name b'B' b'I' b'T'
opcode_name Opcode.bmi = name b'B' b'M' b'I'
opcode_name Opcode.bne = name b'B' b'N' b'E'
opcode_name Opcode.bpl = name b'B' b'P' b'L'
opcode_name Opcode.brk = name b'B' b'R' b'K'
opcode_name Opcode.bvc = name b'B' b'V' b'C'
opcode_name Opcode.bvs = name b'B' b'V' b'S'
opcode_name Opcode.clc = name b'C' b'L' b'C'
opcode_name Opcode.cld = name b'C' b'L' b'D'
opcode_name Opcode.cli = name b'C' b'L' b'I'
opcode_name Opcode.clv = name b'C' b'L' b'V'
opcode_name Opcode.cmp = name b'C' b'M' b'P'
opcode_name Opcode.cpx = name b'C' b'P' b'X'
opcode_name Opcode.cpy = name b'C' b'P' b'Y'
opcode_name Opcode.dec = name b'D' b'E' b'C'
opcode_name Opcode.dex = name b'D' b'E' b'X'
opcode_name Opcode.dey = name b'D' b'E' b'Y'
opcode_name Opcode.eor = name b'E' b'O' b'R'
opcode_name Opcode.inc = name b'I' b'N' b'C'
opcode_name Opcode.inx = name b'I' b'N' b'X'
opcode_name Opcode.iny = name b'I' b'N' b'Y'
opcode_name Opcode.jmp = name b'J' b'M' b'P'
opcode_name Opcode.jsr = name b'J' b'S' b'R'
opcode_name Opcode.lda = name b'L' b'D' b'A'
opcode_name Opcode.ldx = name b'L' b'D' b'X'
opcode_name Opcode.ldy = name b'L' b'D' b'Y'
opcode_name Opcode.lsr = name b'L' b'S' b'R'
opcode_name Opcode.nop = name b'N' b'O' b'P'
opcode_name Opcode.ora = name b'O' b'R' b'A'
opcode_name Opcode.pha = name b'P' b'H' b'A'
opcode_name Opcode.php = name b'P' b'H' b'P'
opcode_name Opcode.pla = name b'P' b'L' b'A'
opcode_name Opcode.plp = name b'P' b'L' b'P'
opcode_name Opcode.rol = name b'R' b'O' b'L'
opcode_name Opcode.ror = name b'R' b'O' b'R'
opcode_name Opcode.rti = name b'R' b'T' b'I'
opcode_name Opcode.rts = name b'R' b'T' b'S'
opcode_name Opcode.sbc = name b'S' b'B' b'C'
opcode_name Opcode.sec = name b'S' b'E' b'C'
opcode_name Opcode.sed = name b'S' b'E' b'D'
opcode_name Opcode.sei = name b'S' b'E' b'I'
opcode_name Opcode.sta = name b'S' b'T' b'A'
opcode_name Opcode.stx = name b'S' b'T' b'X'
opcode_name Opcode.sty = name b'S' b'T' b'Y'
opcode_name Opcode.tax = name b'T' b'A' b'X'
opcode_name Opcode.tay = name b'T' b'A' b'Y'
opcode_name Opcode.tsx = name b'T' b'S' b'X'
opcode_name Opcode.txa = name b'T' b'X' b'A'
opcode_name Opcode.txs = name b'T' b'X' b'S'
opcode_name Opcode.tya = name b'T' b'Y' b'A'
opcode_name Opcode.alr = name b'A' b'L' b'R'
opcode_name Opcode.anc = name b'A' b'N' b'C'
opcode_name Opcode.an2 = name b'A' b'N' b'2'
opcode_name Opcode.ane = name b'A' b'N' b'E'
opcode_name Opcode.arr = name b'A' b'R' b'R'
opcode_name Opcode.dcp = name b'D' b'C' b'P'
opcode_name Opcode.isb = name b'I' b'S' b'B'
opcode_name Opcode.las = name b'L' b'A' b'S'
opcode_name Opcode.lax = name b'L' b'A' b'X'
opcode_name Opcode.lxa = name b'L' b'X' b'A'
opcode_name Opcode.rla = name b'R' b'L' b'A'
opcode_name Opcode.rra = name b'R' b'R' b'A'
opcode_name Opcode.sax = name b'S' b'A' b'X'
opcode_name Opcode.sbx = name b'S' b'B' b'X'
opcode_name Opcode.sha = name b'S' b'H' b'A'
opcode_name Opcode.shx = name b'S' b'H' b'X'
opcode_name Opcode.shy = name b'S' b'H' b'Y'
opcode_name Opcode.slo = name b'S' b'L' b'O'
opcode_name Opcode.sre = name b'S' b'R' b'E'
opcode_name Opcode.tas = name b'T' b'A' b'S'
opcode_name Opcode.ubc = name b'U' b'B' b'C'
opcode_name Opcode.jam = name b'J' b'A' b'M'
