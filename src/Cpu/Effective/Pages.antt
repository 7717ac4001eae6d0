-- ===== src/Cpu/Effective/Pages.antt =====
-- The cycle that a crossed page takes.
use nes_emulator.Prelude.{
  ℕ, ◌+◌, ◌*◌, ◌/◌, ◌%◌, ◌<◌, ◌≡◌, refl, ◌∙◌, arith, Bool, true, false, not, ◌&&◌, ◌==◌, bit_and,
  if◌then◌else◌, add_size,
}
use nes_emulator.Prelude.Bits.{bit_and_mask, high_field}
use nes_emulator.State.{Cpu}
use nes_emulator.Opcodes.{Opcode}
use nes_emulator.Cpu.Address.{crosses_page_borders_by_opcode, put_indexed, put_address}
use nes_emulator.Cpu.Effective.{pays_for_page, differs, with_address}

-- a page, and a place in it
in_page : (a : ℕ) → a ≡ a / 256 * 256 + a % 256
in_page a = omega arith

pub high_byte : (a : ℕ) → a < 65536 → bit_and a 0xFF00 ≡ a / 256 * 256
high_byte a h =
    rw (in_page a)
      (high_field 8 (a / 256) (a % 256) 255 (omega arith) ∙ omega (arith, bit_and_mask 8 (a / 256)))

same_number : (a b : ℕ) → (a * 256 == b * 256) ≡ (a == b)
same_number a b = ground arith

high_bytes :
    (a b : ℕ) → a < 65536 → b < 65536 → not (bit_and a 0xFF00 == bit_and b 0xFF00) ≡ differs a b
high_bytes a b h k = rw (high_byte a h, high_byte b k, same_number (a / 256) (b / 256)) refl

by_opcode :
    (a b : ℕ) (o : Opcode)
    → crosses_page_borders_by_opcode a b o
      ≡ (if pays_for_page o then not (bit_and a 0xFF00 == bit_and b 0xFF00) else false)
unfolding crosses_page_borders_by_opcode pays_for_page
by_opcode a b Opcode.adc = refl
by_opcode a b Opcode.and = refl
by_opcode a b Opcode.asl = refl
by_opcode a b Opcode.bcc = refl
by_opcode a b Opcode.bcs = refl
by_opcode a b Opcode.beq = refl
by_opcode a b Opcode.bit = refl
by_opcode a b Opcode.bmi = refl
by_opcode a b Opcode.bne = refl
by_opcode a b Opcode.bpl = refl
by_opcode a b Opcode.brk = refl
by_opcode a b Opcode.bvc = refl
by_opcode a b Opcode.bvs = refl
by_opcode a b Opcode.clc = refl
by_opcode a b Opcode.cld = refl
by_opcode a b Opcode.cli = refl
by_opcode a b Opcode.clv = refl
by_opcode a b Opcode.cmp = refl
by_opcode a b Opcode.cpx = refl
by_opcode a b Opcode.cpy = refl
by_opcode a b Opcode.dec = refl
by_opcode a b Opcode.dex = refl
by_opcode a b Opcode.dey = refl
by_opcode a b Opcode.eor = refl
by_opcode a b Opcode.inc = refl
by_opcode a b Opcode.inx = refl
by_opcode a b Opcode.iny = refl
by_opcode a b Opcode.jmp = refl
by_opcode a b Opcode.jsr = refl
by_opcode a b Opcode.lda = refl
by_opcode a b Opcode.ldx = refl
by_opcode a b Opcode.ldy = refl
by_opcode a b Opcode.lsr = refl
by_opcode a b Opcode.nop = refl
by_opcode a b Opcode.ora = refl
by_opcode a b Opcode.pha = refl
by_opcode a b Opcode.php = refl
by_opcode a b Opcode.pla = refl
by_opcode a b Opcode.plp = refl
by_opcode a b Opcode.rol = refl
by_opcode a b Opcode.ror = refl
by_opcode a b Opcode.rti = refl
by_opcode a b Opcode.rts = refl
by_opcode a b Opcode.sbc = refl
by_opcode a b Opcode.sec = refl
by_opcode a b Opcode.sed = refl
by_opcode a b Opcode.sei = refl
by_opcode a b Opcode.sta = refl
by_opcode a b Opcode.stx = refl
by_opcode a b Opcode.sty = refl
by_opcode a b Opcode.tax = refl
by_opcode a b Opcode.tay = refl
by_opcode a b Opcode.tsx = refl
by_opcode a b Opcode.txa = refl
by_opcode a b Opcode.txs = refl
by_opcode a b Opcode.tya = refl
by_opcode a b Opcode.alr = refl
by_opcode a b Opcode.anc = refl
by_opcode a b Opcode.an2 = refl
by_opcode a b Opcode.ane = refl
by_opcode a b Opcode.arr = refl
by_opcode a b Opcode.dcp = refl
by_opcode a b Opcode.isb = refl
by_opcode a b Opcode.las = refl
by_opcode a b Opcode.lax = refl
by_opcode a b Opcode.lxa = refl
by_opcode a b Opcode.rla = refl
by_opcode a b Opcode.rra = refl
by_opcode a b Opcode.sax = refl
by_opcode a b Opcode.sbx = refl
by_opcode a b Opcode.sha = refl
by_opcode a b Opcode.shx = refl
by_opcode a b Opcode.shy = refl
by_opcode a b Opcode.slo = refl
by_opcode a b Opcode.sre = refl
by_opcode a b Opcode.tas = refl
by_opcode a b Opcode.ubc = refl
by_opcode a b Opcode.jam = refl

both : (b c : Bool) → (if b then c else false) ≡ (c && b)
both true true = refl
both true false = refl
both false true = refl
both false false = refl

crosses :
    (a b : ℕ) (o : Opcode)
    → a < 65536
    → b < 65536
    → crosses_page_borders_by_opcode a b o ≡ (differs a b && pays_for_page o)
crosses a b o h k = by_opcode a b o ∙ rw (high_bytes a b h k) (both (pays_for_page o) (differs a b))

if_cycles :
    (b : Bool) (c : Cpu)
    → (if b then record c { cycles = add_size c.cycles 1 } else c)
      ≡ record c { cycles = if b then add_size c.cycles 1 else c.cycles }
if_cycles true c = refl
if_cycles false c = refl

pub put_indexed-fields :
    (base index n : ℕ) (o : Opcode) (c : Cpu)
    → base < 65536
    → put_indexed base index n o c
      ≡ with_address
          ((base + index) % 65536)
          ((c.pc + n) % 65536)
          (if differs base ((base + index) % 65536) && pays_for_page o
            then add_size c.cycles 1
            else c.cycles)
          c
unfolding put_indexed put_address
put_indexed-fields base index n o c h =
    rw (crosses base ((base + index) % 65536) o h (omega arith))
      (if_cycles _ (put_address (base + index) n c))
