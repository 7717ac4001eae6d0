-- ===== src/Cpu/Effective/Laws.antt =====
-- `set_address` of emulator/cpu.c and the description of the addressing modes.
use nes_emulator.Prelude.{
  ℕ, ◌+◌, ◌*◌, ◌/◌, ◌%◌, ◌<◌, ◌≡◌, refl, ap, ◌∙◌, arith, bit_and, bit_or, ltb, if◌then◌else◌, u16,
}
use nes_emulator.Prelude.Bits.{bit_and_mask, bit_or_fields}
use nes_emulator.State.{Emulator, Cpu}
use nes_emulator.Outcome.{done, ◌>>=◌, get_cpu, modify_cpu}
use nes_emulator.Mem.{mem_read_8, mem_read_16}
use nes_emulator.Opcodes.{
  Opcode, AddressMode, acc, abs, abx, aby, imm, imp, ind, xin, yin, rel, zp0, zpx, zpy, unk,
}
use nes_emulator.Cpu.Address.{sign_extend, put_address, put_indexed, read_zero_page_16, set_address}
use nes_emulator.Cpu.Effective.Pages.{high_byte, put_indexed-fields}
use nes_emulator.Cpu.Effective.{
  word_at, absolute, next_in_page, seen, effective_address, operand_bytes, crosses_page,
  with_address, addressed, IsReadable, seen-lt, read-seen, read_16-seen, read_zero_page-seen,
  joined_low, low_byte,
}

abbrev Finds : Opcode → AddressMode → Emulator → Type 0
Finds o mode e =
    set_address o mode e ≡ done (tt, record e { cpu = addressed o mode (seen e) e.cpu })

put_address-fields :
    (address n address' : ℕ) (c : Cpu)
    → address % 65536 ≡ address'
    → put_address address n c ≡ with_address address' ((c.pc + n) % 65536) c.cycles c
unfolding put_address
put_address-fields address n address' c h =
    ap (λ a. with_address a ((c.pc + n) % 65536) c.cycles c) h

pub word-small : (low high : ℕ) → low < 256 → high < 256 → low + high * 256 < 65536
word-small low high h k = omega arith

pub word-lt :
    (low high : ℕ) → low < 256 → high < 256 → (low + high * 256) % 65536 ≡ low + high * 256
word-lt low high h k = omega arith

byte-lt : (n : ℕ) → n < 256 → n % 65536 ≡ n
byte-lt n h = omega arith

low_byte_16 : (x : ℕ) → bit_and (u16 x) 0xFF ≡ x % 256
low_byte_16 x = omega (arith, bit_and_mask 8 (u16 x))

pub same_page :
    (a : ℕ) → a < 65536 → bit_or (bit_and a 0xFF00) (bit_and (a + 1) 0xFF) ≡ next_in_page a
same_page a h =
    let low = bit_or_fields 8 (a / 256) ((a + 1) % 256) (omega arith) in
    rw (low_byte (a + 1), high_byte a h) low

branch_target :
    (pc offset : ℕ)
    → offset < 256
    → (u16 (pc + 1) + sign_extend offset) % 65536
      ≡ (pc + 1 + (if ltb offset 0x80 then offset else 0xFF00 + offset)) % 65536
branch_target pc offset h = ground arith

module _ (o : Opcode) (e : Emulator) where
  still :
      (mode : AddressMode)
      → IsReadable mode e
      → e.cpu ≡ with_address e.cpu.address ((e.cpu.pc + 0) % 65536) e.cpu.cycles e.cpu
  still mode r =
      ap (λ pc. with_address e.cpu.address pc e.cpu.cycles e.cpu) (omega (arith, r.valid.cpu.pc))

  leads_to :
      (mode : AddressMode) (c : Cpu)
      → set_address o mode e ≡ done (tt, record e { cpu = c })
      → c ≡ addressed o mode (seen e) e.cpu
      → Finds o mode e
  leads_to mode c h k = h ∙ ap (λ c'. done (tt, record e { cpu = c' })) k

  -- `set_address` as the CPU has the two bytes of the operand, or the one
  module _ (mode : AddressMode) (r : IsReadable mode e) where
    byte : mem_read_8 e.cpu.pc e ≡ done (seen e e.cpu.pc, e)
    byte = read-seen e.cpu.pc e r.banks r.low

    bytes : mem_read_16 e.cpu.pc e ≡ done (absolute (seen e) e.cpu.pc, e)
    bytes = read_16-seen e r.valid r.banks e.cpu.pc r.low r.high

    byte-IsByte : (a : ℕ) → seen e a < 256
    byte-IsByte a = seen-lt e r.valid r.banks a

    pointed :
        (a : ℕ) → a < 256 → read_zero_page_16 a e ≡ done (word_at (seen e) a ((a + 1) % 256), e)
    pointed a h = read_zero_page-seen e r.valid r.banks a h

  address-found : (mode : AddressMode) → IsReadable mode e → Finds o mode e
  unfolding set_address ◌>>=◌ addressed effective_address operand_bytes crosses_page
  address-found acc r = leads_to acc e.cpu refl (still acc r)
  address-found imp r = leads_to imp e.cpu refl (still imp r)
  address-found unk r = leads_to unk e.cpu refl (still unk r)
  address-found imm r =
      leads_to imm (put_address e.cpu.pc 1 e.cpu) refl
        (put_address-fields e.cpu.pc 1 _ e.cpu (omega (arith, r.valid.cpu.pc)))
  address-found abs r =
      leads_to abs (put_address (absolute (seen e) e.cpu.pc) 2 e.cpu)
        (rw (get_cpu, ◌>>=◌, modify_cpu, bytes abs r) refl)
        (put_address-fields (absolute (seen e) e.cpu.pc) 2 _ e.cpu
          (word-lt _ _ (byte-IsByte abs r _) (byte-IsByte abs r _)))
  address-found abx r =
      leads_to abx (put_indexed (absolute (seen e) e.cpu.pc) e.cpu.x 2 o e.cpu)
        (rw (get_cpu, ◌>>=◌, modify_cpu, bytes abx r) refl)
        (put_indexed-fields (absolute (seen e) e.cpu.pc) e.cpu.x 2 o e.cpu
          (word-small _ _ (byte-IsByte abx r _) (byte-IsByte abx r _)))
  address-found aby r =
      leads_to aby (put_indexed (absolute (seen e) e.cpu.pc) e.cpu.y 2 o e.cpu)
        (rw (get_cpu, ◌>>=◌, modify_cpu, bytes aby r) refl)
        (put_indexed-fields (absolute (seen e) e.cpu.pc) e.cpu.y 2 o e.cpu
          (word-small _ _ (byte-IsByte aby r _) (byte-IsByte aby r _)))
  address-found zp0 r =
      leads_to zp0 (put_address (seen e e.cpu.pc) 1 e.cpu)
        (rw (get_cpu, ◌>>=◌, modify_cpu, byte zp0 r) refl)
        (put_address-fields (seen e e.cpu.pc) 1 _ e.cpu (byte-lt _ (byte-IsByte zp0 r _)))
  address-found zpx r =
      leads_to zpx (put_address ((seen e e.cpu.pc + e.cpu.x) % 256) 1 e.cpu)
        (rw (get_cpu, ◌>>=◌, modify_cpu, byte zpx r, low_byte_16 (seen e e.cpu.pc + e.cpu.x)) refl)
        (put_address-fields ((seen e e.cpu.pc + e.cpu.x) % 256) 1 _ e.cpu (byte-lt _ (omega arith)))
  address-found zpy r =
      leads_to zpy (put_address ((seen e e.cpu.pc + e.cpu.y) % 256) 1 e.cpu)
        (rw (get_cpu, ◌>>=◌, modify_cpu, byte zpy r, low_byte_16 (seen e e.cpu.pc + e.cpu.y)) refl)
        (put_address-fields ((seen e e.cpu.pc + e.cpu.y) % 256) 1 _ e.cpu (byte-lt _ (omega arith)))
  address-found rel r =
      leads_to rel (put_address (u16 (e.cpu.pc + 1) + sign_extend (seen e e.cpu.pc)) 1 e.cpu)
        (rw (get_cpu, ◌>>=◌, modify_cpu, byte rel r) refl)
        (put_address-fields (u16 (e.cpu.pc + 1) + sign_extend (seen e e.cpu.pc)) 1 _ e.cpu
          (branch_target e.cpu.pc (seen e e.cpu.pc) (byte-IsByte rel r _)))
  address-found xin r =
      let pointer = (seen e e.cpu.pc + e.cpu.x) % 256 in
      let base = word_at (seen e) pointer ((pointer + 1) % 256) in
      leads_to xin (put_address base 1 e.cpu)
        (rw
          (
            get_cpu,
            ◌>>=◌,
            modify_cpu,
            byte xin r,
            low_byte (seen e e.cpu.pc + e.cpu.x),
            pointed xin r pointer (omega arith),
          )
          refl)
        (put_address-fields base 1 _ e.cpu
          (word-lt _ _ (byte-IsByte xin r _) (byte-IsByte xin r _)))
  address-found yin r =
      let pointer = seen e e.cpu.pc in
      let base = word_at (seen e) pointer ((pointer + 1) % 256) in
      leads_to yin (put_indexed base e.cpu.y 1 o e.cpu)
        (rw (get_cpu, ◌>>=◌, modify_cpu, byte yin r, pointed yin r pointer (byte-IsByte yin r _))
          refl)
        (put_indexed-fields base e.cpu.y 1 o e.cpu
          (word-small _ _ (byte-IsByte yin r _) (byte-IsByte yin r _)))
  address-found ind r =
      let pointer = absolute (seen e) e.cpu.pc in
      let target = r.pointer refl in
      let address = word_at (seen e) pointer (next_in_page pointer) in
      let fits = word-small _ _ (byte-IsByte ind r _) (byte-IsByte ind r _) in
      leads_to ind (put_address address 2 e.cpu)
        (rw
          (
            get_cpu,
            ◌>>=◌,
            modify_cpu,
            bytes ind r,
            read-seen pointer e r.banks target.0,
            same_page pointer fits,
            read-seen (next_in_page pointer) e r.banks target.1,
            joined_low (seen e (next_in_page pointer)) (seen e pointer) (byte-IsByte ind r _)
                (byte-IsByte ind r _),
          )
          refl)
        (put_address-fields address 2 _ e.cpu
          (word-lt _ _ (byte-IsByte ind r _) (byte-IsByte ind r _)))

-- In each addressing mode, for each opcode: where the operand lies in RAM or in a bank of the
-- cartridge, and an indirect jump's pointer too, the code returns. It changes nothing but the CPU:
-- it leaves the address that the mode describes, moves past the operand's bytes, and adds a cycle
-- where an index leads to another page, but for fourteen opcodes.
pub set_address_lem :
    (o : Opcode) (mode : AddressMode) (e : Emulator)
    → IsReadable mode e
    → set_address o mode e ≡ done (tt, record e { cpu = addressed o mode (seen e) e.cpu })
set_address_lem o mode e r = address-found o e mode r
