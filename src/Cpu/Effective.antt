-- ===== src/Cpu/Effective.antt =====
-- The operand's address in each addressing mode, as arithmetic on the bytes in memory, for
-- `set_address` of emulator/cpu.c: an independent description.
pub mod Pages
pub mod Laws
use nes_emulator.Prelude.{
  ℕ, ◌+◌, ◌-◌, ◌*◌, ◌/◌, ◌%◌, ◌≤◌, ◌<◌, ◌≡◌, refl, ap, ◌∙◌, ◌⊎◌, inl, inr, arith, bit_and, bit_or,
  lt→ltb, ltb, Bool, true, false, not, ◌&&◌, ◌==◌, add_size, if◌then◌else◌, u16, ◌<<<◌,
}
use nes_emulator.Prelude.Bits.{bit_and_mask, high_field, bit_or_fields, bit_or_fields_low}
use nes_emulator.State.{Emulator, Cpu}
use nes_emulator.State.Valid.{IsValid}
use nes_emulator.Outcome.{done, ◌>>=◌, pure, get_cpu, modify_cpu}
use nes_emulator.Mem.{mem_read_8, mem_read_16}
use nes_emulator.Mem.Ram.{mem_read_8-ram}
use nes_emulator.Mem.Rom.{mem_read_8-rom, HasBanks}
use nes_emulator.Opcodes.{
  Opcode, AddressMode, acc, abs, abx, aby, imm, imp, ind, xin, yin, rel, zp0, zpx, zpy, unk,
}
use nes_emulator.Cpu.Address.{sign_extend, put_address, put_indexed, read_zero_page_16, set_address}

-- the RAM, four times over, and the banks of the cartridge
pub data IsPlain (a : ℕ) : Type 0 where
  in_ram : a < 0x2000 → IsPlain a
  in_bank : 0x8000 ≤ a → a < 0x10000 → IsPlain a

-- the byte that is there
unfoldable pub seen : Emulator → ℕ → ℕ
seen e a =
    if ltb a 0x2000
    then e.mem.ram (a % 0x0800)
    else e.rom.bytes (e.mapper.prg_rom + (a - 0x8000) % (e.mapper.prg_rom_size * 0x4000))

abbrev pub word_at : (ℕ → ℕ) → ℕ → ℕ → ℕ
word_at memory low high = memory low + memory high * 256

-- the two bytes of an operand at `pc`
abbrev pub absolute : (ℕ → ℕ) → ℕ → ℕ
absolute memory pc = word_at memory pc ((pc + 1) % 65536)

-- the address after `a`, in the same page
abbrev pub next_in_page : ℕ → ℕ
next_in_page a = a / 256 * 256 + (a + 1) % 256

-- From the memory and the CPU, once the opcode is fetched.
unfoldable pub effective_address : AddressMode → (ℕ → ℕ) → Cpu → ℕ
effective_address acc memory c = c.address
effective_address imp memory c = c.address
effective_address unk memory c = c.address
effective_address imm memory c = c.pc
effective_address abs memory c = absolute memory c.pc
effective_address abx memory c = (absolute memory c.pc + c.x) % 65536
effective_address aby memory c = (absolute memory c.pc + c.y) % 65536
effective_address ind memory c =
    let pointer = absolute memory c.pc in word_at memory pointer (next_in_page pointer)
effective_address xin memory c =
    let pointer = (memory c.pc + c.x) % 256 in word_at memory pointer ((pointer + 1) % 256)
effective_address yin memory c =
    let pointer = memory c.pc in (word_at memory pointer ((pointer + 1) % 256) + c.y) % 65536
effective_address rel memory c =
    let offset = memory c.pc in
    (c.pc + 1 + (if ltb offset 0x80 then offset else 0xFF00 + offset)) % 65536
effective_address zp0 memory c = memory c.pc
effective_address zpx memory c = (memory c.pc + c.x) % 256
effective_address zpy memory c = (memory c.pc + c.y) % 256

-- how many bytes of operand follow the opcode
unfoldable pub operand_bytes : AddressMode → ℕ
operand_bytes acc = 0
operand_bytes imp = 0
operand_bytes unk = 0
operand_bytes abs = 2
operand_bytes abx = 2
operand_bytes aby = 2
operand_bytes ind = 2
operand_bytes other = 1

-- all opcodes but the fourteen that take no cycle more for a page that is crossed
unfoldable pub pays_for_page : Opcode → Bool
pays_for_page Opcode.sta = false
pays_for_page Opcode.asl = false
pays_for_page Opcode.dec = false
pays_for_page Opcode.inc = false
pays_for_page Opcode.lsr = false
pays_for_page Opcode.rol = false
pays_for_page Opcode.ror = false
pays_for_page Opcode.slo = false
pays_for_page Opcode.rla = false
pays_for_page Opcode.sre = false
pays_for_page Opcode.rra = false
pays_for_page Opcode.dcp = false
pays_for_page Opcode.isb = false
pays_for_page Opcode.shy = false
pays_for_page other = true

-- the index leads to another page
abbrev pub differs : ℕ → ℕ → Bool
differs base address = not (base / 256 == address / 256)

unfoldable pub crosses_page : AddressMode → (ℕ → ℕ) → Cpu → Bool
unfolding effective_address
crosses_page abx memory c = differs (absolute memory c.pc) (effective_address abx memory c)
crosses_page aby memory c = differs (absolute memory c.pc) (effective_address aby memory c)
crosses_page yin memory c =
    let pointer = memory c.pc in
    differs (word_at memory pointer ((pointer + 1) % 256)) (effective_address yin memory c)
crosses_page other memory c = false

abbrev pub with_address : ℕ → ℕ → ℕ → Cpu → Cpu
with_address address pc cycles c = record c { address = address; pc = pc; cycles = cycles }

-- The CPU once the address of the operand is found.
unfoldable pub addressed : Opcode → AddressMode → (ℕ → ℕ) → Cpu → Cpu
addressed o mode memory c =
    with_address (effective_address mode memory c) ((c.pc + operand_bytes mode) % 65536)
      (if crosses_page mode memory c && pays_for_page o then add_size c.cycles 1 else c.cycles) c

-- A state in which the operand, and what an indirect jump points at, lie in RAM or in a bank.
pub record IsReadable (mode : AddressMode) (e : Emulator) : Type 0 where
  pub valid : IsValid e
  pub banks : HasBanks e
  pub low : IsPlain e.cpu.pc
  pub high : IsPlain (u16 (e.cpu.pc + 1))
  pub pointer :
      mode ≡ ind
      → IsPlain (absolute (seen e) e.cpu.pc) × IsPlain (next_in_page (absolute (seen e) e.cpu.pc))

-- two bytes as a word
pub joined :
    (high low : ℕ) → high < 256 → low < 256 → u16 (bit_or (high <<< 8) low) ≡ low + high * 256
joined high low h k = omega (arith, bit_or_fields 8 high low k)

pub joined_low :
    (high low : ℕ) → high < 256 → low < 256 → bit_or low (high <<< 8) ≡ low + high * 256
joined_low high low h k = omega (arith, bit_or_fields_low 8 high low k)

after_bank : (a : ℕ) → 0x8000 ≤ a → ltb a 0x2000 ≡ false
after_bank a h = ground arith

pub low_byte : (x : ℕ) → bit_and x 0xFF ≡ x % 256
low_byte x = bit_and_mask 8 x

pub read-seen :
    (a : ℕ) (e : Emulator) → HasBanks e → IsPlain a → mem_read_8 a e ≡ done (seen e a, e)
unfolding seen
read-seen a e b (in_ram h) = rw (lt→ltb a 0x2000 h) (mem_read_8-ram a e h)
read-seen a e b (in_bank h k) = rw (after_bank a h) (mem_read_8-rom a e h k b.banks b.fits)

module _ (e : Emulator) (v : IsValid e) (b : HasBanks e) where
  pub seen-lt : (a : ℕ) → seen e a < 256
  unfolding seen
  seen-lt a = ground (
    arith,
    v.mem.ram.at (a % 0x0800),
    v.rom.at (e.mapper.prg_rom + (a - 0x8000) % (e.mapper.prg_rom_size * 0x4000)),
  )

  pub read_16-seen :
      (a : ℕ) → IsPlain a → IsPlain (u16 (a + 1)) → mem_read_16 a e ≡ done (absolute (seen e) a, e)
  unfolding mem_read_16 ◌>>=◌
  read_16-seen a h k =
      rw
        (
          mem_read_16,
          ◌>>=◌,
          pure,
          read-seen (u16 (a + 1)) e b k,
          read-seen a e b h,
          joined (seen e (u16 (a + 1))) (seen e a) (seen-lt _) (seen-lt _),
        )
        refl

  pub read_zero_page-seen :
      (a : ℕ) → a < 256 → read_zero_page_16 a e ≡ done (word_at (seen e) a ((a + 1) % 256), e)
  unfolding read_zero_page_16 ◌>>=◌
  read_zero_page-seen a h =
      rw
        (
          read_zero_page_16,
          ◌>>=◌,
          pure,
          read-seen a e b (in_ram (omega arith)),
          low_byte (a + 1),
          read-seen ((a + 1) % 256) e b (in_ram (omega arith)),
          joined_low (seen e ((a + 1) % 256)) (seen e a) (seen-lt _) (seen-lt _),
        )
        refl
