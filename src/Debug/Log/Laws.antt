-- ===== src/Debug/Log/Laws.antt =====
-- The column of the addressing mode in the log.
use nes_emulator.Prelude.{
  Bytes, ℕ, zero, suc, ◌+◌, ◌-◌, ◌≤◌, ◌≡◌, refl, arith, List, [], ◌∷◌, ◌++◌, length,
}
use nes_emulator.Outcome.{Run, pure, ◌>>=◌, gets, get_cpu, load}
use nes_emulator.Outcome.Ensures.{
  Holds, Ensures, bind-Any, Ensures-gets, Ensures-load, Ensures-out_of_bounds, Any, any,
  Ensures-bind, Ensures-pure, Ensures-if,
}
use nes_emulator.State.{Cpu, Emulator, ChrPointer, in_rom, in_chr_ram}
use nes_emulator.Mapper.{rom_byte, read_chr_at, nrom_read_chr, nrom_read_prg}
use nes_emulator.Ppu.Vram.{calculate_vram_index, ppu_const_read_vram_data}
use nes_emulator.Mem.{read_cartridge_ram, mem_const_read_8}
use nes_emulator.Opcodes.{AddressMode, Instruction}
use nes_emulator.Debug.Log.{
  Operand, log_operand, log_mode, log_value, blanks, hex_2, log_address_mode_info,
}

pub length-append : (xs ys : List ℕ) → length (xs ++ ys) ≡ length xs + length ys
length-append [] ys = omega arith
length-append (x ∷ xs) ys = omega (arith, length-append xs ys)

length-blanks : (n : ℕ) → length (blanks n) ≡ n
length-blanks zero = refl
length-blanks (suc n) = omega (arith, length-blanks n)

-- The width is that of the text, and leaves room in the column.
record IsMeasured (o : Operand) : Type 0 where
  exact : o.width ≡ length o.printed
  small : o.width ≤ 22

module _ (e : Emulator) where
  abbrev pub Same : Emulator → Type 0
  Same e' = e' ≡ e

  pub ask : {A : Type 0} (f : Emulator → A) → Ensures Same Any (gets f)
  ask f = Ensures-gets f λ _ _. any

  return : {A : Type 0} (a : A) → Ensures Same Any (pure a)
  return a = Ensures-pure a any

  read_array : (size : ℕ) (f : Bytes) (i : ℕ) → Ensures Same Any (load size f i)
  read_array size f i = Ensures-load size f i λ _. any

  rom_byte-Same : (i : ℕ) → Ensures Same Any (rom_byte i)
  unfolding rom_byte
  rom_byte-Same i = search (bind-Any, ask, read_array) depth 5

  read_chr_at-Same : (r : ChrPointer) (a : ℕ) → Ensures Same Any (read_chr_at r a)
  unfolding read_chr_at
  read_chr_at-Same (in_rom offset) a = rom_byte-Same (offset + a)
  read_chr_at-Same in_chr_ram a = search (bind-Any, ask, read_array) depth 5

  nrom_read_chr-Same : (a : ℕ) → Ensures Same Any (nrom_read_chr a)
  unfolding nrom_read_chr
  nrom_read_chr-Same a = search (bind-Any, ask, read_chr_at-Same) depth 5

  nrom_read_prg-Same : (a : ℕ) → Ensures Same Any (nrom_read_prg a)
  unfolding nrom_read_prg
  nrom_read_prg-Same a =
      search (Ensures-if, bind-Any, ask, rom_byte-Same, Ensures-out_of_bounds) depth 8

  index-Same : (a : ℕ) → Ensures Same Any (calculate_vram_index a)
  unfolding calculate_vram_index
  index-Same a = search (Ensures-if, bind-Any, ask, return, read_array) depth 9

  read_vram-Same : (a : ℕ) → Ensures Same Any (ppu_const_read_vram_data a)
  unfolding ppu_const_read_vram_data
  read_vram-Same a =
      search (Ensures-if, bind-Any, ask, return, read_array, nrom_read_chr-Same, index-Same) depth
        12

  read_cartridge_ram-Same : (a : ℕ) → Ensures Same Any (read_cartridge_ram a)
  unfolding read_cartridge_ram
  read_cartridge_ram-Same a =
      search (Ensures-if, bind-Any, ask, read_array, Ensures-out_of_bounds) depth 8

  pub const_read-Same : (a : ℕ) → Ensures Same Any (mem_const_read_8 a)
  unfolding mem_const_read_8
  const_read-Same a =
      search
        (
          Ensures-if, bind-Any, ask, return, read_array, read_vram-Same, read_cartridge_ram-Same,
          nrom_read_prg-Same,
        )
        depth 14

  plain :
      (o : Operand) → o.width ≡ length o.printed → o.width ≤ 22 → Ensures Same IsMeasured (pure o)
  plain o h k = Ensures-pure o (record { exact = h; small = k })

  after_reads :
      (a b : ℕ) (f : ℕ → ℕ → Run Operand)
      → ((m n : ℕ) → Ensures Same IsMeasured (f m n))
      → Ensures Same IsMeasured (mem_const_read_8 a >>= λ m. mem_const_read_8 b >>= λ n. f m n)
  after_reads a b f k =
      bind-Any _ _ (const_read-Same a) λ m. bind-Any _ _ (const_read-Same b) λ n. k m n

  log_operand-IsMeasured :
      (m : AddressMode) (byte1 byte2 : ℕ) (c : Cpu)
      → Ensures Same IsMeasured (log_operand m byte1 byte2 c)
  unfolding log_operand
  log_operand-IsMeasured AddressMode.acc byte1 byte2 c = plain _ refl (omega arith)
  log_operand-IsMeasured AddressMode.ind byte1 byte2 c =
      after_reads _ _ _ λ _ _. plain _ refl (omega arith)
  log_operand-IsMeasured AddressMode.abs byte1 byte2 c = plain _ refl (omega arith)
  log_operand-IsMeasured AddressMode.abx byte1 byte2 c = plain _ refl (omega arith)
  log_operand-IsMeasured AddressMode.aby byte1 byte2 c = plain _ refl (omega arith)
  log_operand-IsMeasured AddressMode.imm byte1 byte2 c = plain _ refl (omega arith)
  log_operand-IsMeasured AddressMode.imp byte1 byte2 c = plain _ refl (omega arith)
  log_operand-IsMeasured AddressMode.rel byte1 byte2 c = plain _ refl (omega arith)
  log_operand-IsMeasured AddressMode.zp0 byte1 byte2 c = plain _ refl (omega arith)
  log_operand-IsMeasured AddressMode.zpx byte1 byte2 c = plain _ refl (omega arith)
  log_operand-IsMeasured AddressMode.zpy byte1 byte2 c = plain _ refl (omega arith)
  log_operand-IsMeasured AddressMode.unk byte1 byte2 c = plain _ refl (omega arith)
  log_operand-IsMeasured AddressMode.xin byte1 byte2 c =
      after_reads _ _ _ λ _ _. plain _ refl (omega arith)
  log_operand-IsMeasured AddressMode.yin byte1 byte2 c =
      after_reads _ _ _ λ _ _. plain _ refl (omega arith)

  -- the width of a line so far
  abbrev IsShown : Operand → Type 0
  IsShown o = (o.width ≡ length o.printed) × (o.width ≤ 26)

  four_more :
      (o : Operand) (value : ℕ)
      → IsMeasured o
      → IsShown (record {
        address = o.address;
        printed = o.printed ++ (b'=' ∷ b' ' ∷ hex_2 value);
        width = o.width + 4;
      })
  four_more o value h = (
    omega (arith, h.exact, length-append o.printed (b'=' ∷ b' ' ∷ hex_2 value)),
    omega (arith, h.small),
  )

  bare : (o : Operand) → IsMeasured o → Ensures Same IsShown (pure o)
  bare o h = Ensures-pure o (h.exact, omega (arith, h.small))

  shown : (o : Operand) → IsShown o → Ensures Same IsShown (pure o)
  shown o h = Ensures-pure o h

  log_value-IsShown :
      (i : Instruction) (o : Operand) → IsMeasured o → Ensures Same IsShown (log_value i o)
  unfolding log_value
  log_value-IsShown i o h =
      search (Ensures-if, bind-Any, shown, const_read-Same, four_more, bare o h) depth 7

  padded : (o : Operand) → IsShown o → length (o.printed ++ blanks (28 - o.width)) ≡ 28
  padded o h = omega (
    arith,
    length-append o.printed (blanks (28 - o.width)),
    length-blanks (28 - o.width),
    h.0,
    h.1,
  )

  abbrev pub IsWhole : List ℕ → Type 0
  IsWhole text = length text ≡ 28

  log_mode-IsMeasured : (m : AddressMode) → Ensures Same IsMeasured (log_mode m)
  unfolding log_mode get_cpu gets
  log_mode-IsMeasured m =
      bind-Any _ _ (ask (λ e. e.cpu))
        λ c. after_reads _ _ _ λ byte1 byte2. log_operand-IsMeasured m byte1 byte2 c

  pub column-Same : (i : Instruction) → Ensures Same IsWhole (log_address_mode_info i)
  unfolding log_address_mode_info
  column-Same i =
      Ensures-bind _ _ (log_mode-IsMeasured i.address_mode)
        λ o m. Ensures-bind _ _ (log_value-IsShown i o m) λ shown k. Ensures-pure _ (padded shown k)

-- The text about the addressing mode, where its reads return, is 28 characters long for each
-- instruction, and the log leaves the emulator as it was.
pub log_address_mode_info_lem :
    (i : Instruction) (e : Emulator)
    → Holds (λ e'. e' ≡ e) (λ text. length text ≡ 28) (log_address_mode_info i e)
log_address_mode_info_lem i e = (column-Same e i).at e refl
