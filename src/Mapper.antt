-- ===== src/Mapper.antt =====
-- emulator/mapper.c: the iNES header and the NROM mapper. `char magic[4]` is compared as bytes.
pub mod Valid
pub mod Laws
use nes_emulator.Prelude.{
  ℕ, zero, suc, ◌+◌, ◌-◌, ◌*◌, ◌%◌, bit_and, bit_or, Bool, true, false, not, ◌&&◌, List, [], ◌∷◌,
  get_or, update, ltb, ◌==◌, truth, if◌then◌else◌, ◌>>>◌,
}
use nes_emulator.State.{
  Emulator, Mapper, Mirroring, ChrPointer, vertical, horizontal, single_screen_lower,
  single_screen_upper, four_screen, in_rom, in_chr_ram,
}
use nes_emulator.Outcome.{
  Run, out_of_bounds, pure, exit_failure, ◌>>=◌, ◌>>◌, gets, modify, load, store,
}

-- `iNES_Header`, without `unused`
pub record INesHeader : Type 0 where
  pub magic : List ℕ
  pub prg_rom_size : ℕ
  pub chr_rom_size : ℕ
  pub flags_6 : ℕ
  pub flags_7 : ℕ
  pub prg_ram_size : ℕ
  pub flags_9 : ℕ
  pub flags_10 : ℕ

-- a read of the buffer that holds the rom
unfoldable pub rom_byte : ℕ → Run ℕ
rom_byte i = do rom ← gets (λ e. e.rom); load rom.size rom.bytes i

-- the loop that copies the header: `n` bytes from index `i` on
unfoldable pub copy_header : ℕ → ℕ → Run (List ℕ)
copy_header zero i = pure []
copy_header (suc n) i = do b ← rom_byte i; bs ← copy_header n (i + 1); pure (b ∷ bs)

unfoldable pub read_ines_header : Run INesHeader
read_ines_header = do
  b ← copy_header 16 0
  if not (
        get_or b 0 0 == b'N'
        && get_or b 1 0 == b'E'
        && get_or b 2 0 == b'S'
        && get_or b 3 0 == 0x1A)
      then exit_failure
      else pure (record {
        magic = get_or b 0 0 ∷ get_or b 1 0 ∷ get_or b 2 0 ∷ get_or b 3 0 ∷ [];
        prg_rom_size = get_or b 4 0;
        chr_rom_size = get_or b 5 0;
        flags_6 = get_or b 6 0;
        flags_7 = get_or b 7 0;
        prg_ram_size = get_or b 8 0;
        flags_9 = get_or b 9 0;
        flags_10 = get_or b 10 0;
      })

unfoldable pub set_nametable_mapping : ℕ → ℕ → ℕ → ℕ → Mapper → Mapper
set_nametable_mapping top_left top_right bottom_left bottom_right m = record m {
  nametable_map =
      update (update (update (update m.nametable_map 0 top_left) 1 top_right) 2 bottom_left) 3
        bottom_right;
}

unfoldable pub set_mirroring : Mirroring → Mapper → Mapper
set_mirroring horizontal m = record (set_nametable_mapping 0x0000 0x0000 0x0800 0x0800 m) {
  mirroring = horizontal;
}
set_mirroring vertical m = record (set_nametable_mapping 0x0000 0x0400 0x0000 0x0400 m) {
  mirroring = vertical;
}
set_mirroring four_screen m = record (set_nametable_mapping 0x0000 0x0400 0x0800 0x0C00 m) {
  mirroring = four_screen;
}
set_mirroring other m = record (set_nametable_mapping 0 0 0 0 m) { mirroring = other }

-- the mirroring that `mapper_init` takes from the header
unfoldable pub header_mirroring : INesHeader → Mirroring
header_mirroring h =
    if truth (bit_and h.flags_6 0x03)
    then four_screen
    else if truth (bit_and h.flags_6 0x01)
    then vertical
    else horizontal

-- the fields that `mapper_init` writes before it looks at the number of the mapper
unfoldable pub fill_mapper : INesHeader → Mapper → Mapper
fill_mapper h m =
    let mirrored = set_mirroring (header_mirroring h) m in
    let trainer_offset : ℕ = if truth (bit_and h.flags_6 0x04) then 512 else 0 in
    let prg_rom : ℕ = 16 + trainer_offset in
    record mirrored {
      prg_rom_size = h.prg_rom_size;
      prg_ram_size = h.prg_ram_size;
      chr_rom_size = h.chr_rom_size;
      has_battery_backed_ram = if truth (bit_and h.flags_6 0x04) then 1 else 0;
      has_trainer = if truth (bit_and h.flags_6 0x02) then 1 else 0;
      prg_rom = prg_rom;
      chr_rom =
          if ltb 0 h.chr_rom_size
          then in_rom (prg_rom + h.prg_rom_size * 16 * 1024)
          else in_chr_ram;
    }

abbrev pub mapper_number : INesHeader → ℕ
mapper_number h = bit_or (bit_and h.flags_7 0xF0) (h.flags_6 >>> 4)

-- every mapper but NROM, number 0, ends the program
unfoldable pub mapper_init : Run (Unit {0})
mapper_init = do
  h ← read_ines_header
  modify (λ e. record e { mapper = fill_mapper h e.mapper })
  if mapper_number h == 0 then pure tt else exit_failure

-- `prg_rom[address - 0x8000]` is before the array for a lower address
unfoldable pub nrom_read_prg : ℕ → Run ℕ
nrom_read_prg address = do
  m ← gets (λ e. e.mapper)
  if m.prg_rom_size == 1
      then rom_byte (m.prg_rom + address % 0x4000)
      else if ltb address 0x8000
      then out_of_bounds
      else rom_byte (m.prg_rom + (address - 0x8000))

-- an array of 0x2000 bytes, or the rest of the rom's buffer
unfoldable pub read_chr_at : ChrPointer → ℕ → Run ℕ
read_chr_at (in_rom offset) address = rom_byte (offset + address)
read_chr_at in_chr_ram address = do m ← gets (λ e. e.mapper); load 0x2000 m.chr_ram address

unfoldable pub nrom_read_chr : ℕ → Run ℕ
nrom_read_chr address = do m ← gets (λ e. e.mapper); read_chr_at m.chr_rom address

unfoldable pub nrom_write_chr_ram : ℕ → ℕ → Run (Unit {0})
nrom_write_chr_ram address value = store 0x2000 address (
    modify (λ e. record e {
      mapper = record e.mapper { chr_ram = update e.mapper.chr_ram address value };
    }))
