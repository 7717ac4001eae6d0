-- ===== src/Mapper/Valid.antt =====
-- The mapper's reads return bytes, and its write keeps the invariant.
use nes_emulator.Prelude.{ℕ, ◌<◌, IsBytes, update-IsBytes}
use nes_emulator.State.{ChrPointer, in_rom, in_chr_ram, Rom}
use nes_emulator.Outcome.{modify, gets}
use nes_emulator.Outcome.Ensures.{
  Ensures, Any, any, IsByte, Ensures-bind, Ensures-load, Ensures-store,
}
use nes_emulator.State.Valid.{IsValid, get_mapper-IsValid, valid_rules}
use nes_emulator.Mapper.{rom_byte, nrom_read_prg, read_chr_at, nrom_read_chr, nrom_write_chr_ram}

abbrev RomIsValid : Rom → Type 0
RomIsValid r = IsBytes r.bytes

get_rom-IsValid : Ensures IsValid RomIsValid (gets (λ e. e.rom))
unfolding gets
get_rom-IsValid = record { at = λ e v. (v.rom, v) }

pub rom_byte-IsByte : (i : ℕ) → Ensures IsValid IsByte (rom_byte i)
unfolding rom_byte
rom_byte-IsByte i =
    Ensures-bind _ _ get_rom-IsValid λ r v. Ensures-load r.size r.bytes i (λ _. v.at i)

-- `nrom_read_prg` returns a byte and keeps the invariant.
pub nrom_read_prg-IsByte : (address : ℕ) → Ensures IsValid IsByte (nrom_read_prg address)
unfolding nrom_read_prg
nrom_read_prg-IsByte address = search (valid_rules, rom_byte-IsByte)

read_chr_at-IsByte :
    (chr : ChrPointer) (address : ℕ) → Ensures IsValid IsByte (read_chr_at chr address)
unfolding read_chr_at
read_chr_at-IsByte (in_rom offset) address = rom_byte-IsByte _
read_chr_at-IsByte in_chr_ram address =
    Ensures-bind _ _ get_mapper-IsValid
      λ m v. Ensures-load 0x2000 m.chr_ram address (λ _. v.chr_ram.at address)

pub nrom_read_chr-IsByte : (address : ℕ) → Ensures IsValid IsByte (nrom_read_chr address)
unfolding nrom_read_chr
nrom_read_chr-IsByte address =
    Ensures-bind _ _ get_mapper-IsValid λ m v. read_chr_at-IsByte m.chr_rom address

pub nrom_write_chr_ram-IsValid :
    (address value : ℕ) → value < 256 → Ensures IsValid Any (nrom_write_chr_ram address value)
unfolding nrom_write_chr_ram modify
nrom_write_chr_ram-IsValid address value h = Ensures-store 0x2000 address _ (λ _. record {
  at = λ e v. (
    any,
    record {
      cpu = v.cpu;
      ppu = v.ppu;
      mem = v.mem;
      mapper = record {
        chr_ram = update-IsBytes e.mapper.chr_ram address value v.mapper.chr_ram h;
        nametables = v.mapper.nametables;
      };
      rom = v.rom;
    },
  );
})
