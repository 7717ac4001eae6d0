-- ===== src/Driver/Image.antt =====
-- A file that the emulator supports, and what `mapper_init` of emulator/mapper.c takes from it.
use nes_emulator.Prelude.{
  ℕ, zero, suc, ◌+◌, ◌*◌, ◌≤◌, ◌≡◌, refl, ◌⊎◌, arith, Bytes, IsBytes, bit_and, truth, if◌then◌else◌,
  List, [], ◌∷◌,
}
use nes_emulator.State.{Emulator, Rom}
use nes_emulator.Outcome.{done, ◌>>=◌, pure, modify}
use nes_emulator.Mapper.{
  INesHeader, copy_header, read_ines_header, mapper_number, fill_mapper, mapper_init,
}
use nes_emulator.Mem.Rom.{rom_byte_lem}

-- the bytes of the file's header, field by field
abbrev pub header_of : Bytes → INesHeader
header_of bytes = record {
  magic = bytes 0 ∷ bytes 1 ∷ bytes 2 ∷ bytes 3 ∷ [];
  prg_rom_size = bytes 4;
  chr_rom_size = bytes 5;
  flags_6 = bytes 6;
  flags_7 = bytes 7;
  prg_ram_size = bytes 8;
  flags_9 = bytes 9;
  flags_10 = bytes 10;
}

-- where the first bank of code starts, and where the last one ends
abbrev pub prg_start : Bytes → ℕ
prg_start bytes = 16 + (if truth (bit_and (bytes 6) 0x04) then 512 else 0)

abbrev pub prg_end : Bytes → ℕ
prg_end bytes = prg_start bytes + bytes 4 * 0x4000

-- A file with the header of an NROM cartridge that holds all that the header tells of.
pub record IsImage (rom : Rom) : Type 0 where
  pub bytes : IsBytes rom.bytes
  pub n : rom.bytes 0 ≡ b'N'
  pub e : rom.bytes 1 ≡ b'E'
  pub s : rom.bytes 2 ≡ b'S'
  pub eof : rom.bytes 3 ≡ 0x1A
  pub banks : (rom.bytes 4 ≡ 1) ⊎ (rom.bytes 4 ≡ 2)
  pub nrom : mapper_number (header_of rom.bytes) ≡ 0
  pub code : prg_end rom.bytes ≤ rom.size
  pub patterns : 1 ≤ rom.bytes 5 → prg_end rom.bytes + 0x2000 ≤ rom.size

bytes_from : Bytes → ℕ → ℕ → List ℕ
bytes_from bytes zero i = []
bytes_from bytes (suc n) i = bytes i ∷ bytes_from bytes n (i + 1)

copy_header-done :
    (n i : ℕ) (e : Emulator)
    → i + n ≤ e.rom.size
    → copy_header n i e ≡ done (bytes_from e.rom.bytes n i, e)
unfolding copy_header pure ◌>>=◌ bytes_from
copy_header-done zero i e h = refl
copy_header-done (suc n) i e h =
    rw
      (
        copy_header,
        ◌>>=◌,
        rom_byte_lem i e (omega arith),
        copy_header-done n (i + 1) e (omega arith),
      )
      refl

read_ines_header-done :
    (e : Emulator) → IsImage e.rom → read_ines_header e ≡ done (header_of e.rom.bytes, e)
unfolding read_ines_header pure ◌>>=◌ bytes_from
read_ines_header-done e m =
    rw
      (
        read_ines_header,
        ◌>>=◌,
        copy_header-done 16 0 e (ground (arith, m.code)),
        m.n,
        m.e,
        m.s,
        m.eof,
      )
      refl

pub mapper_init-done :
    (e : Emulator)
    → IsImage e.rom
    → mapper_init e ≡ done (tt, record e { mapper = fill_mapper (header_of e.rom.bytes) e.mapper })
unfolding mapper_init ◌>>=◌
mapper_init-done e m = rw (mapper_init, ◌>>=◌, modify, read_ines_header-done e m, m.nrom) refl
