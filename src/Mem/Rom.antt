-- ===== src/Mem/Rom.antt =====
-- The cartridge's ROM from 0x8000 on as the CPU sees it.
use nes_emulator.Prelude.{ℕ, ◌+◌, ◌-◌, ◌%◌, ◌≤◌, ◌<◌, ◌≡◌, ◌⊎◌, inl, inr, ap, ◌∙◌, ◌*◌, arith}
use nes_emulator.State.{Emulator}
use nes_emulator.Outcome.{done, ◌>>=◌, load}
use nes_emulator.Mapper.{rom_byte, nrom_read_prg}
use nes_emulator.Mem.{mem_read_8}

pub rom_byte_lem : (i : ℕ) (e : Emulator) → i < e.rom.size → rom_byte i e ≡ done (e.rom.bytes i, e)
unfolding rom_byte load ◌>>=◌
rom_byte_lem i e h = ground arith

-- A cartridge with one bank of 16 KiB shows it twice: addresses of equal remainder modulo 0x4000
-- read the same byte of the bank, and nothing changes.
pub mem_read_8-one_bank :
    (a : ℕ) (e : Emulator)
    → 0x8000 ≤ a
    → e.mapper.prg_rom_size ≡ 1
    → e.mapper.prg_rom + 0x4000 ≤ e.rom.size
    → mem_read_8 a e ≡ done (e.rom.bytes (e.mapper.prg_rom + a % 0x4000), e)
unfolding mem_read_8 nrom_read_prg ◌>>=◌
mem_read_8-one_bank a e h one fits = ground (arith, rom_byte_lem (e.mapper.prg_rom + a % 0x4000) e)

-- Another cartridge with 32 KiB of ROM in the file shows them in order.
mem_read_8-two_banks :
    (a : ℕ) (e : Emulator)
    → 0x8000 ≤ a
    → a < 0x10000
    → e.mapper.prg_rom_size ≡ 2
    → e.mapper.prg_rom + 0x8000 ≤ e.rom.size
    → mem_read_8 a e ≡ done (e.rom.bytes (e.mapper.prg_rom + (a - 0x8000)), e)
unfolding mem_read_8 nrom_read_prg ◌>>=◌
mem_read_8-two_banks a e h top two fits =
    ground (arith, rom_byte_lem (e.mapper.prg_rom + (a - 0x8000)) e)

in_one : (a n : ℕ) → 0x8000 ≤ a → n ≡ 1 → a % 0x4000 ≡ (a - 0x8000) % (n * 0x4000)
in_one a n h e = rw e (omega arith)

in_two : (a n : ℕ) → 0x8000 ≤ a → a < 0x10000 → n ≡ 2 → a - 0x8000 ≡ (a - 0x8000) % (n * 0x4000)
in_two a n h k e = rw e (omega arith)

-- A cartridge with one or two banks of 16 KiB in its file shows them from 0x8000 on in order,
-- one bank twice; a read changes nothing.
pub mem_read_8-rom :
    (a : ℕ) (e : Emulator)
    → 0x8000 ≤ a
    → a < 0x10000
    → (e.mapper.prg_rom_size ≡ 1) ⊎ (e.mapper.prg_rom_size ≡ 2)
    → e.mapper.prg_rom + e.mapper.prg_rom_size * 0x4000 ≤ e.rom.size
    → mem_read_8 a e
      ≡ done (e.rom.bytes (e.mapper.prg_rom + (a - 0x8000) % (e.mapper.prg_rom_size * 0x4000)), e)
mem_read_8-rom a e h k (inl one) fits =
    mem_read_8-one_bank a e h one (omega (arith, one, fits))
    ∙ ap (λ i. done (e.rom.bytes (e.mapper.prg_rom + i), e)) (in_one a e.mapper.prg_rom_size h one)
mem_read_8-rom a e h k (inr two) fits =
    mem_read_8-two_banks a e h k two (omega (arith, two, fits))
    ∙ ap (λ i. done (e.rom.bytes (e.mapper.prg_rom + i), e))
        (in_two a e.mapper.prg_rom_size h k two)

-- The mapper has one or two banks of code, inside of the file.
pub record HasBanks (e : Emulator) : Type 0 where
  pub banks : (e.mapper.prg_rom_size ≡ 1) ⊎ (e.mapper.prg_rom_size ≡ 2)
  pub fits : e.mapper.prg_rom + e.mapper.prg_rom_size * 0x4000 ≤ e.rom.size
