-- ===== src/Ppu/Returns/Reads.antt =====
-- Reads of the PPU's address space.
use nes_emulator.Prelude.{
  ℕ, ◌+◌, ◌-◌, ◌/◌, ◌%◌, ◌≤◌, ◌<◌, ◌≡◌, ◌≢◌, arith, bit_and, ltb, ltb→lt, if◌then◌else◌, u16, true,
  false,
}
use nes_emulator.Prelude.Bits.{bit_and-le_right}
use nes_emulator.State.{Emulator, Cpu, Ppu, ChrPointer, in_rom, in_chr_ram}
use nes_emulator.State.Valid.{IsValid, PpuIsValid}
use nes_emulator.Outcome.{
  Outcome, done, exited, undefined, pure, ◌>>=◌, gets, modify_ppu, modify_cpu, load,
}
use nes_emulator.Outcome.Ensures.{Holds, Ensures, Any, any, IsByte}
use nes_emulator.Outcome.Returns.{
  Succeeds, Returns, Returns-bind, Returns-load, Returns-pure, Returns-if,
}
use nes_emulator.Mapper.{rom_byte, read_chr_at, nrom_read_chr}
use nes_emulator.Ppu.Vram.{calculate_vram_index, ppu_const_read_vram_data}
use nes_emulator.Ppu.Vram.Valid.{ppu_const_read_vram_data-IsByte}

-- the 8 KiB of patterns lie in the array that is read
abbrev pub ChrFits : ChrPointer → ℕ → Type 0
ChrFits (in_rom offset) size = offset + 0x2000 ≤ size
ChrFits in_chr_ram size = Unit {0}

-- the invariant, with a cartridge whose patterns are there
pub record IsSound (e : Emulator) : Type 0 where
  pub valid : IsValid e
  pub chr : ChrFits e.mapper.chr_rom e.rom.size

-- A value that is returned has what is said of a value where code returns.
pub Succeeds-Holds :
    {A : Type 0} (Q : A → Type 0) (o : Outcome (A × Emulator))
    → Succeeds IsSound Any o
    → Holds IsValid Q o
    → Succeeds IsSound Q o
Succeeds-Holds Q (done (a, e)) h k = (k.0, h.1)
Succeeds-Holds Q exited h k = h
Succeeds-Holds Q undefined h k = h

pub get_ppu-Returns : Returns IsSound PpuIsValid (gets λ e. e.ppu)
unfolding gets
get_ppu-Returns = record { at = λ e s. (s.valid.ppu, s) }

pub modify_ppu-Returns :
    (f : Ppu → Ppu) → Ensures IsValid Any (modify_ppu f) → Returns IsSound Any (modify_ppu f)
unfolding modify_ppu
modify_ppu-Returns f k = record {
  at = λ e s. (any, record { valid = (k.at e s.valid).1; chr = s.chr });
}

pub modify_cpu-Returns :
    (f : Cpu → Cpu) → Ensures IsValid Any (modify_cpu f) → Returns IsSound Any (modify_cpu f)
unfolding modify_cpu
modify_cpu-Returns f k = record {
  at = λ e s. (any, record { valid = (k.at e s.valid).1; chr = s.chr });
}

read_chr-done :
    (a : ℕ) (e : Emulator)
    → a < 0x2000
    → (r : ChrPointer) → ChrFits r e.rom.size
    → (v : ℕ) × (read_chr_at r a e ≡ done (v, e))
unfolding read_chr_at rom_byte load ◌>>=◌
read_chr-done a e h (in_rom offset) fits = (e.rom.bytes (offset + a), ground arith)
read_chr-done a e h in_chr_ram fits = (e.mapper.chr_ram a, ground arith)

chr-done :
    (a : ℕ) (e : Emulator)
    → a < 0x2000
    → ChrFits e.mapper.chr_rom e.rom.size
    → (v : ℕ) × (nrom_read_chr a e ≡ done (v, e))
unfolding nrom_read_chr ◌>>=◌
chr-done a e h fits = read_chr-done a e h e.mapper.chr_rom fits

index-done :
    (a : ℕ) (e : Emulator)
    → 0x2000 ≤ a
    → a < 0x3F00
    → a ≢ 0x3000
    → IsValid e
    → (i : ℕ) × (calculate_vram_index a e ≡ done (i, e)) × (i < 0x1000)
unfolding calculate_vram_index load ◌>>=◌
index-done a e lo hi ne v =
    let base = if ltb 0x3000 a then a - 0x1000 else a in
    let j = (base - 0x2000) / 0x0400 in
    (
      u16 (e.mapper.nametable_map j + (base - 0x2000) % 0x03FF),
      ground arith,
      ground (arith, v.mapper.nametables j),
    )

read_patterns : (a : ℕ) → ltb a 0x2000 ≡ true → Returns IsSound Any (nrom_read_chr a)
read_patterns a h = record {
  at = λ e s. let k = chr-done a e (ltb→lt a 0x2000 h) s.chr in rw (k.1) (any, s);
}

index-Returns :
    (a : ℕ)
    → a ≢ 0x3000
    → ltb a 0x2000 ≡ false
    → ltb a 0x3F00 ≡ true
    → Returns IsSound (λ i. i < 0x1000) (calculate_vram_index a)
index-Returns a ne lo hi = record {
  at = λ e s. let k = index-done a e (ground arith) (ground arith) ne s.valid in rw (k.1) (k.2, s);
}

read_table :
    (p : Ppu) (a : ℕ)
    → a ≢ 0x3000
    → ltb a 0x2000 ≡ false
    → ltb a 0x3F00 ≡ true
    → Returns IsSound Any (do vram_index ← calculate_vram_index a; load 0x2000 p.vram vram_index)
read_table p a ne lo hi =
    Returns-bind _ _ (index-Returns a ne lo hi)
      λ i h. Returns-load 0x2000 p.vram i (omega arith) any

read_palette : (p : Ppu) (a : ℕ) → Returns IsSound Any (load 0x20 p.palette (bit_and a 0x1F))
read_palette p a =
    Returns-load 0x20 p.palette (bit_and a 0x1F) (omega (arith, bit_and-le_right a 0x1F)) any

return_number : (n : ℕ) → Returns IsSound Any (pure n)
return_number n = Returns-pure n any

read-Returns-Any :
    (a : ℕ) → bit_and a 0x3FFF ≢ 0x3000 → Returns IsSound Any (ppu_const_read_vram_data a)
unfolding ppu_const_read_vram_data
read-Returns-Any a h =
    Returns-bind _ _ get_ppu-Returns
      λ p v. search (Returns-if, read_patterns, read_table, read_palette, return_number) depth 6

-- A read of the PPU's address space gives a byte, but for the address 0x3000 in each 16 KiB.
pub read-Returns :
    (a : ℕ) → bit_and a 0x3FFF ≢ 0x3000 → Returns IsSound IsByte (ppu_const_read_vram_data a)
read-Returns a h = record {
  at = λ e s.
      Succeeds-Holds IsByte (ppu_const_read_vram_data a e) ((read-Returns-Any a h).at e s)
        ((ppu_const_read_vram_data-IsByte a).at e s.valid);
}
