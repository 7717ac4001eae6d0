-- ===== src/Ppu/Laws/Nametables.antt =====
-- Where a name table's address leads in the video memory.
use nes_emulator.Prelude.{
  ℕ, ◌+◌, ◌-◌, ◌/◌, ◌%◌, ◌≤◌, ◌<◌, ◌≡◌, refl, arith, u16, update, ap, sym, ◌∙◌, ◌*◌, ◌≢◌, ltb,
  if◌then◌else◌,
}
use nes_emulator.State.{Emulator, horizontal}
use nes_emulator.Outcome.{Outcome, done, undefined, ◌>>=◌, load}
use nes_emulator.Mapper.{set_mirroring, set_nametable_mapping}
use nes_emulator.Ppu.Vram.{calculate_vram_index}

-- An address of the four name tables is mapped to the base of its table plus its offset in the
-- table modulo 0x3FF.
pub calculate_vram_index_lem :
    (a : ℕ) (e : Emulator)
    → 0x2000 ≤ a
    → a < 0x3000
    → calculate_vram_index a e
      ≡ done (u16 (e.mapper.nametable_map ((a - 0x2000) / 0x0400) + (a - 0x2000) % 0x03FF), e)
unfolding calculate_vram_index load ◌>>=◌
calculate_vram_index_lem a e h top = ground arith

-- The first address of the mirror of the name tables is read outside of the table of four bases.
pub calculate_vram_index-mirror_start : (e : Emulator) → calculate_vram_index 0x3000 e ≡ undefined
unfolding calculate_vram_index load ◌>>=◌
calculate_vram_index-mirror_start e = refl

-- the mapper is set to horizontal mirroring
abbrev pub mirrored : Emulator → Emulator
mirrored e = record e { mapper = set_mirroring horizontal e.mapper }

-- the base of a table, with its offset a number of places further, modulo 0x3FF
shifted : (a t k : ℕ) → a ≡ t * 0x0400 + k → a % 0x03FF ≡ (k + t) % 0x03FF
shifted a t k h = omega (arith, h)

mirrored-base :
    (t k a : ℕ) (e : Emulator)
    → t < 4
    → k < 0x0400
    → a ≡ t * 0x0400 + k
    → (mirrored e).mapper.nametable_map (a / 0x0400) ≡ (if ltb t 2 then 0 else 0x0800)
unfolding set_mirroring set_nametable_mapping update
mirrored-base t k a e h l i = ground arith

table_index :
    (t k : ℕ) (e : Emulator)
    → t < 4
    → k < 0x0400
    → calculate_vram_index (0x2000 + t * 0x0400 + k) (mirrored e)
      ≡ done ((if ltb t 2 then 0 else 0x0800) + (k + t) % 0x03FF, mirrored e)
table_index t k e h l =
    rw
      (
        calculate_vram_index_lem (0x2000 + t * 0x0400 + k) (mirrored e) (omega arith) (omega arith),
        mirrored-base t k (0x2000 + t * 0x0400 + k - 0x2000) e h l (omega arith),
        shifted (0x2000 + t * 0x0400 + k - 0x2000) t k (omega arith),
      )
      (ground arith)

index_of : Outcome (ℕ × Emulator) → ℕ
index_of (done (i, e)) = i
index_of other = 0

apart :
    (t u k : ℕ)
    → t < 4
    → u < 4
    → t ≢ u
    → (if ltb t 2 then 0 else 0x0800) + (k + t) % 0x03FF
      ≢ (if ltb u 2 then 0 else 0x0800) + (k + u) % 0x03FF
apart t u k h l d p = ground arith

-- With horizontal mirroring, the two upper name tables have their places from 0 on in the video
-- memory and the two lower ones from 0x800 on; but in each table the address of offset `k` leads
-- as many places on as there are tables before it, modulo 0x3FF. So the same offset of two
-- different tables never leads to the same place.
pub index-horizontal :
    (k t u : ℕ) (e : Emulator)
    → k < 0x0400
    → t < 4
    → u < 4
    → t ≢ u
    → (calculate_vram_index (0x2000 + t * 0x0400 + k) (mirrored e)
        ≡ done ((if ltb t 2 then 0 else 0x0800) + (k + t) % 0x03FF, mirrored e))
      × (calculate_vram_index (0x2000 + t * 0x0400 + k) (mirrored e)
          ≢ calculate_vram_index (0x2000 + u * 0x0400 + k) (mirrored e))
unfolding index_of
index-horizontal k t u e l h i d = (
  table_index t k e h l,
  λ p. apart t u k h i d (ap index_of (sym (table_index t k e h l) ∙ p ∙ table_index u k e i l)),
)
