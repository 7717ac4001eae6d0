-- ===== src/Ppu/Returns/Sprites.antt =====
-- The accesses in the loading of the sprites of a line.
use nes_emulator.Prelude.{
  ℕ, zero, suc, ◌+◌, ◌-◌, ◌*◌, ◌≤◌, ◌<◌, ◌≡◌, ◌≢◌, ◌⊎◌, inl, inr, arith, bit_and, bit_or, u16,
  truth, ltb, ◌==◌, if◌then◌else◌, ◌<<<◌, int_sub, sub_size, Bool, true, false, Bool-cases,
}
use nes_emulator.Prelude.Bits.{
  bit_and_mask, bit_at, bit_at-bit_or, bit_at-le, bit_or-lt, bit_and-le_right,
}
use nes_emulator.State.{Ppu}
use nes_emulator.State.Valid.{PpuIsValid}
use nes_emulator.Outcome.Ensures.{Any}
use nes_emulator.Outcome.Returns.{Returns, Returns-bind, Returns-store}
use nes_emulator.Ppu.Fields.Ctrl
use nes_emulator.Ppu.Sprites.{sprite_pattern_address, load_sprite, load_sprites}
use nes_emulator.Ppu.Valid.Sprites.{put_patterns-IsValid, flip-lt}
use nes_emulator.Ppu.Returns.Reads.{IsSound, get_ppu-Returns, modify_ppu-Returns, read-Returns}
use nes_emulator.Ppu.Returns.Background.{idle-Returns, line-Returns}

-- both planes can be read
record IsReadable (a : ℕ) : Type 0 where
  pub low : bit_and a 0x3FFF ≢ 0x3000
  pub high : bit_and (u16 (a + 1)) 0x3FFF ≢ 0x3000

pattern-IsReadable : (a : ℕ) → a < 0x2000 → IsReadable a
pattern-IsReadable a h = record {
  low = omega (arith, bit_and_mask 14 a);
  high = omega (arith, bit_and_mask 14 (u16 (a + 1)));
}

wrapped-IsReadable : (a : ℕ) → bit_at 11 a ≡ 1 → bit_at 12 a ≡ 1 → IsReadable a
wrapped-IsReadable a h k = record {
  low = omega (arith, bit_and_mask 14 a, h);
  high = omega (arith, bit_and_mask 14 (u16 (a + 1)), k);
}

-- a row of the pattern, or the two's complement of a small number
abbrev IsRow : ℕ → Type 0
IsRow row = (row < 0x1000) ⊎ (0xFF00 ≤ row)

u16_small : (a : ℕ) → a < 0x10000 → u16 a ≡ a
u16_small a h = omega arith

row-IsReadable :
    (base row : ℕ) → base < 0x2000 → row < 0x10000 → IsRow row → IsReadable (u16 (bit_or base row))
row-IsReadable base row h k (inl small) =
    let low = bit_or-lt 13 base row h (omega arith) in
    rw (u16_small (bit_or base row) (omega (arith, low))) (pattern-IsReadable _ low)
row-IsReadable base row h k (inr wrapped) =
    rw (u16_small (bit_or base row) (bit_or-lt 16 base row (omega arith) k)) (
      wrapped-IsReadable _ (omega (arith, bit_at-bit_or 11 base row, bit_at-le 11 base))
        (omega (arith, bit_at-bit_or 12 base row, bit_at-le 12 base)))

-- the difference of a line and a sprite's top, below 0 or not
y_diff-cases :
    (scanline y : ℕ)
    → scanline < 262
    → y < 256
    → (u16 (sub_size scanline y) < 262) ⊎ (0xFF01 ≤ u16 (sub_size scanline y))
y_diff-cases scanline y h k = elim (Bool-cases (ltb scanline y)) [
  | inl above ↦ inr (ground (arith, above))
  | inr below ↦ inl (ground (arith, below))
]

flip-IsRow : (d : ℕ) → d < 0x10000 → (d < 262) ⊎ (0xFF01 ≤ d) → IsRow (u16 (int_sub 7 d))
flip-IsRow d h (inl small) = elim (Bool-cases (ltb 7 d)) [
  | inl more ↦ inr (ground (arith, more))
  | inr less ↦ inl (ground (arith, less))
]
flip-IsRow d h (inr wrapped) = inl (omega arith)

straight-IsRow : (d : ℕ) → (d < 262) ⊎ (0xFF01 ≤ d) → IsRow d
straight-IsRow d (inl small) = inl (omega arith)
straight-IsRow d (inr wrapped) = inr (omega arith)

abbrev Small : ℕ → Type 0
Small row = (row < 0x10000) × IsRow row

pick-Small : (b : Bool) (m n : ℕ) → Small m → Small n → Small (if b then m else n)
pick-Small true m n h k = h
pick-Small false m n h k = k

-- a row of the pattern of 8 lines
short-IsReadable :
    (table id d f : ℕ)
    → table ≤ 1
    → id < 256
    → d < 0x10000
    → (d < 262) ⊎ (0xFF01 ≤ d)
    → IsReadable
        (u16 (bit_or (bit_or (table <<< 12) (id <<< 4)) (if truth f then u16 (int_sub 7 d) else d)))
short-IsReadable table id d f ht hid h c =
    let row =
      pick-Small (truth f) (u16 (int_sub 7 d)) d (omega arith, flip-IsRow d h c)
        (h, straight-IsRow d c) in
    row-IsReadable _ _ (bit_or-lt 13 (table <<< 12) (id <<< 4) (omega arith) (omega arith)) row.0
      row.1

-- a row of one of the two cells of 16 lines
tall-IsReadable :
    (table cell low f : ℕ)
    → table ≤ 1
    → cell < 256
    → low < 8
    → IsReadable
        (u16 (bit_or (bit_or (table <<< 12) (cell <<< 4)) (if truth f then 7 - low else low)))
tall-IsReadable table cell low f ht hc h =
    let row =
      pick-Small (truth f) (7 - low) low (omega arith, inl (omega arith))
        (omega arith, inl (omega arith)) in
    row-IsReadable _ _ (bit_or-lt 13 (table <<< 12) (cell <<< 4) (omega arith) (omega arith)) row.0
      row.1

cell-lt : (d id : ℕ) → id < 256 → (if ltb d 8 then bit_and id 0xFE else bit_and id 0xFE + 1) < 256
cell-lt d id h = ground (arith, bit_and-le_right id 0xFE)

pattern_address-IsReadable :
    (p : Ppu) (y id attributes : ℕ)
    → PpuIsValid p
    → y < 256
    → id < 256
    → IsReadable (sprite_pattern_address p y id attributes)
unfolding sprite_pattern_address
pattern_address-IsReadable p y id attributes v hy hid =
    let d = u16 (sub_size p.cur_scanline y) in
    let f = bit_and attributes 0x80 in
    let short =
      short-IsReadable (Ctrl.pattern_sprite p.ctrl) id d f (omega arith) hid (omega arith)
        (y_diff-cases p.cur_scanline y v.cur_scanline hy) in
    let tall =
      tall-IsReadable (bit_and id 0x01) _ (bit_and d 0x07) f
        (omega (arith, bit_and-le_right id 0x01)) (cell-lt d id hid)
        (omega (arith, bit_and-le_right d 0x07)) in
    elim (Bool-cases (Ctrl.sprite_size p.ctrl == 0)) [
      | inl eight ↦ rw eight short
      | inr sixteen ↦ rw sixteen tall
    ]

load_sprite-Returns : (i : ℕ) → i < 8 → Returns IsSound Any (load_sprite i)
unfolding load_sprite
load_sprite-Returns i h = Returns-bind _ _ get_ppu-Returns λ p v.
    Returns-bind _ _ (line-Returns p (i * 4 + 2) (omega arith) v) λ attributes _.
      Returns-bind _ _ (line-Returns p (i * 4) (omega arith) v) λ y hy.
        Returns-bind _ _ (line-Returns p (i * 4 + 1) (omega arith) v) λ id hid.
          let r = pattern_address-IsReadable p y id attributes v hy hid in
          Returns-bind _ _ (read-Returns _ r.low) λ lo l.
            Returns-bind _ _ (read-Returns _ r.high) λ hi k. Returns-store 8 i _ h (
              modify_ppu-Returns _ (
                put_patterns-IsValid i _ _ (flip-lt (bit_and attributes 0x40) lo l)
                  (flip-lt (bit_and attributes 0x40) hi k)))

pub load_sprites-Returns : (left i : ℕ) → i + left ≤ 8 → Returns IsSound Any (load_sprites left i)
unfolding load_sprites
load_sprites-Returns zero i h = idle-Returns
load_sprites-Returns (suc left) i h =
    Returns-bind _ _ (load_sprite-Returns i (omega arith))
      λ _ _. load_sprites-Returns left (i + 1) (omega arith)
