-- ===== src/Ppu/Returns/Pixels.antt =====
-- The accesses in the drawing of a pixel.
use nes_emulator.Prelude.{
  ℕ, zero, suc, ◌+◌, ◌*◌, ◌≤◌, ◌<◌, arith, bit_and, bit_or, u16, truth, ltb, Bool, true, false,
  Bool-cases, inl, inr, bool_to_int, ◌==◌, if◌then◌else◌, ◌<<<◌, ◌>>>◌, ◌∷◌,
}
use nes_emulator.Prelude.Bits.{bit_and_mask, bit_or-lt, bit_and-le_right}
use nes_emulator.State.{Ppu, Pixel}
use nes_emulator.State.Valid.{modify_ppu-IsValid}
use nes_emulator.Outcome.{Run, pure, ◌>>=◌, ◌>>◌, modify, modify_ppu, load}
use nes_emulator.Outcome.Ensures.{Any, any}
use nes_emulator.Outcome.Returns.{Returns, Returns-bind, Returns-pure, Returns-if}
use nes_emulator.Ppu.Fields.Mask
use nes_emulator.Ppu.Draw.{
  Dot, no_dot, sprite_dot_of, background_dot, scan_sprites, sprite_dot, choose_dot,
  get_color_from_palette, draw_pixel,
}
use nes_emulator.Ppu.Valid.Draw.{
  mark_rendering-IsValid, clear_rendering-IsValid, mark_zero_hit-IsValid, put_pixel-IsValid,
}
use nes_emulator.Ppu.Returns.Reads.{IsSound, get_ppu-Returns, modify_ppu-Returns, read-Returns}
use nes_emulator.Ppu.Returns.Background.{line-Returns, lo-Returns, hi-Returns}

-- two bits of a pixel, and one of eight palettes
record IsDot (d : Dot) : Type 0 where
  pub pixel : d.pixel < 4
  pub palette : d.palette < 8

no_dot-IsDot : IsDot no_dot
no_dot-IsDot = record { pixel = omega arith; palette = omega arith }

return_no_dot : Returns IsSound IsDot (pure no_dot)
return_no_dot = Returns-pure no_dot no_dot-IsDot

two_bits : (a b : ℕ) → a ≤ 1 → b ≤ 1 → bit_or (a <<< 1) b < 4
two_bits a b h k = bit_or-lt 2 (a <<< 1) b (omega arith) (omega arith)

flag-le : (b : Bool) → bool_to_int b ≤ 1
flag-le true = omega arith
flag-le false = omega arith

background_dot-IsDot : (p : Ppu) → IsDot (background_dot p)
unfolding background_dot
background_dot-IsDot p = elim (Bool-cases (truth (Mask.render_background p.mask))) [
  | inl shown ↦ rw shown (record {
    pixel = two_bits _ _ (flag-le _) (flag-le _);
    palette = omega (
      arith,
      two_bits (bool_to_int (ltb 0 (bit_and p.shifter_attr_hi (0x8000 >>> p.fine_x)))) _ (flag-le _)
          (flag-le (ltb 0 (bit_and p.shifter_attr_lo (0x8000 >>> p.fine_x)))),
    );
  })
  | inr hidden ↦ rw hidden no_dot-IsDot
]

choose_dot-IsDot : (bg sprite : Dot) → IsDot bg → IsDot sprite → IsDot (choose_dot bg sprite)
unfolding choose_dot
choose_dot-IsDot bg sprite b s = ground (arith, no_dot-IsDot)

sprite_dot_of-IsDot : (attr lo hi : ℕ) → IsDot (sprite_dot_of attr lo hi)
sprite_dot_of-IsDot attr lo hi = record {
  pixel = two_bits _ _ (flag-le _) (flag-le _);
  palette = omega (arith, bit_and-le_right attr 0x03);
}

mark_rendering-Returns :
    (i : ℕ) (dot : Dot)
    → IsDot dot
    → Returns IsSound IsDot (do
      modify_ppu (λ p. if i == 0 then record p { sprite_zero_hit_rendering = 1 } else p)
      pure dot)
mark_rendering-Returns i dot d =
    Returns-bind _ _ (modify_ppu-Returns _ (mark_rendering-IsValid i)) λ _ _. Returns-pure dot d

abbrev Scans : (Dot → Run Dot) → Type 0
Scans rest = (d : Dot) → IsDot d → Returns IsSound IsDot (rest d)

-- a sprite at the left of the dot, and the sprites after it
show_sprite-Returns :
    (p : Ppu) (i attr : ℕ) (rest : Dot → Run Dot)
    → i < 8
    → Scans rest
    → Returns IsSound IsDot (do
      lo ← load 8 p.sprite_shifter_pattern_lo i
      hi ← load 8 p.sprite_shifter_pattern_hi i
      let dot = sprite_dot_of attr lo hi
      if dot.pixel == 0 then rest dot else (do
        modify_ppu (λ p. if i == 0 then record p { sprite_zero_hit_rendering = 1 } else p)
        pure dot))
show_sprite-Returns p i attr rest h k = Returns-bind _ _ (lo-Returns p i h) λ lo _.
    Returns-bind _ _ (hi-Returns p i h)
      λ hi _. search (Returns-if, sprite_dot_of-IsDot, mark_rendering-Returns, k) depth 6

scan_sprites-Returns : (left i : ℕ) → i + left ≤ 8 → Scans (scan_sprites left i)
unfolding scan_sprites
scan_sprites-Returns zero i h dot d = Returns-pure dot d
scan_sprites-Returns (suc left) i h dot d =
    let rest = scan_sprites-Returns left (i + 1) (omega arith) in
    Returns-bind _ _ get_ppu-Returns λ p v.
      Returns-bind _ _ (line-Returns p (i * 4 + 3) (omega arith) v) λ x _.
        Returns-bind _ _ (line-Returns p (i * 4 + 2) (omega arith) v) λ attr _.
          let shown = show_sprite-Returns p i attr (scan_sprites left (i + 1)) (omega arith) rest in
          search (Returns-if, rest, shown, d) depth 6

sprite_dot-Returns : Returns IsSound IsDot sprite_dot
unfolding sprite_dot
sprite_dot-Returns = Returns-bind _ _ get_ppu-Returns λ p v.
    let held =
      scan_sprites-Returns p.sprite_count 0 (omega (arith, v.sprite_count)) no_dot no_dot-IsDot in
    let shown = Returns-bind _ _ (modify_ppu-Returns _ clear_rendering-IsValid) λ _ _. held in
    search (Returns-if, shown, return_no_dot) depth 4

color-Returns :
    (palette pixel : ℕ)
    → palette < 8
    → pixel < 4
    → Returns IsSound Any (get_color_from_palette palette pixel)
unfolding get_color_from_palette
color-Returns palette pixel h k =
    let a = u16 (0x3F00 + (palette <<< 2) + pixel) in
    Returns-bind _ _ (read-Returns a (omega (arith, bit_and_mask 14 a)))
      λ index _. Returns-pure _ any

put_pixel-Returns :
    (d : Pixel) → Returns IsSound Any (modify (λ e. record e { drawn = d ∷ e.drawn }))
unfolding modify
put_pixel-Returns d = record {
  at = λ e s. (any, record { valid = ((put_pixel-IsValid d).at e s.valid).1; chr = s.chr });
}

pub draw_pixel-Returns : Returns IsSound Any draw_pixel
unfolding draw_pixel
draw_pixel-Returns = Returns-bind _ _ get_ppu-Returns λ p _.
    Returns-bind _ _ sprite_dot-Returns λ sprite s.
      Returns-bind _ _
        (modify_ppu-Returns _
          (modify_ppu-IsValid _ (mark_zero_hit-IsValid (background_dot p) sprite)))
        λ _ _.
          let dot = choose_dot (background_dot p) sprite in
          let d = choose_dot-IsDot (background_dot p) sprite (background_dot-IsDot p) s in
          Returns-bind _ _ (color-Returns dot.palette dot.pixel d.palette d.pixel)
            λ color _. Returns-bind _ _ get_ppu-Returns λ q _. put_pixel-Returns _
