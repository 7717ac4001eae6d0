-- ===== src/Ppu/Draw.antt =====
-- `draw_pixel` and `get_color_from_palette` of emulator/ppu.c.
pub mod Priority
use nes_emulator.Prelude.{
  ℕ, zero, suc, ◌+◌, ◌*◌, bit_and, bit_or, Bool, not, ◌&&◌, ◌∷◌, ltb, leb, ◌==◌, truth, bool_to_int,
  if◌then◌else◌, u16, ◌<<<◌, ◌>>>◌,
}
use nes_emulator.State.{Ppu}
use nes_emulator.Outcome.{Run, pure, ◌>>=◌, ◌>>◌, gets, modify, modify_ppu, load}
use nes_emulator.Ppu.Fields.Mask
use nes_emulator.Ppu.Fields.Status
use nes_emulator.Ppu.Vram.{ppu_const_read_vram_data}
use nes_emulator.Ppu.Colors.{nes_palette_rgb, nes_palette_8bit}

-- A pixel of two bits, the palette that it is looked up in, and for a sprite its priority.
pub record Dot : Type 0 where
  pub pixel : ℕ
  pub palette : ℕ
  pub priority : ℕ

abbrev pub no_dot : Dot
no_dot = record { pixel = 0x00; palette = 0x00; priority = 0x00 }

abbrev bit_of : ℕ → ℕ → ℕ
bit_of shifter bit_mux = bool_to_int (ltb 0 (bit_and shifter bit_mux))

unfoldable pub background_dot : Ppu → Dot
background_dot p =
    let bit_mux = 0x8000 >>> p.fine_x in
    if truth (Mask.render_background p.mask)
    then record {
      pixel =
          bit_or (bit_of p.shifter_pattern_hi bit_mux <<< 1) (bit_of p.shifter_pattern_lo bit_mux);
      palette = bit_or (bit_of p.shifter_attr_hi bit_mux <<< 1) (bit_of p.shifter_attr_lo bit_mux);
      priority = 0x00;
    }
    else no_dot

abbrev pub sprite_dot_of : ℕ → ℕ → ℕ → Dot
sprite_dot_of attr lo hi = record {
  pixel = bit_or (bit_of hi 0x80 <<< 1) (bit_of lo 0x80);
  palette = bit_and attr 0x03 + 0x04;
  priority = bool_to_int (bit_and attr 0x20 == 0);
}

-- the loop over the sprites, with `left` to go from number `i` on; a pixel that is not 0 ends it
unfoldable pub scan_sprites : ℕ → ℕ → Dot → Run Dot
scan_sprites zero i dot = pure dot
scan_sprites (suc left) i dot = do
  p ← gets (λ e. e.ppu)
  sprite_x ← load 0x40 p.sprite_scanline (i * 4 + 3)
  sprite_attr ← load 0x40 p.sprite_scanline (i * 4 + 2)
  if not (sprite_x == 0) then scan_sprites left (i + 1) dot else (do
    lo ← load 8 p.sprite_shifter_pattern_lo i
    hi ← load 8 p.sprite_shifter_pattern_hi i
    let dot' = sprite_dot_of sprite_attr lo hi
    if dot'.pixel == 0 then scan_sprites left (i + 1) dot' else (do
      modify_ppu (λ p. if i == 0 then record p { sprite_zero_hit_rendering = 1 } else p)
      pure dot'))

unfoldable pub sprite_dot : Run Dot
sprite_dot = do
  p ← gets (λ e. e.ppu)
  if truth (Mask.render_sprites p.mask)
      then (do
        modify_ppu (λ p. record p { sprite_zero_hit_rendering = 0 })
        scan_sprites p.sprite_count 0 no_dot)
      else pure no_dot

-- which of the two is shown
unfoldable pub choose_dot : Dot → Dot → Dot
choose_dot bg sprite =
    if sprite.pixel == 0 && bg.pixel == 0
    then no_dot
    else if sprite.pixel == 0 && ltb 0 bg.pixel
    then bg
    else if ltb 0 sprite.pixel && bg.pixel == 0
    then sprite
    else if truth sprite.priority
    then sprite
    else bg

-- the tests for a hit of sprite 0, where both dots have a pixel
unfoldable pub is_zero_hit : Ppu → Bool
is_zero_hit p =
    truth p.sprite_zero_hit_possible
    && truth p.sprite_zero_hit_rendering
    && truth (bit_and (Mask.render_background p.mask) (Mask.render_sprites p.mask))
    && (if truth (bit_and (Mask.render_background_left p.mask) (Mask.render_sprites_left p.mask))
        then leb 9 p.cur_dot && ltb p.cur_dot 258
        else leb 1 p.cur_dot && ltb p.cur_dot 258)

unfoldable pub mark_zero_hit : Dot → Dot → Ppu → Ppu
mark_zero_hit bg sprite p =
    if ltb 0 sprite.pixel && ltb 0 bg.pixel && is_zero_hit p
    then record p { status = Status.set_sprite_zero_hit 1 p.status }
    else p

unfoldable pub get_color_from_palette : ℕ → ℕ → Run ℕ
get_color_from_palette palette pixel = do
  index ← ppu_const_read_vram_data (u16 (0x3F00 + (palette <<< 2) + pixel))
  pure (nes_palette_rgb (bit_and index 0x3F))

-- the colour that `draw_pixel` takes on the board
unfoldable pub get_color_from_palette_8 : ℕ → ℕ → Run ℕ
get_color_from_palette_8 palette pixel = do
  index ← ppu_const_read_vram_data (u16 (0x3F00 + (palette <<< 2) + pixel))
  pure (nes_palette_8bit (bit_and index 0x3F))

unfoldable pub draw_pixel : Run (Unit {0})
draw_pixel = do
  p ← gets (λ e. e.ppu)
  let bg = background_dot p
  sprite ← sprite_dot
  modify_ppu (mark_zero_hit bg sprite)
  let dot = choose_dot bg sprite
  color ← get_color_from_palette dot.palette dot.pixel
  p ← gets (λ e. e.ppu)
  modify (λ e. record e {
    drawn = (record { x = p.cur_dot; y = p.cur_scanline; color = color }) ∷ e.drawn;
  })
