-- ===== src/Ppu/Shifters.antt =====
-- `load_shifters` and `update_shifters` of emulator/ppu.c.
use nes_emulator.Prelude.{
  ℕ, zero, suc, ◌+◌, ◌-◌, ◌*◌, bit_and, bit_or, ◌&&◌, update, ltb, leb, truth, if◌then◌else◌, u8,
  u16, ◌<<<◌,
}
use nes_emulator.State.{Ppu}
use nes_emulator.Outcome.{Run, pure, ◌>>=◌, ◌>>◌, gets, modify_ppu, load}
use nes_emulator.Ppu.Fields.Mask

abbrev spread : ℕ → ℕ
spread bit = if truth bit then 0xFF else 0x00

unfoldable pub load_shifters : Ppu → Ppu
load_shifters p = record p {
  shifter_pattern_lo = bit_or (bit_and p.shifter_pattern_lo 0xFF00) p.next_tile_lsb;
  shifter_pattern_hi = bit_or (bit_and p.shifter_pattern_hi 0xFF00) p.next_tile_msb;
  shifter_attr_lo = bit_or (bit_and p.shifter_attr_lo 0xFF00) (spread (bit_and p.next_tile_attr 1));
  shifter_attr_hi = bit_or (bit_and p.shifter_attr_hi 0xFF00) (spread (bit_and p.next_tile_attr 2));
}

unfoldable pub shift_background : Ppu → Ppu
shift_background p = record p {
  shifter_pattern_lo = u16 (p.shifter_pattern_lo <<< 1);
  shifter_pattern_hi = u16 (p.shifter_pattern_hi <<< 1);
  shifter_attr_lo = u16 (p.shifter_attr_lo <<< 1);
  shifter_attr_hi = u16 (p.shifter_attr_hi <<< 1);
}

unfoldable pub shift_patterns : ℕ → ℕ → ℕ → Ppu → Ppu
shift_patterns i pattern_lo pattern_hi p = record p {
  sprite_shifter_pattern_lo = update p.sprite_shifter_pattern_lo i (u8 (pattern_lo <<< 1));
  sprite_shifter_pattern_hi = update p.sprite_shifter_pattern_hi i (u8 (pattern_hi <<< 1));
}

-- the body of the loop over the sprites of the line
unfoldable pub update_sprite : ℕ → Run (Unit {0})
update_sprite i = do
  p ← gets (λ e. e.ppu)
  x ← load 0x40 p.sprite_scanline (i * 4 + 3)
  if ltb 0 x
      then modify_ppu
          (λ p. record p { sprite_scanline = update p.sprite_scanline (i * 4 + 3) (x - 1) })
      else (do
        pattern_lo ← load 8 p.sprite_shifter_pattern_lo i
        pattern_hi ← load 8 p.sprite_shifter_pattern_hi i
        modify_ppu (shift_patterns i pattern_lo pattern_hi))

-- the loop, with `left` sprites to go from number `i` on
unfoldable pub update_sprites : ℕ → ℕ → Run (Unit {0})
update_sprites zero i = pure tt
update_sprites (suc left) i = do update_sprite i; update_sprites left (i + 1)

unfoldable pub update_shifters : Run (Unit {0})
update_shifters = do
  modify_ppu (λ p. if truth (Mask.render_background p.mask) then shift_background p else p)
  p ← gets (λ e. e.ppu)
  if truth (Mask.render_sprites p.mask) && leb 1 p.cur_dot && ltb p.cur_dot 258
      then update_sprites p.sprite_count 0
      else pure tt
