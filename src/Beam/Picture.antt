-- ===== src/Beam/Picture.antt =====
-- The background, the sprites and the pixels leave the counters of the picture alone: only the
-- skipped dot of the pre-render line and the end of the cycle move them on.
use nes_emulator.Prelude.{
  ℕ, zero, suc, ◌+◌, ◌≡◌, refl, ◌&&◌, not, arith, truth, if◌then◌else◌, ◌==◌, fill,
}
use nes_emulator.State.{Ppu}
use nes_emulator.Outcome.Ensures.{Ensures, Any, any, Ensures-pure, bind-Any}
use nes_emulator.Beam.{Course, beam, AtBeam, beam_rules}
use nes_emulator.Beam.Memory.{ppu_const_read_vram_data-AtBeam}
use nes_emulator.Ppu.Fields.Mask
use nes_emulator.Ppu.Scroll.{
  increment_scroll_x, increment_scroll_y, reload_scroll_x, reload_scroll_y,
}
use nes_emulator.Ppu.Shifters.{
  load_shifters, shift_background, shift_patterns, update_sprite, update_sprites, update_shifters,
}
use nes_emulator.Ppu.Background.{
  fetch_tile_id, fetch_tile_attr, read_tile_row, prepare_background_tile,
}
use nes_emulator.Ppu.Sprites.{
  evaluate_sprite, evaluate_objects, evaluate_sprites, load_sprite, load_sprites,
}
use nes_emulator.Ppu.Draw.{
  Dot, scan_sprites, sprite_dot, mark_zero_hit, get_color_from_palette, draw_pixel,
}
use nes_emulator.Ppu.Cycle.{
  end_of_line, visible_line, vblank_line, clear_flags, pre_render_dots, run_sprites,
}

beam-increment_scroll_x : (p : Ppu) → beam (increment_scroll_x p) ≡ beam p
unfolding increment_scroll_x
beam-increment_scroll_x p = ground (arith)

beam-increment_scroll_y : (p : Ppu) → beam (increment_scroll_y p) ≡ beam p
unfolding increment_scroll_y
beam-increment_scroll_y p = ground (arith)

beam-reload_scroll_x : (p : Ppu) → beam (reload_scroll_x p) ≡ beam p
unfolding reload_scroll_x
beam-reload_scroll_x p = ground (arith)

beam-reload_scroll_y : (p : Ppu) → beam (reload_scroll_y p) ≡ beam p
unfolding reload_scroll_y
beam-reload_scroll_y p = ground (arith)

beam-load_shifters : (p : Ppu) → beam (load_shifters p) ≡ beam p
unfolding load_shifters
beam-load_shifters p = ground (arith)

beam-shift_background : (p : Ppu) → beam (shift_background p) ≡ beam p
unfolding shift_background
beam-shift_background p = ground (arith)

beam-clear_flags : (p : Ppu) → beam (clear_flags p) ≡ beam p
unfolding clear_flags
beam-clear_flags p = ground (arith)

beam-shift_patterns : (i : ℕ) (lo : ℕ) (hi : ℕ) (p : Ppu) → beam (shift_patterns i lo hi p) ≡ beam p
unfolding shift_patterns
beam-shift_patterns i lo hi p = ground (arith)

beam-evaluate_sprite : (i : ℕ) (p : Ppu) → beam (evaluate_sprite i p) ≡ beam p
unfolding evaluate_sprite
beam-evaluate_sprite i p = ground (arith)

beam-evaluate_objects : (left i : ℕ) (p : Ppu) → beam (evaluate_objects left i p) ≡ beam p
unfolding evaluate_objects
beam-evaluate_objects zero i p = refl
beam-evaluate_objects (suc left) i p =
    ground
      (arith, beam-evaluate_objects left (i + 1) (evaluate_sprite i p), beam-evaluate_sprite i p)

beam-evaluate_sprites : (p : Ppu) → beam (evaluate_sprites p) ≡ beam p
unfolding evaluate_sprites
beam-evaluate_sprites p =
    beam-evaluate_objects 64 0
      (record p { sprite_scanline = fill 0xFF; sprite_count = 0; sprite_zero_hit_possible = 0 })

beam-end_of_line : (p : Ppu) → beam (end_of_line p) ≡ beam p
unfolding end_of_line
beam-end_of_line p =
    let p' = if p.cur_dot == 256 then increment_scroll_y p else p in
    ground (
      arith,
      beam-increment_scroll_y p,
      beam-reload_scroll_x (load_shifters p'),
      beam-load_shifters p',
    )

beam-mark_zero_hit : (bg sprite : Dot) (p : Ppu) → beam (mark_zero_hit bg sprite p) ≡ beam p
unfolding mark_zero_hit
beam-mark_zero_hit bg sprite p = ground arith

-- updates by a test
beam-shift_if_rendering :
    (p : Ppu)
    → beam (if truth (Mask.render_background p.mask) then shift_background p else p) ≡ beam p
beam-shift_if_rendering p = ground (arith, beam-shift_background p)

beam-mark_rendering :
    (i : ℕ) (p : Ppu)
    → beam (if i == 0 then record p { sprite_zero_hit_rendering = 1 } else p) ≡ beam p
beam-mark_rendering i p = ground arith

beam-clear_at_start : (p : Ppu) → beam (if p.cur_dot == 1 then clear_flags p else p) ≡ beam p
beam-clear_at_start p = ground (arith, beam-clear_flags p)

beam-evaluate_line :
    (p : Ppu)
    → beam (if p.cur_dot == 257 && not (p.cur_scanline == 261) then evaluate_sprites p else p)
      ≡ beam p
beam-evaluate_line p = ground (arith, beam-evaluate_sprites p)

ruleset same_beam = (
  beam_rules, ppu_const_read_vram_data-AtBeam, beam-load_shifters, beam-shift_patterns,
  beam-increment_scroll_x, beam-reload_scroll_y, beam-end_of_line, beam-mark_zero_hit,
  beam-shift_if_rendering, beam-mark_rendering, beam-clear_at_start, beam-evaluate_line,
)

module _ {b : Course} where
  pub update_sprite-AtBeam : (i : ℕ) → Ensures (AtBeam b) Any (update_sprite i)
  unfolding update_sprite
  update_sprite-AtBeam i = search (same_beam) depth 14

  pub update_sprites-AtBeam : (left i : ℕ) → Ensures (AtBeam b) Any (update_sprites left i)
  unfolding update_sprites
  update_sprites-AtBeam zero i = Ensures-pure tt any
  update_sprites-AtBeam (suc left) i =
      bind-Any _ _ (update_sprite-AtBeam i) λ _. update_sprites-AtBeam left (i + 1)

  pub update_shifters-AtBeam : Ensures (AtBeam b) Any update_shifters
  unfolding update_shifters
  update_shifters-AtBeam = search (same_beam, update_sprites-AtBeam) depth 14

  pub fetch_tile_id-AtBeam : Ensures (AtBeam b) Any fetch_tile_id
  unfolding fetch_tile_id
  fetch_tile_id-AtBeam = search (same_beam) depth 14

  pub fetch_tile_attr-AtBeam : Ensures (AtBeam b) Any fetch_tile_attr
  unfolding fetch_tile_attr
  fetch_tile_attr-AtBeam = search (same_beam) depth 14

  pub read_tile_row-AtBeam : (plane : ℕ) → Ensures (AtBeam b) Any (read_tile_row plane)
  unfolding read_tile_row
  read_tile_row-AtBeam plane = search (same_beam) depth 14

  pub prepare_background_tile-AtBeam : Ensures (AtBeam b) Any prepare_background_tile
  unfolding prepare_background_tile
  prepare_background_tile-AtBeam =
      search
        (
          same_beam, update_shifters-AtBeam, fetch_tile_id-AtBeam, fetch_tile_attr-AtBeam,
          read_tile_row-AtBeam,
        )
        depth 20

  pub load_sprite-AtBeam : (i : ℕ) → Ensures (AtBeam b) Any (load_sprite i)
  unfolding load_sprite
  load_sprite-AtBeam i = search (same_beam) depth 16

  pub load_sprites-AtBeam : (left i : ℕ) → Ensures (AtBeam b) Any (load_sprites left i)
  unfolding load_sprites
  load_sprites-AtBeam zero i = Ensures-pure tt any
  load_sprites-AtBeam (suc left) i =
      bind-Any _ _ (load_sprite-AtBeam i) λ _. load_sprites-AtBeam left (i + 1)

  scan_sprites-AtBeam : (left i : ℕ) (dot : Dot) → Ensures (AtBeam b) Any (scan_sprites left i dot)
  unfolding scan_sprites
  scan_sprites-AtBeam zero i dot = Ensures-pure dot any
  scan_sprites-AtBeam (suc left) i dot =
      let rest = scan_sprites-AtBeam left (i + 1) in search (same_beam, rest) depth 16

  pub sprite_dot-AtBeam : Ensures (AtBeam b) Any sprite_dot
  unfolding sprite_dot
  sprite_dot-AtBeam = search (same_beam, scan_sprites-AtBeam) depth 14

  pub get_color_from_palette-AtBeam :
      (palette : ℕ) (pixel : ℕ) → Ensures (AtBeam b) Any (get_color_from_palette palette pixel)
  unfolding get_color_from_palette
  get_color_from_palette-AtBeam palette pixel = search (same_beam) depth 14

  pub draw_pixel-AtBeam : Ensures (AtBeam b) Any draw_pixel
  unfolding draw_pixel
  draw_pixel-AtBeam = search (same_beam, sprite_dot-AtBeam, get_color_from_palette-AtBeam) depth 14

  pub visible_line-AtBeam : Ensures (AtBeam b) Any visible_line
  unfolding visible_line
  visible_line-AtBeam =
      search (same_beam, prepare_background_tile-AtBeam, draw_pixel-AtBeam) depth 18

  pub vblank_line-AtBeam : Ensures (AtBeam b) Any vblank_line
  unfolding vblank_line
  vblank_line-AtBeam = search (same_beam) depth 14

  pub pre_render_dots-AtBeam : Ensures (AtBeam b) Any pre_render_dots
  unfolding pre_render_dots
  pre_render_dots-AtBeam = search (same_beam, prepare_background_tile-AtBeam) depth 20

  pub run_sprites-AtBeam : Ensures (AtBeam b) Any run_sprites
  unfolding run_sprites
  run_sprites-AtBeam = search (same_beam, load_sprites-AtBeam) depth 14
