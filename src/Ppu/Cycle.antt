-- ===== src/Ppu/Cycle.antt =====
-- `ppu_run_cycle` of emulator/ppu.c: one dot of the picture.
use nes_emulator.Prelude.{ℕ, ◌%◌, not, ◌&&◌, fill, ltb, leb, ◌==◌, truth, if◌then◌else◌, add_size}
use nes_emulator.State.{Ppu, nmi}
use nes_emulator.Outcome.{Run, pure, ◌>>=◌, ◌>>◌, gets, modify_ppu, modify_cpu}
use nes_emulator.Cpu.Interrupt.{cpu_set_interrupt}
use nes_emulator.Ppu.Fields.Ctrl
use nes_emulator.Ppu.Fields.Mask
use nes_emulator.Ppu.Fields.Status
use nes_emulator.Ppu.Scroll.{increment_scroll_y, reload_scroll_x, reload_scroll_y}
use nes_emulator.Ppu.Shifters.{load_shifters}
use nes_emulator.Ppu.Background.{prepare_background_tile}
use nes_emulator.Ppu.Sprites.{evaluate_sprites, load_sprites}
use nes_emulator.Ppu.Draw.{draw_pixel}

-- what dots 256 and 257 do on a visible line and on the pre-render line
unfoldable pub end_of_line : Ppu → Ppu
end_of_line p =
    let p' = if p.cur_dot == 256 then increment_scroll_y p else p in
    if p'.cur_dot == 257 then reload_scroll_x (load_shifters p') else p'

unfoldable pub visible_line : Run (Unit {0})
visible_line = do
  p ← gets (λ e. e.ppu)
  if p.cur_dot == 0
      then pure tt
      else if ltb p.cur_dot 258
      then (do prepare_background_tile; draw_pixel; modify_ppu end_of_line)
      else if ltb p.cur_dot 321
      then pure tt
      else if ltb p.cur_dot 337
      then prepare_background_tile
      else pure tt

unfoldable pub vblank_line : Run (Unit {0})
vblank_line = do
  p ← gets (λ e. e.ppu)
  if p.cur_scanline == 241 && p.cur_dot == 1
      then (do
        modify_ppu (λ p. record p { status = Status.set_vblank 1 p.status })
        if truth (Ctrl.enable_nmi p.ctrl) then modify_cpu (cpu_set_interrupt nmi) else pure tt)
      else pure tt

unfoldable pub clear_flags : Ppu → Ppu
clear_flags p = record p {
  status =
      Status.set_sprite_overflow 0 (Status.set_sprite_zero_hit 0 (Status.set_vblank 0 p.status));
  sprite_shifter_pattern_lo = fill 0;
  sprite_shifter_pattern_hi = fill 0;
}

-- the dots of the pre-render line
unfoldable pub pre_render_dots : Run (Unit {0})
pre_render_dots = do
  p ← gets (λ e. e.ppu)
  if p.cur_dot == 0
      then pure tt
      else if ltb p.cur_dot 258
      then (do
        modify_ppu (λ p. if p.cur_dot == 1 then clear_flags p else p)
        prepare_background_tile
        modify_ppu end_of_line)
      else if ltb p.cur_dot 280
      then pure tt
      else if ltb p.cur_dot 305
      then modify_ppu reload_scroll_y
      else if ltb p.cur_dot 321
      then pure tt
      else if ltb p.cur_dot 337
      then prepare_background_tile
      else pure tt

-- one dot less on odd frames
unfoldable pub skip_dot : ℕ → Ppu → Ppu
skip_dot cur_frame p =
    if p.cur_dot == 339 && cur_frame % 2 == 1 && truth (Mask.render_background p.mask)
    then record p { cur_dot = add_size p.cur_dot 1 }
    else p

unfoldable pub pre_render_line : Run (Unit {0})
pre_render_line = do
  pre_render_dots
  cur_frame ← gets (λ e. e.cur_frame)
  modify_ppu (skip_dot cur_frame)

unfoldable pub run_line : Run (Unit {0})
run_line = do
  p ← gets (λ e. e.ppu)
  if ltb p.cur_scanline 240
      then visible_line
      else if p.cur_scanline == 240
      then pure tt
      else if ltb p.cur_scanline 261
      then vblank_line
      else pre_render_line

-- the counters of dots and of lines
unfoldable pub advance : Ppu → Ppu
advance p =
    let p' = record p {
      cycle_counter = add_size p.cycle_counter 1;
      cur_dot = add_size p.cur_dot 1;
    } in
    if leb 341 p'.cur_dot
    then (let p'' = record p' { cur_dot = 0; cur_scanline = add_size p'.cur_scanline 1 } in
        if leb 262 p''.cur_scanline
        then record p'' { cur_scanline = 0; frame_complete = 1; cycle_counter = 0 }
        else p'')
    else p'

unfoldable pub run_sprites : Run (Unit {0})
run_sprites = do
  modify_ppu
      (λ p. if p.cur_dot == 257 && not (p.cur_scanline == 261) then evaluate_sprites p else p)
  p ← gets (λ e. e.ppu)
  if p.cur_dot == 340 then load_sprites p.sprite_count 0 else pure tt

unfoldable pub ppu_run_cycle : Run (Unit {0})
ppu_run_cycle = do run_line; modify_ppu advance; run_sprites
