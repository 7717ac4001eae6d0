-- ===== src/Ppu/Valid/Cycle.antt =====
-- `ppu_run_cycle` keeps the invariant.
use nes_emulator.Prelude.{ℕ, arith, fill-IsBytes, if◌then◌else◌, not, ◌&&◌, ◌==◌}
use nes_emulator.State.{Ppu, nmi}
use nes_emulator.State.Valid.{
  IsValid, PpuIsValid, modify_cpu-IsValid, modify_ppu-IsValid, valid_rules,
}
use nes_emulator.Outcome.{modify_cpu, modify_ppu}
use nes_emulator.Outcome.Ensures.{Ensures, Any, any, Ensures-gets, bind-Any}
use nes_emulator.Cpu.Interrupt.{cpu_set_interrupt}
use nes_emulator.Ppu.Fields.Status
use nes_emulator.Ppu.Scroll.{increment_scroll_y, reload_scroll_y}
use nes_emulator.Ppu.Scroll.Valid.{
  increment_scroll_y-IsValid, reload_scroll_x-IsValid, reload_scroll_y-IsValid,
}
use nes_emulator.Ppu.Shifters.{load_shifters}
use nes_emulator.Ppu.Sprites.{evaluate_sprites}
use nes_emulator.Ppu.Cycle.{
  end_of_line, visible_line, vblank_line, clear_flags, pre_render_dots, skip_dot, pre_render_line,
  run_line, advance, run_sprites, ppu_run_cycle,
}
use nes_emulator.Ppu.Valid.Shifters.{
  load_shifters-IsValid, prepare_background_tile-IsValid, idle-IsValid,
}
use nes_emulator.Ppu.Valid.Sprites.{evaluate_sprites-IsValid, load_sprites-IsValid}
use nes_emulator.Ppu.Valid.Draw.{draw_pixel-IsValid}

end_of_line-IsValid : (p : Ppu) → PpuIsValid p → PpuIsValid (end_of_line p)
unfolding end_of_line
end_of_line-IsValid p v =
    let p' = if p.cur_dot == 256 then increment_scroll_y p else p in
    ground (
      arith,
      increment_scroll_y-IsValid p v,
      reload_scroll_x-IsValid (load_shifters p'),
      load_shifters-IsValid p',
    )

pub line_end-IsValid : Ensures IsValid Any (modify_ppu end_of_line)
line_end-IsValid = modify_ppu-IsValid _ end_of_line-IsValid

visible_line-IsValid : Ensures IsValid Any visible_line
unfolding visible_line
visible_line-IsValid =
    search
      (
        valid_rules, prepare_background_tile-IsValid, draw_pixel-IsValid, line_end-IsValid,
        idle-IsValid,
      )
      depth 12

pub set_vblank-IsValid :
    Ensures IsValid Any (modify_ppu λ p. record p { status = Status.set_vblank 1 p.status })
set_vblank-IsValid = modify_ppu-IsValid _ λ p v. ground arith

pub raise_nmi-IsValid : Ensures IsValid Any (modify_cpu (cpu_set_interrupt nmi))
unfolding cpu_set_interrupt
raise_nmi-IsValid = modify_cpu-IsValid _ λ c v. ground arith

vblank_line-IsValid : Ensures IsValid Any vblank_line
unfolding vblank_line
vblank_line-IsValid =
    search (valid_rules, set_vblank-IsValid, raise_nmi-IsValid, idle-IsValid) depth 9

clear_flags-IsValid : (p : Ppu) → PpuIsValid p → PpuIsValid (clear_flags p)
unfolding clear_flags
clear_flags-IsValid p v = ground (arith, fill-IsBytes 0)

pub start_clear-IsValid :
    Ensures IsValid Any (modify_ppu λ p. if p.cur_dot == 1 then clear_flags p else p)
start_clear-IsValid = modify_ppu-IsValid _ λ p v. ground (arith, clear_flags-IsValid p v)

pub reload_y-IsValid : Ensures IsValid Any (modify_ppu reload_scroll_y)
reload_y-IsValid = modify_ppu-IsValid _ reload_scroll_y-IsValid

pre_render_dots-IsValid : Ensures IsValid Any pre_render_dots
unfolding pre_render_dots
pre_render_dots-IsValid =
    search
      (
        valid_rules, prepare_background_tile-IsValid, start_clear-IsValid, line_end-IsValid,
        reload_y-IsValid, idle-IsValid,
      )
      depth 14

pub skip_dot-IsValid : (n : ℕ) (p : Ppu) → PpuIsValid p → PpuIsValid (skip_dot n p)
unfolding skip_dot
skip_dot-IsValid n p v = ground arith

pre_render_line-IsValid : Ensures IsValid Any pre_render_line
unfolding pre_render_line
pre_render_line-IsValid =
    bind-Any _ _ pre_render_dots-IsValid
      λ _. bind-Any _ _ (Ensures-gets _ λ e v. any) λ n. modify_ppu-IsValid _ (skip_dot-IsValid n)

run_line-IsValid : Ensures IsValid Any run_line
unfolding run_line
run_line-IsValid =
    search
      (
        valid_rules, visible_line-IsValid, vblank_line-IsValid, pre_render_line-IsValid,
        idle-IsValid,
      )
      depth 9

pub advance-IsValid : (p : Ppu) → PpuIsValid p → PpuIsValid (advance p)
unfolding advance
advance-IsValid p v = ground arith

pub evaluate_line-IsValid : Ensures IsValid Any (
    modify_ppu
      λ p. if p.cur_dot == 257 && not (p.cur_scanline == 261) then evaluate_sprites p else p)
evaluate_line-IsValid = modify_ppu-IsValid _ λ p v. ground (arith, evaluate_sprites-IsValid p v)

run_sprites-IsValid : Ensures IsValid Any run_sprites
unfolding run_sprites
run_sprites-IsValid =
    search (valid_rules, evaluate_line-IsValid, load_sprites-IsValid, idle-IsValid) depth 8

pub advance_dot-IsValid : Ensures IsValid Any (modify_ppu advance)
advance_dot-IsValid = modify_ppu-IsValid _ advance-IsValid

pub ppu_run_cycle-IsValid : Ensures IsValid Any ppu_run_cycle
unfolding ppu_run_cycle
ppu_run_cycle-IsValid =
    bind-Any _ _ run_line-IsValid λ _. bind-Any _ _ advance_dot-IsValid λ _. run_sprites-IsValid
