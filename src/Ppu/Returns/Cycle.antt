-- ===== src/Ppu/Returns/Cycle.antt =====
-- The accesses in the parts of `ppu_run_cycle`.
use nes_emulator.Prelude.{◌≡◌, refl, arith}
use nes_emulator.State.{Emulator}
use nes_emulator.State.Valid.{modify_ppu-IsValid}
use nes_emulator.Outcome.{Outcome, done, exited, undefined, gets}
use nes_emulator.Outcome.Ensures.{Any, any}
use nes_emulator.Outcome.Returns.{
  Succeeds, Returns, Returns-bind, Returns-gets, Returns-if, then-Returns, returns_rules,
}
use nes_emulator.Ppu.Cycle.{
  visible_line, vblank_line, pre_render_dots, pre_render_line, run_line, run_sprites, ppu_run_cycle,
}
use nes_emulator.Ppu.Valid.Cycle.{
  line_end-IsValid, set_vblank-IsValid, raise_nmi-IsValid, start_clear-IsValid, reload_y-IsValid,
  skip_dot-IsValid, advance_dot-IsValid, evaluate_line-IsValid,
}
use nes_emulator.Ppu.Returns.Reads.{
  IsSound, get_ppu-Returns, modify_ppu-Returns, modify_cpu-Returns,
}
use nes_emulator.Ppu.Returns.Background.{idle-Returns, prepare_background_tile-Returns}
use nes_emulator.Ppu.Returns.Sprites.{load_sprites-Returns}
use nes_emulator.Ppu.Returns.Pixels.{draw_pixel-Returns}

ask_ppu : Returns IsSound Any (gets λ e. e.ppu)
ask_ppu = Returns-gets _ λ e s. any

visible_line-Returns : Returns IsSound Any visible_line
unfolding visible_line
visible_line-Returns =
    search
      (
        returns_rules, ask_ppu, prepare_background_tile-Returns, draw_pixel-Returns,
        modify_ppu-Returns, line_end-IsValid, idle-Returns,
      )
      depth 12

vblank_line-Returns : Returns IsSound Any vblank_line
unfolding vblank_line
vblank_line-Returns =
    search
      (
        returns_rules, ask_ppu, modify_ppu-Returns, modify_cpu-Returns, set_vblank-IsValid,
        raise_nmi-IsValid, idle-Returns,
      )
      depth 9

pre_render_dots-Returns : Returns IsSound Any pre_render_dots
unfolding pre_render_dots
pre_render_dots-Returns =
    search
      (
        returns_rules, ask_ppu, modify_ppu-Returns, prepare_background_tile-Returns,
        start_clear-IsValid, line_end-IsValid, reload_y-IsValid, idle-Returns,
      )
      depth 14

pre_render_line-Returns : Returns IsSound Any pre_render_line
unfolding pre_render_line
pre_render_line-Returns = Returns-bind _ _ pre_render_dots-Returns λ _ _.
    then-Returns _ _ (Returns-gets _ λ e s. any)
      λ n. modify_ppu-Returns _ (modify_ppu-IsValid _ (skip_dot-IsValid n))

run_line-Returns : Returns IsSound Any run_line
unfolding run_line
run_line-Returns =
    search
      (
        returns_rules, ask_ppu, visible_line-Returns, vblank_line-Returns, pre_render_line-Returns,
        idle-Returns,
      )
      depth 9

run_sprites-Returns : Returns IsSound Any run_sprites
unfolding run_sprites
run_sprites-Returns = Returns-bind _ _ (modify_ppu-Returns _ evaluate_line-IsValid) λ _ _.
    Returns-bind _ _ get_ppu-Returns λ p v.
      let held = load_sprites-Returns p.sprite_count 0 (omega (arith, v.sprite_count)) in
      search (Returns-if, held, idle-Returns) depth 4

cycle-Returns : Returns IsSound Any ppu_run_cycle
unfolding ppu_run_cycle
cycle-Returns =
    Returns-bind _ _ run_line-Returns
      λ _ _. Returns-bind _ _ (modify_ppu-Returns _ advance_dot-IsValid) λ _ _. run_sprites-Returns

Succeeds-done :
    (o : Outcome (Unit {0} × Emulator))
    → Succeeds IsSound Any o
    → (e : Emulator) × (o ≡ done (tt, e)) × IsSound e
Succeeds-done (done (tt, e)) h = (e, refl, h.1)
Succeeds-done exited h = absurd h
Succeeds-done undefined h = absurd h

-- From each state with the invariant, in which the patterns of the cartridge lie in their array,
-- one cycle of the PPU returns: it leaves no array, and the invariant and the cartridge's
-- patterns are kept.
pub ppu_run_cycle-done :
    (e : Emulator) → IsSound e → (e' : Emulator) × (ppu_run_cycle e ≡ done (tt, e')) × IsSound e'
ppu_run_cycle-done e s = Succeeds-done (ppu_run_cycle e) (cycle-Returns.at e s)
