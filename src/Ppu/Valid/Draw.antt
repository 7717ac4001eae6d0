-- ===== src/Ppu/Valid/Draw.antt =====
-- The drawing of a pixel keeps the invariant.
use nes_emulator.Prelude.{ℕ, zero, suc, ◌+◌, ◌∷◌, arith, if◌then◌else◌, ◌==◌}
use nes_emulator.State.{Ppu, Pixel}
use nes_emulator.State.Valid.{
  IsValid, PpuIsValid, get_ppu-IsValid, modify_ppu-IsValid, bind_ppu, valid_rules,
}
use nes_emulator.Outcome.{pure, modify, modify_ppu}
use nes_emulator.Outcome.Ensures.{
  Ensures, Any, any, Ensures-pure, Ensures-modify, bind-Any, bind_byte,
}
use nes_emulator.Ppu.Vram.Valid.{ppu_const_read_vram_data-IsByte}
use nes_emulator.Ppu.Fields.Status
use nes_emulator.Ppu.Draw.{
  Dot, background_dot, scan_sprites, sprite_dot, mark_zero_hit, get_color_from_palette, draw_pixel,
}
use nes_emulator.Ppu.Valid.Shifters.{
  load_line-IsByte, load_pattern_lo-IsByte, load_pattern_hi-IsByte,
}

return_dot : (d : Dot) → Ensures IsValid Any (pure d)
return_dot d = Ensures-pure d any

pub mark_rendering-IsValid :
    (i : ℕ)
    → Ensures IsValid Any
        (modify_ppu (λ p. if i == 0 then record p { sprite_zero_hit_rendering = 1 } else p))
mark_rendering-IsValid i = modify_ppu-IsValid _ λ p v. ground arith

scan_sprites-IsValid : (left i : ℕ) (dot : Dot) → Ensures IsValid Any (scan_sprites left i dot)
unfolding scan_sprites
scan_sprites-IsValid zero i dot = Ensures-pure dot any
scan_sprites-IsValid (suc left) i dot =
    let rest = scan_sprites-IsValid left (i + 1) in
    search
      (
        valid_rules, rest, load_line-IsByte, load_pattern_lo-IsByte, load_pattern_hi-IsByte,
        mark_rendering-IsValid, return_dot,
      )
      depth 12

pub clear_rendering-IsValid :
    Ensures IsValid Any (modify_ppu (λ p. record p { sprite_zero_hit_rendering = 0 }))
clear_rendering-IsValid = modify_ppu-IsValid _ λ p v. ground arith

sprite_dot-IsValid : Ensures IsValid Any sprite_dot
unfolding sprite_dot
sprite_dot-IsValid =
    search (valid_rules, clear_rendering-IsValid, scan_sprites-IsValid, return_dot) depth 8

put_hit-IsValid :
    (p : Ppu)
    → PpuIsValid p
    → PpuIsValid (record p { status = Status.set_sprite_zero_hit 1 p.status })
put_hit-IsValid p v = ground arith

pub mark_zero_hit-IsValid :
    (bg sprite : Dot) (p : Ppu) → PpuIsValid p → PpuIsValid (mark_zero_hit bg sprite p)
unfolding mark_zero_hit
mark_zero_hit-IsValid bg sprite p v = ground (arith, put_hit-IsValid p v)

color-IsValid : (palette pixel : ℕ) → Ensures IsValid Any (get_color_from_palette palette pixel)
unfolding get_color_from_palette
color-IsValid palette pixel =
    bind_byte _ _ (ppu_const_read_vram_data-IsByte _) λ index _. Ensures-pure _ any

pub put_pixel-IsValid :
    (d : Pixel) → Ensures IsValid Any (modify (λ e. record e { drawn = d ∷ e.drawn }))
put_pixel-IsValid d =
    Ensures-modify _
      λ e v. record { cpu = v.cpu; ppu = v.ppu; mem = v.mem; mapper = v.mapper; rom = v.rom }

pub draw_pixel-IsValid : Ensures IsValid Any draw_pixel
unfolding draw_pixel
draw_pixel-IsValid = bind_ppu _ _ get_ppu-IsValid λ p _. bind-Any _ _ sprite_dot-IsValid λ sprite.
    bind-Any _ _ (modify_ppu-IsValid _ (mark_zero_hit-IsValid (background_dot p) sprite)) λ _.
      bind-Any _ _ (color-IsValid _ _)
        λ color. bind_ppu _ _ get_ppu-IsValid λ q _. put_pixel-IsValid _
