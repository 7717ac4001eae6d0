-- ===== src/Tests/Picture.antt =====
-- The PPU at a concrete machine.
use nes_emulator.Ppu.Draw.{no_dot, scan_sprites}
use nes_emulator.Ppu.Draw.Priority.{is_opaque, dot_at, with_shown, scan_sprites-first}
use nes_emulator.Prelude.{
  ℕ, zero, suc, ◌<◌, ◌≢◌, ltb, refl, true, false, ◌+◌, ◌-◌, ◌*◌, ◌%◌, ◌≡◌, fill, arith, ◌==◌,
  if◌then◌else◌,
}
use nes_emulator.State.{Emulator, Ppu}
use nes_emulator.Outcome.{done}
use nes_emulator.Ppu.Fields.Status
use nes_emulator.Ppu.Fields.VramAddr
use nes_emulator.Ppu.Scroll.{next_scroll_x, next_scroll_y}
use nes_emulator.Ppu.Vram.{calculate_vram_index}
use nes_emulator.Ppu.Sprites.{evaluate_sprites}
use nes_emulator.Ppu.Cycle.{advance}
use nes_emulator.Ppu.Laws.Timing.{position, position-advance}
use nes_emulator.Ppu.Laws.Addressing.{scroll_row, scroll_row-next_scroll_y, coarse_x-next_scroll_x}
use nes_emulator.Ppu.Laws.Sprites.{sprite_overflow-evaluate_sprites}
use nes_emulator.Ppu.Laws.Nametables.{mirrored, index-horizontal}
use nes_emulator.Ppu.Laws.Held.{laid_out, objects_on_line, held-evaluate_sprites}
use nes_emulator.Tests.Machine.{machine, ppu-IsValid}

position-advance_example :
    (position (advance machine.ppu) ≡ (position machine.ppu + 1) % (262 * 341))
    × ((advance machine.ppu).frame_complete
        ≡ (if position machine.ppu + 1 == 262 * 341 then 1 else machine.ppu.frame_complete))
position-advance_example = position-advance machine.ppu ppu-IsValid

scroll_row-next_scroll_y_example :
    (scroll_row (next_scroll_y 0x73BF) ≡ (scroll_row 0x73BF + 1) % 240)
    × (VramAddr.nametable_y (next_scroll_y 0x73BF) ≡ (
        if scroll_row 0x73BF == 239
        then 1 - VramAddr.nametable_y 0x73BF
        else VramAddr.nametable_y 0x73BF))
    × (VramAddr.coarse_x (next_scroll_y 0x73BF) ≡ VramAddr.coarse_x 0x73BF)
    × (VramAddr.nametable_x (next_scroll_y 0x73BF) ≡ VramAddr.nametable_x 0x73BF)
scroll_row-next_scroll_y_example = scroll_row-next_scroll_y 0x73BF (omega arith) (omega arith)

coarse_x-next_scroll_x_example :
    (VramAddr.coarse_x (next_scroll_x 0x041F) ≡ (VramAddr.coarse_x 0x041F + 1) % 32)
    × (VramAddr.nametable_x (next_scroll_x 0x041F)
        ≡ (if VramAddr.coarse_x 0x041F == 31 then 0 else VramAddr.nametable_x 0x041F))
    × (VramAddr.coarse_y (next_scroll_x 0x041F) ≡ VramAddr.coarse_y 0x041F)
    × (VramAddr.fine_y (next_scroll_x 0x041F) ≡ VramAddr.fine_y 0x041F)
coarse_x-next_scroll_x_example = coarse_x-next_scroll_x 0x041F (omega arith)

abbrev top_line : Ppu
top_line = record machine.ppu { cur_scanline = 3; cur_dot = 257 }

sprite_overflow-evaluate_sprites_example :
    Status.sprite_overflow (evaluate_sprites top_line).status ≡ 0
sprite_overflow-evaluate_sprites_example = sprite_overflow-evaluate_sprites top_line

index-horizontal_example :
    (calculate_vram_index (0x2000 + 1 * 0x0400 + 5) (mirrored machine)
      ≡ done ((if ltb 1 2 then 0 else 0x0800) + (5 + 1) % 0x03FF, mirrored machine))
    × (calculate_vram_index (0x2000 + 1 * 0x0400 + 5) (mirrored machine)
        ≢ calculate_vram_index (0x2000 + 0 * 0x0400 + 5) (mirrored machine))
index-horizontal_example =
    index-horizontal 5 1 0 machine (omega arith) (omega arith) (omega arith)
      λ h. absurd (omega (arith, h))

held-evaluate_sprites_example :
    (evaluate_sprites top_line).sprite_scanline 6
    ≡ laid_out (fill 0xFF) top_line.oam 0 (objects_on_line 64 0 top_line) 6
held-evaluate_sprites_example = held-evaluate_sprites top_line 6

-- sprite number 1 has a pixel at the dot, number 0 has none
abbrev second_shown : Emulator
second_shown = record machine {
  ppu = record machine.ppu { sprite_shifter_pattern_lo = λ i. if i == 1 then 0x80 else 0 };
}

first_clear : (k : ℕ) → k < 1 → is_opaque second_shown.ppu k ≡ false
unfolding is_opaque dot_at
first_clear zero h = refl
first_clear (suc k) h = absurd (omega (arith, h))

second_opaque : is_opaque second_shown.ppu 1 ≡ true
unfolding is_opaque dot_at
second_opaque = refl

scan_sprites-first_example :
    scan_sprites 2 0 no_dot second_shown
    ≡ done (dot_at second_shown.ppu 1, with_shown 1 second_shown)
scan_sprites-first_example =
    scan_sprites-first 2 1 second_shown (omega arith) (omega arith) first_clear second_opaque
