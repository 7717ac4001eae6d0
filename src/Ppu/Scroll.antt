-- ===== src/Ppu/Scroll.antt =====
-- The scrolling counters of emulator/ppu.c: `increment_scroll_x`, `increment_scroll_y`,
-- `reload_scroll_x` and `reload_scroll_y`.
pub mod Valid
use nes_emulator.Prelude.{
  ℕ, ◌+◌, ◌&&◌, not, bit_xor, bit_not, Bool, ltb, ◌==◌, truth, if◌then◌else◌,
}
use nes_emulator.State.{Ppu}
use nes_emulator.Ppu.Fields.Mask
use nes_emulator.Ppu.Fields.VramAddr

-- the early return of the four functions
unfoldable pub is_not_rendering : Ppu → Bool
is_not_rendering p =
    not (truth (Mask.render_background p.mask)) && not (truth (Mask.render_sprites p.mask))

unfoldable pub next_scroll_x : ℕ → ℕ
next_scroll_x v =
    if VramAddr.coarse_x v == 31
    then (let v' = VramAddr.set_coarse_x 0 v in
        VramAddr.set_nametable_x (bit_xor (VramAddr.nametable_x v') (VramAddr.nametable_x v')) v')
    else VramAddr.set_coarse_x (VramAddr.coarse_x v + 1) v

unfoldable pub next_scroll_y : ℕ → ℕ
next_scroll_y v =
    if ltb (VramAddr.fine_y v) 7
    then VramAddr.set_fine_y (VramAddr.fine_y v + 1) v
    else let v' = VramAddr.set_fine_y 0 v in
      if VramAddr.coarse_y v' == 29
      then (let v'' = VramAddr.set_coarse_y 0 v' in
          VramAddr.set_nametable_y (bit_not (VramAddr.nametable_y v'')) v'')
      else if VramAddr.coarse_y v' == 31
      then VramAddr.set_coarse_y 0 v'
      else VramAddr.set_coarse_y (VramAddr.coarse_y v' + 1) v'

unfoldable pub increment_scroll_x : Ppu → Ppu
increment_scroll_x p =
    if is_not_rendering p then p else record p { vram_addr = next_scroll_x p.vram_addr }

unfoldable pub increment_scroll_y : Ppu → Ppu
increment_scroll_y p =
    if is_not_rendering p then p else record p { vram_addr = next_scroll_y p.vram_addr }

unfoldable pub reload_scroll_x : Ppu → Ppu
reload_scroll_x p = if is_not_rendering p then p else record p {
  vram_addr =
      VramAddr.set_coarse_x (VramAddr.coarse_x p.temp_addr)
        (VramAddr.set_nametable_x (VramAddr.nametable_x p.temp_addr) p.vram_addr);
}

unfoldable pub reload_scroll_y : Ppu → Ppu
reload_scroll_y p = if is_not_rendering p then p else record p {
  vram_addr = VramAddr.set_coarse_y (VramAddr.coarse_y p.temp_addr) (
      VramAddr.set_nametable_y (VramAddr.nametable_y p.temp_addr)
        (VramAddr.set_fine_y (VramAddr.fine_y p.temp_addr) p.vram_addr));
}
