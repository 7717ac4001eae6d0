-- ===== src/Ppu/Background.antt =====
-- `prepare_background_tile` of emulator/ppu.c.
use nes_emulator.Prelude.{
  ℕ, ◌+◌, ◌%◌, bit_and, bit_or, ◌==◌, truth, if◌then◌else◌, u16, ◌<<<◌, ◌>>>◌,
}
use nes_emulator.Outcome.{Run, pure, ◌>>=◌, ◌>>◌, gets, modify_ppu}
use nes_emulator.Ppu.Fields.Ctrl
use nes_emulator.Ppu.Fields.VramAddr
use nes_emulator.Ppu.Vram.{ppu_const_read_vram_data}
use nes_emulator.Ppu.Scroll.{increment_scroll_x}
use nes_emulator.Ppu.Shifters.{load_shifters, update_shifters}

unfoldable pub fetch_tile_id : Run (Unit {0})
fetch_tile_id = do
  modify_ppu load_shifters
  p ← gets (λ e. e.ppu)
  id ← ppu_const_read_vram_data (bit_or 0x2000 (bit_and p.vram_addr 0x0FFF))
  modify_ppu (λ p. record p { next_tile_id = id })

-- the address of the attribute byte
unfoldable pub attribute_address : ℕ → ℕ
attribute_address v = bit_or 0x23C0 (
    bit_or
      (bit_or (bit_or (VramAddr.nametable_y v <<< 11) (VramAddr.nametable_x v <<< 10))
        ((VramAddr.coarse_y v >>> 2) <<< 3))
      (VramAddr.coarse_x v >>> 2))

-- the two bits of the attribute byte for the tile's quadrant
unfoldable pub select_attribute : ℕ → ℕ → ℕ
select_attribute v attr =
    let a = if truth (bit_and (VramAddr.coarse_y v) 0x02) then attr >>> 4 else attr in
    let b = if truth (bit_and (VramAddr.coarse_x v) 0x02) then a >>> 2 else a in bit_and b 0x03

unfoldable pub fetch_tile_attr : Run (Unit {0})
fetch_tile_attr = do
  p ← gets (λ e. e.ppu)
  attr ← ppu_const_read_vram_data (attribute_address p.vram_addr)
  modify_ppu (λ p. record p { next_tile_attr = select_attribute p.vram_addr attr })

-- the row of the tile's pattern; `plane` is 0 or 8
unfoldable pub read_tile_row : ℕ → Run ℕ
read_tile_row plane = do
  p ← gets (λ e. e.ppu)
  ppu_const_read_vram_data (
      u16 (
        (Ctrl.pattern_background p.ctrl <<< 12)
        + (p.next_tile_id <<< 4)
        + VramAddr.fine_y p.vram_addr
        + plane))

unfoldable pub prepare_background_tile : Run (Unit {0})
prepare_background_tile = do
  update_shifters
  p ← gets (λ e. e.ppu)
  let phase = p.cur_dot % 8
  if phase == 1
      then fetch_tile_id
      else if phase == 3
      then fetch_tile_attr
      else if phase == 5
      then (do lsb ← read_tile_row 0; modify_ppu (λ p. record p { next_tile_lsb = lsb }))
      else if phase == 7
      then (do msb ← read_tile_row 8; modify_ppu (λ p. record p { next_tile_msb = msb }))
      else if phase == 0
      then modify_ppu increment_scroll_x
      else pure tt
