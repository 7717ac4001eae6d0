-- ===== src/Debug/Screen.antt =====
-- The debug screen of dev/debug.c: the pixels that are put into its region of the window, in order,
-- with their coordinates in the region.
pub mod Laws
use nes_emulator.Prelude.{
  ℕ, zero, suc, ◌+◌, ◌-◌, ◌*◌, ◌/◌, ◌%◌, bit_and, bit_or, Bool, ◌||◌, List, [], ◌∷◌, ◌++◌, ◌==◌,
  truth, if◌then◌else◌, u8, u16, ◌<<<◌, ◌>>>◌,
}
use nes_emulator.State.{Emulator, Mirroring, horizontal, Pixel}
use nes_emulator.Outcome.{Run, pure, exit_failure, ◌>>=◌, ◌>>◌, gets}
use nes_emulator.Ppu.Fields.Ctrl
use nes_emulator.Ppu.Vram.{ppu_const_read_vram_data}

unfoldable pub get_color : ℕ → ℕ
get_color color_index =
    if color_index == 1
    then 0x555555
    else if color_index == 2
    then 0xAAAAAA
    else if color_index == 3
    then 0xFFFFFF
    else 0x000000

abbrev pub assert : Bool → Run (Unit {0})
assert holds = if holds then pure tt else exit_failure

-- the pixels of a row, with `left` to go from number `x` on
unfoldable pub row_pixels : ℕ → ℕ → ℕ → ℕ → ℕ → ℕ → List Pixel
row_pixels zero x low_byte high_byte left_coord y = []
row_pixels (suc left) x low_byte high_byte left_coord y =
    let low_bit = bit_and (low_byte >>> (7 - x)) 0x1 in
    let high_bit = bit_and (high_byte >>> (7 - x)) 0x1 in
    let color_index = bit_or (high_bit <<< 1) low_bit in
    (record { x = left_coord + x; y = y; color = get_color color_index })
    ∷ row_pixels left (x + 1) low_byte high_byte left_coord y

-- the rows of a tile, with `left` to go from number `y` on
unfoldable pub draw_rows : ℕ → ℕ → ℕ → ℕ → ℕ → Run (List Pixel)
draw_rows zero y tile_address left_coord top_coord = pure []
draw_rows (suc left) y tile_address left_coord top_coord = do
  low_byte ← ppu_const_read_vram_data (u16 (tile_address + y))
  high_byte ← ppu_const_read_vram_data (u16 (tile_address + y + 8))
  rows ← draw_rows left (y + 1) tile_address left_coord top_coord
  pure (row_pixels 8 0 low_byte high_byte left_coord (top_coord + y) ++ rows)

unfoldable pub draw_tile : ℕ → ℕ → ℕ → ℕ → Run (List Pixel)
draw_tile base_address tile_index left_coord top_coord = do
  assert (base_address == 0x0000 || base_address == 0x1000)
  draw_rows 8 0 (u16 (base_address + tile_index * 16)) left_coord top_coord

-- the tiles of a pattern table, with `left` to go from number `tile_index` on
unfoldable pub draw_tiles : ℕ → ℕ → ℕ → ℕ → ℕ → Run (List Pixel)
draw_tiles zero tile_index base_address left_coord top_coord = pure []
draw_tiles (suc left) tile_index base_address left_coord top_coord = do
  tile ←
      draw_tile base_address tile_index (left_coord + tile_index % 16 * 8)
        (top_coord + tile_index / 16 * 8)
  tiles ← draw_tiles left (tile_index + 1) base_address left_coord top_coord
  pure (tile ++ tiles)

unfoldable pub draw_pattern_table : ℕ → ℕ → ℕ → Run (List Pixel)
draw_pattern_table base_address left_coord top_coord =
    draw_tiles (16 * 16) 0 base_address left_coord top_coord

-- the tiles of a name table, with `left` to go from number `nametable_index` on
unfoldable pub draw_cells : ℕ → ℕ → ℕ → ℕ → ℕ → ℕ → Run (List Pixel)
draw_cells zero nametable_index pattern_base base_address left_coord top_coord = pure []
draw_cells (suc left) nametable_index pattern_base base_address left_coord top_coord = do
  tile_index ← ppu_const_read_vram_data (u16 (base_address + nametable_index))
  tile ←
      draw_tile pattern_base tile_index (left_coord + nametable_index % 32 * 8)
        (top_coord + nametable_index / 32 * 8)
  tiles ← draw_cells left (nametable_index + 1) pattern_base base_address left_coord top_coord
  pure (tile ++ tiles)

-- `end_address` leaves out the attribute table.
unfoldable pub draw_nametable : ℕ → ℕ → ℕ → Run (List Pixel)
draw_nametable base_address left_coord top_coord = do
  assert (
      base_address == 0x2000
      || base_address == 0x2400
      || base_address == 0x2800
      || base_address == 0x2C00)
  p ← gets (λ e. e.ppu)
  let pattern_base = if truth (Ctrl.pattern_background p.ctrl) then 0x1000 else 0x0000
  draw_cells (1024 - 64) 0 pattern_base base_address left_coord top_coord

-- `nametable_base_address_2`
unfoldable pub second_nametable : Mirroring → ℕ
second_nametable horizontal = 0x2800
second_nametable other = 0x2400

unfoldable pub debug_draw_screen : Run (List Pixel)
debug_draw_screen = do
  left_patterns ← draw_pattern_table 0x0000 0 0
  right_patterns ← draw_pattern_table 0x1000 128 0
  names ← draw_nametable 0x2000 0 128
  m ← gets (λ e. e.mapper)
  upper ← draw_nametable 0x2000 0 128
  lower ← draw_nametable (second_nametable m.mirroring) 0 368
  pure (left_patterns ++ right_patterns ++ names ++ upper ++ lower)
