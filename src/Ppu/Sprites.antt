-- ===== src/Ppu/Sprites.antt =====
-- The sprites of a line: the two blocks at the end of `ppu_run_cycle`, and `reverse_bits`, of
-- emulator/ppu.c.
use nes_emulator.Prelude.{
  ℕ, zero, suc, ◌+◌, ◌-◌, ◌*◌, bit_and, bit_or, copy, fill, update, ltb, ◌==◌, truth, bool_to_int,
  if◌then◌else◌, u8, u16, int_sub, sub_size, ◌<<<◌, ◌>>>◌,
}
use nes_emulator.State.{Ppu}
use nes_emulator.Outcome.{Run, pure, ◌>>=◌, ◌>>◌, gets, modify_ppu, load, store}
use nes_emulator.Ppu.Fields.Ctrl
use nes_emulator.Ppu.Fields.Status
use nes_emulator.Ppu.Vram.{ppu_const_read_vram_data}

unfoldable pub reverse_bits : ℕ → ℕ
reverse_bits n =
    let halves = u8 (bit_or (bit_and n 0xF0 >>> 4) (bit_and n 0x0F <<< 4)) in
    let pairs = u8 (bit_or (bit_and halves 0xCC >>> 2) (bit_and halves 0x33 <<< 2)) in
    u8 (bit_or (bit_and pairs 0xAA >>> 1) (bit_and pairs 0x55 <<< 1))

-- A sprite is on the line when the line is less than its height below its top.
unfoldable pub is_on_line : ℕ → Ppu → ℕ
is_on_line i p = bool_to_int (
    ltb (sub_size p.cur_scanline (p.oam (i * 4)))
      (if truth (Ctrl.sprite_size p.ctrl) then 16 else 8))

-- the body of the loop over the object memory, at object `i`; the copy is of four bytes
unfoldable pub evaluate_sprite : ℕ → Ppu → Ppu
evaluate_sprite i p =
    if truth (is_on_line i p)
    then (let p' = if i == 0 then record p { sprite_zero_hit_possible = 1 } else p in
        if ltb p'.sprite_count 8
        then record p' {
          sprite_scanline = copy p'.sprite_scanline (p'.sprite_count * 4) p'.oam (i * 4) 4;
          sprite_count = u8 (p'.sprite_count + 1);
        }
        else p')
    else p

-- the loop, with `left` objects to go from object `i` on
unfoldable pub evaluate_objects : ℕ → ℕ → Ppu → Ppu
evaluate_objects zero i p = p
evaluate_objects (suc left) i p =
    let rest = evaluate_objects left (i + 1) (evaluate_sprite i p) in
    if ltb p.sprite_count 9 then rest else p

unfoldable pub evaluate_sprites : Ppu → Ppu
evaluate_sprites p =
    let cleared = record p {
      sprite_scanline = fill 0xFF;
      sprite_count = 0;
      sprite_zero_hit_possible = 0;
    } in
    let found = evaluate_objects 64 0 cleared in
    record found {
      status = Status.set_sprite_overflow (bool_to_int (ltb 8 found.sprite_count)) found.status;
    }

-- the address of the low plane of a sprite's row, from the sprite's top, number and attributes
unfoldable pub sprite_pattern_address : Ppu → ℕ → ℕ → ℕ → ℕ
sprite_pattern_address p sprite_y sprite_id attributes =
    let flipped_vertical = bit_and attributes 0x80 in
    let y_diff = u16 (sub_size p.cur_scanline sprite_y) in
    if Ctrl.sprite_size p.ctrl == 0
    then (let row = if truth flipped_vertical then u16 (int_sub 7 y_diff) else y_diff in
        u16 (bit_or (bit_or (Ctrl.pattern_sprite p.ctrl <<< 12) (sprite_id <<< 4)) row))
    else (let cell = if ltb y_diff 8 then bit_and sprite_id 0xFE else bit_and sprite_id 0xFE + 1 in
        let low_row = bit_and y_diff 0x07 in
        let row = if truth flipped_vertical then 7 - low_row else low_row in
        u16 (bit_or (bit_or (bit_and sprite_id 0x01 <<< 12) (cell <<< 4)) row))

-- The second plane is read from the next address.
unfoldable pub load_sprite : ℕ → Run (Unit {0})
load_sprite i = do
  p ← gets (λ e. e.ppu)
  attributes ← load 0x40 p.sprite_scanline (i * 4 + 2)
  sprite_y ← load 0x40 p.sprite_scanline (i * 4)
  sprite_id ← load 0x40 p.sprite_scanline (i * 4 + 1)
  let address_lo = sprite_pattern_address p sprite_y sprite_id attributes
  bits_lo ← ppu_const_read_vram_data address_lo
  bits_hi ← ppu_const_read_vram_data (u16 (address_lo + 1))
  let flipped_horizontal = bit_and attributes 0x40
  let lo = if truth flipped_horizontal then reverse_bits bits_lo else bits_lo
  let hi = if truth flipped_horizontal then reverse_bits bits_hi else bits_hi
  store 8 i (
      modify_ppu (λ p. record p {
        sprite_shifter_pattern_lo = update p.sprite_shifter_pattern_lo i lo;
        sprite_shifter_pattern_hi = update p.sprite_shifter_pattern_hi i hi;
      }))

-- the loop, with `left` sprites to go from number `i` on
unfoldable pub load_sprites : ℕ → ℕ → Run (Unit {0})
load_sprites zero i = pure tt
load_sprites (suc left) i = do load_sprite i; load_sprites left (i + 1)
