-- ===== src/Ppu/Returns/Background.antt =====
-- The accesses in the fetches of the background and in the shifters.
use nes_emulator.Prelude.{
  ℕ, zero, suc, ◌+◌, ◌*◌, ◌≤◌, ◌<◌, ◌≡◌, ◌≢◌, refl, arith, bit_and, bit_or, u16, ◌<<<◌,
}
use nes_emulator.Prelude.Bits.{bit_and_mask, bit_at, bit_at-bit_or, bit_or-lt, bit_and-le_right}
use nes_emulator.State.{Ppu}
use nes_emulator.State.Valid.{IsValid, PpuIsValid, modify_ppu-IsValid}
use nes_emulator.Outcome.{pure, ◌>>=◌, modify_ppu, load}
use nes_emulator.Outcome.Ensures.{Ensures, Any, any, IsByte}
use nes_emulator.Outcome.Returns.{
  Returns, Returns-bind, Returns-load, Returns-pure, Returns-if, returns_rules,
}
use nes_emulator.Ppu.Fields.Ctrl
use nes_emulator.Ppu.Fields.VramAddr
use nes_emulator.Ppu.Shifters.{update_sprite, update_sprites, update_shifters}
use nes_emulator.Ppu.Scroll.{increment_scroll_x}
use nes_emulator.Ppu.Background.{
  fetch_tile_id, fetch_tile_attr, attribute_address, select_attribute, read_tile_row,
  prepare_background_tile,
}
use nes_emulator.Ppu.Valid.Shifters.{
  load_shifters-IsValid, shift_if_rendering-IsValid, shift_patterns-IsValid, count_down-IsValid,
  put_lsb-IsValid, put_msb-IsValid, scroll_x-IsValid, select_attribute-lt,
}
use nes_emulator.Ppu.Returns.Reads.{IsSound, get_ppu-Returns, modify_ppu-Returns, read-Returns}

not_mirror : (a : ℕ) → bit_at 12 a ≡ 0 → bit_and a 0x3FFF ≢ 0x3000
not_mirror a h = omega (arith, bit_and_mask 14 a, h)

low_bit : (a : ℕ) → a < 0x1000 → bit_at 12 a ≡ 0
low_bit a h = omega arith

-- An address that has a low part beside the base of the name tables is not in their mirror.
table_address :
    (base low : ℕ) → bit_at 12 base ≡ 0 → low < 0x1000 → bit_and (bit_or base low) 0x3FFF ≢ 0x3000
table_address base low h l =
    not_mirror (bit_or base low) (rw (bit_at-bit_or 12 base low, h, low_bit low l) refl)

tile_address : (v : ℕ) → bit_and (bit_or 0x2000 (bit_and v 0x0FFF)) 0x3FFF ≢ 0x3000
tile_address v =
    table_address 0x2000 (bit_and v 0x0FFF) refl (omega (arith, bit_and-le_right v 0x0FFF))

attribute_address_lem : (v : ℕ) → bit_and (attribute_address v) 0x3FFF ≢ 0x3000
unfolding attribute_address
attribute_address_lem v = table_address 0x23C0 _ refl (
    bit_or-lt 12 _ _ (bit_or-lt 12 _ _ (bit_or-lt 12 _ _ (omega arith) (omega arith)) (omega arith))
      (omega arith))

row_address :
    (ctrl id v plane : ℕ)
    → id < 256
    → plane ≤ 8
    → bit_and
        (u16 ((Ctrl.pattern_background ctrl <<< 12) + (id <<< 4) + VramAddr.fine_y v + plane))
        0x3FFF
      ≢ 0x3000
row_address ctrl id v plane h k = ground (
  arith,
  bit_and_mask 14
      (u16 ((Ctrl.pattern_background ctrl <<< 12) + (id <<< 4) + VramAddr.fine_y v + plane)),
)

pub idle-Returns : Returns IsSound Any (pure tt)
idle-Returns = Returns-pure tt any

pub line-Returns :
    (p : Ppu) (i : ℕ)
    → i < 0x40
    → PpuIsValid p
    → Returns IsSound IsByte (load 0x40 p.sprite_scanline i)
line-Returns p i h v = Returns-load 0x40 p.sprite_scanline i h (v.sprite_scanline.at i)

pub lo-Returns :
    (p : Ppu) (i : ℕ) → i < 8 → Returns IsSound Any (load 8 p.sprite_shifter_pattern_lo i)
lo-Returns p i h = Returns-load 8 p.sprite_shifter_pattern_lo i h any

pub hi-Returns :
    (p : Ppu) (i : ℕ) → i < 8 → Returns IsSound Any (load 8 p.sprite_shifter_pattern_hi i)
hi-Returns p i h = Returns-load 8 p.sprite_shifter_pattern_hi i h any

update_sprite-Returns : (i : ℕ) → i < 8 → Returns IsSound Any (update_sprite i)
unfolding update_sprite
update_sprite-Returns i h = Returns-bind _ _ get_ppu-Returns λ p v.
    Returns-bind _ _ (line-Returns p (i * 4 + 3) (omega arith) v) λ x b.
      search
        (
          returns_rules, lo-Returns, hi-Returns, modify_ppu-Returns, shift_patterns-IsValid,
          count_down-IsValid,
        )
        depth 9

update_sprites-Returns : (left i : ℕ) → i + left ≤ 8 → Returns IsSound Any (update_sprites left i)
unfolding update_sprites
update_sprites-Returns zero i h = idle-Returns
update_sprites-Returns (suc left) i h =
    Returns-bind _ _ (update_sprite-Returns i (omega arith))
      λ _ _. update_sprites-Returns left (i + 1) (omega arith)

update_shifters-Returns : Returns IsSound Any update_shifters
unfolding update_shifters
update_shifters-Returns = Returns-bind _ _ (modify_ppu-Returns _ shift_if_rendering-IsValid) λ _ _.
    Returns-bind _ _ get_ppu-Returns λ p v.
      let sprites = update_sprites-Returns p.sprite_count 0 (omega (arith, v.sprite_count)) in
      search (Returns-if, sprites, idle-Returns) depth 4

fetch_tile_id-Returns : Returns IsSound Any fetch_tile_id
unfolding fetch_tile_id
fetch_tile_id-Returns =
    Returns-bind _ _ (modify_ppu-Returns _ (modify_ppu-IsValid _ load_shifters-IsValid)) λ _ _.
      Returns-bind _ _ get_ppu-Returns λ p _.
        Returns-bind _ _ (read-Returns _ (tile_address p.vram_addr))
          λ id h. modify_ppu-Returns _ (modify_ppu-IsValid _ λ p v. ground arith)

put_attr-IsValid :
    (attr : ℕ)
    → Ensures IsValid Any
        (modify_ppu λ p. record p { next_tile_attr = select_attribute p.vram_addr attr })
put_attr-IsValid attr =
    modify_ppu-IsValid _ λ p v. ground (arith, select_attribute-lt p.vram_addr attr)

fetch_tile_attr-Returns : Returns IsSound Any fetch_tile_attr
unfolding fetch_tile_attr
fetch_tile_attr-Returns = Returns-bind _ _ get_ppu-Returns λ p _.
    Returns-bind _ _ (read-Returns _ (attribute_address_lem p.vram_addr))
      λ attr h. modify_ppu-Returns _ (put_attr-IsValid attr)

read_tile_row-Returns : (plane : ℕ) → plane ≤ 8 → Returns IsSound IsByte (read_tile_row plane)
unfolding read_tile_row
read_tile_row-Returns plane h =
    Returns-bind _ _ get_ppu-Returns
      λ p v. read-Returns _ (row_address p.ctrl p.next_tile_id p.vram_addr plane v.next_tile_id h)

fetch_lsb-Returns :
    Returns IsSound Any
      (do lsb ← read_tile_row 0; modify_ppu (λ p. record p { next_tile_lsb = lsb }))
fetch_lsb-Returns =
    Returns-bind _ _ (read_tile_row-Returns 0 (omega arith))
      λ lsb h. modify_ppu-Returns _ (put_lsb-IsValid lsb h)

fetch_msb-Returns :
    Returns IsSound Any
      (do msb ← read_tile_row 8; modify_ppu (λ p. record p { next_tile_msb = msb }))
fetch_msb-Returns =
    Returns-bind _ _ (read_tile_row-Returns 8 (omega arith))
      λ msb h. modify_ppu-Returns _ (put_msb-IsValid msb h)

scroll_x-Returns : Returns IsSound Any (modify_ppu increment_scroll_x)
scroll_x-Returns = modify_ppu-Returns _ scroll_x-IsValid

pub prepare_background_tile-Returns : Returns IsSound Any prepare_background_tile
unfolding prepare_background_tile
prepare_background_tile-Returns = Returns-bind _ _ update_shifters-Returns λ _ _.
    Returns-bind _ _ get_ppu-Returns λ p _.
      search
        (
          Returns-if, fetch_tile_id-Returns, fetch_tile_attr-Returns, fetch_lsb-Returns,
          fetch_msb-Returns, scroll_x-Returns, idle-Returns,
        )
        depth 10
