-- ===== src/Ppu/Valid/Shifters.antt =====
-- The shifters and the fetches of the background keep the invariant.
use nes_emulator.Prelude.{
  ℕ, zero, suc, ◌+◌, ◌-◌, ◌*◌, ◌<◌, update, update-IsBytes, arith, truth, if◌then◌else◌, u8, ◌<<<◌,
}
use nes_emulator.Prelude.Bits.{bit_and-le_right}
use nes_emulator.State.{Ppu}
use nes_emulator.State.Valid.{
  IsValid, PpuIsValid, get_ppu-IsValid, modify_ppu-IsValid, bind_ppu, valid_rules,
}
use nes_emulator.Outcome.{pure, modify_ppu, load}
use nes_emulator.Outcome.Ensures.{
  Ensures, Any, any, IsByte, Ensures-pure, Ensures-load, bind-Any, bind_byte,
}
use nes_emulator.Ppu.Vram.Valid.{ppu_const_read_vram_data-IsByte}
use nes_emulator.Ppu.Scroll.{increment_scroll_x}
use nes_emulator.Ppu.Scroll.Valid.{increment_scroll_x-IsValid}
use nes_emulator.Ppu.Fields.Mask
use nes_emulator.Ppu.Shifters.{
  load_shifters, shift_background, shift_patterns, update_sprite, update_sprites, update_shifters,
}
use nes_emulator.Ppu.Background.{
  fetch_tile_id, fetch_tile_attr, select_attribute, read_tile_row, prepare_background_tile,
}

pub load_shifters-IsValid : (p : Ppu) → PpuIsValid p → PpuIsValid (load_shifters p)
unfolding load_shifters
load_shifters-IsValid p v = ground arith

shift_background-IsValid : (p : Ppu) → PpuIsValid p → PpuIsValid (shift_background p)
unfolding shift_background
shift_background-IsValid p v = ground arith

pub shift_if_rendering-IsValid :
    Ensures IsValid Any
      (modify_ppu λ p. if truth (Mask.render_background p.mask) then shift_background p else p)
shift_if_rendering-IsValid =
    modify_ppu-IsValid _ λ p v. ground (arith, shift_background-IsValid p v)

pub load_line-IsByte :
    (p : Ppu) (i : ℕ) → PpuIsValid p → Ensures IsValid IsByte (load 0x40 p.sprite_scanline i)
load_line-IsByte p i v = Ensures-load _ _ _ (λ _. v.sprite_scanline.at i)

pub load_pattern_lo-IsByte :
    (p : Ppu) (i : ℕ) → PpuIsValid p → Ensures IsValid IsByte (load 8 p.sprite_shifter_pattern_lo i)
load_pattern_lo-IsByte p i v = Ensures-load _ _ _ (λ _. v.sprite_shifter_pattern_lo.at i)

pub load_pattern_hi-IsByte :
    (p : Ppu) (i : ℕ) → PpuIsValid p → Ensures IsValid IsByte (load 8 p.sprite_shifter_pattern_hi i)
load_pattern_hi-IsByte p i v = Ensures-load _ _ _ (λ _. v.sprite_shifter_pattern_hi.at i)

pub shift_patterns-IsValid :
    (i lo hi : ℕ) → Ensures IsValid Any (modify_ppu (shift_patterns i lo hi))
unfolding shift_patterns
shift_patterns-IsValid i lo hi = modify_ppu-IsValid _ λ p v. ground (
  arith,
  update-IsBytes p.sprite_shifter_pattern_lo i (u8 (lo <<< 1)) v.sprite_shifter_pattern_lo
      (omega arith),
  update-IsBytes p.sprite_shifter_pattern_hi i (u8 (hi <<< 1)) v.sprite_shifter_pattern_hi
      (omega arith),
)

pub count_down-IsValid :
    (i x : ℕ)
    → x < 256
    → Ensures IsValid Any (
        modify_ppu λ p. record p { sprite_scanline = update p.sprite_scanline (i * 4 + 3) (x - 1) })
count_down-IsValid i x h =
    modify_ppu-IsValid _
      λ p v. ground (arith, update-IsBytes p.sprite_scanline (i * 4 + 3) (x - 1) v.sprite_scanline)

update_sprite-IsValid : (i : ℕ) → Ensures IsValid Any (update_sprite i)
unfolding update_sprite
update_sprite-IsValid i =
    search
      (
        valid_rules, load_line-IsByte, load_pattern_lo-IsByte, load_pattern_hi-IsByte,
        shift_patterns-IsValid, count_down-IsValid,
      )
      depth 9

update_sprites-IsValid : (left i : ℕ) → Ensures IsValid Any (update_sprites left i)
unfolding update_sprites
update_sprites-IsValid zero i = Ensures-pure tt any
update_sprites-IsValid (suc left) i =
    bind-Any _ _ (update_sprite-IsValid i) λ _. update_sprites-IsValid left (i + 1)

pub idle-IsValid : Ensures IsValid Any (pure tt)
idle-IsValid = Ensures-pure tt any

pub update_shifters-IsValid : Ensures IsValid Any update_shifters
unfolding update_shifters
update_shifters-IsValid =
    search (valid_rules, shift_if_rendering-IsValid, update_sprites-IsValid, idle-IsValid) depth 8

fetch_tile_id-IsValid : Ensures IsValid Any fetch_tile_id
unfolding fetch_tile_id
fetch_tile_id-IsValid = bind-Any _ _ (modify_ppu-IsValid _ load_shifters-IsValid) λ _.
    bind_ppu _ _ get_ppu-IsValid λ p _.
      bind_byte _ _ (ppu_const_read_vram_data-IsByte _)
        λ id h. modify_ppu-IsValid _ λ p v. ground arith

pub select_attribute-lt : (v attr : ℕ) → select_attribute v attr < 4
unfolding select_attribute
select_attribute-lt v attr = omega (arith, bit_and-le_right _ 0x03)

fetch_tile_attr-IsValid : Ensures IsValid Any fetch_tile_attr
unfolding fetch_tile_attr
fetch_tile_attr-IsValid = bind_ppu _ _ get_ppu-IsValid λ p _.
    bind_byte _ _ (ppu_const_read_vram_data-IsByte _)
      λ attr h. modify_ppu-IsValid _ λ p v. ground (arith, select_attribute-lt p.vram_addr attr)

read_tile_row-IsByte : (plane : ℕ) → Ensures IsValid IsByte (read_tile_row plane)
unfolding read_tile_row
read_tile_row-IsByte plane = bind_ppu _ _ get_ppu-IsValid λ p _. ppu_const_read_vram_data-IsByte _

pub put_lsb-IsValid :
    (lsb : ℕ) → lsb < 256 → Ensures IsValid Any (modify_ppu λ p. record p { next_tile_lsb = lsb })
put_lsb-IsValid lsb h = modify_ppu-IsValid _ λ p v. ground arith

pub put_msb-IsValid :
    (msb : ℕ) → msb < 256 → Ensures IsValid Any (modify_ppu λ p. record p { next_tile_msb = msb })
put_msb-IsValid msb h = modify_ppu-IsValid _ λ p v. ground arith

pub scroll_x-IsValid : Ensures IsValid Any (modify_ppu increment_scroll_x)
scroll_x-IsValid = modify_ppu-IsValid _ increment_scroll_x-IsValid

pub prepare_background_tile-IsValid : Ensures IsValid Any prepare_background_tile
unfolding prepare_background_tile
prepare_background_tile-IsValid =
    search
      (
        valid_rules, update_shifters-IsValid, fetch_tile_id-IsValid, fetch_tile_attr-IsValid,
        read_tile_row-IsByte, put_lsb-IsValid, put_msb-IsValid, scroll_x-IsValid, idle-IsValid,
      )
      depth 12
