-- ===== src/Ppu/Valid/Sprites.antt =====
-- The evaluation and the loading of the sprites of a line keep the invariant.
use nes_emulator.Prelude.{
  ℕ, zero, suc, ◌+◌, ◌*◌, ◌<◌, bit_and, copy, copy-IsBytes, fill, fill-IsBytes, update,
  update-IsBytes, arith, truth, if◌then◌else◌, u8, ◌==◌,
}
use nes_emulator.State.{Ppu}
use nes_emulator.State.Valid.{IsValid, PpuIsValid, get_ppu-IsValid, modify_ppu-IsValid, bind_ppu}
use nes_emulator.Outcome.{modify_ppu}
use nes_emulator.Outcome.Ensures.{
  Ensures, Any, any, Ensures-pure, Ensures-store, bind-Any, bind_byte,
}
use nes_emulator.Ppu.Vram.Valid.{ppu_const_read_vram_data-IsByte}
use nes_emulator.Ppu.Fields.Status
use nes_emulator.Ppu.Sprites.{
  reverse_bits, evaluate_sprite, evaluate_objects, evaluate_sprites, load_sprite, load_sprites,
}
use nes_emulator.Ppu.Valid.Shifters.{load_line-IsByte}

reverse_bits-lt : (n : ℕ) → reverse_bits n < 256
unfolding reverse_bits
reverse_bits-lt n = omega arith

copy_object-IsValid :
    (i : ℕ) (p : Ppu)
    → p.sprite_count < 8
    → PpuIsValid p
    → PpuIsValid (record p {
      sprite_scanline = copy p.sprite_scanline (p.sprite_count * 4) p.oam (i * 4) 4;
      sprite_count = u8 (p.sprite_count + 1);
    })
copy_object-IsValid i p h v = ground (
  arith,
  copy-IsBytes p.sprite_scanline (p.sprite_count * 4) p.oam (i * 4) 4 v.sprite_scanline v.oam,
)

mark_first-IsValid :
    (i : ℕ) (p : Ppu)
    → PpuIsValid p
    → PpuIsValid (if i == 0 then record p { sprite_zero_hit_possible = 1 } else p)
mark_first-IsValid i p v = ground arith

evaluate_sprite-IsValid : (i : ℕ) (p : Ppu) → PpuIsValid p → PpuIsValid (evaluate_sprite i p)
unfolding evaluate_sprite
evaluate_sprite-IsValid i p v =
    let p' = if i == 0 then record p { sprite_zero_hit_possible = 1 } else p in
    ground (arith, mark_first-IsValid i p v, copy_object-IsValid i p')

evaluate_objects-IsValid :
    (left i : ℕ) (p : Ppu) → PpuIsValid p → PpuIsValid (evaluate_objects left i p)
unfolding evaluate_objects
evaluate_objects-IsValid zero i p v = v
evaluate_objects-IsValid (suc left) i p v = ground (
  arith,
  evaluate_objects-IsValid left (i + 1) (evaluate_sprite i p) (evaluate_sprite-IsValid i p v),
)

clear_line-IsValid :
    (p : Ppu)
    → PpuIsValid p
    → PpuIsValid
        (record p { sprite_scanline = fill 0xFF; sprite_count = 0; sprite_zero_hit_possible = 0 })
clear_line-IsValid p v = ground (arith, fill-IsBytes 0xFF)

put_overflow-IsValid :
    (n : ℕ) (p : Ppu)
    → PpuIsValid p
    → PpuIsValid (record p { status = Status.set_sprite_overflow n p.status })
put_overflow-IsValid n p v = ground arith

pub evaluate_sprites-IsValid : (p : Ppu) → PpuIsValid p → PpuIsValid (evaluate_sprites p)
unfolding evaluate_sprites
evaluate_sprites-IsValid p v =
    put_overflow-IsValid _ _ (evaluate_objects-IsValid 64 0 _ (clear_line-IsValid p v))

pub put_patterns-IsValid :
    (i lo hi : ℕ)
    → lo < 256
    → hi < 256
    → Ensures IsValid Any (
        modify_ppu λ p. record p {
          sprite_shifter_pattern_lo = update p.sprite_shifter_pattern_lo i lo;
          sprite_shifter_pattern_hi = update p.sprite_shifter_pattern_hi i hi;
        })
put_patterns-IsValid i lo hi hl hh = modify_ppu-IsValid _ λ p v. ground (
  arith,
  update-IsBytes p.sprite_shifter_pattern_lo i lo v.sprite_shifter_pattern_lo hl,
  update-IsBytes p.sprite_shifter_pattern_hi i hi v.sprite_shifter_pattern_hi hh,
)

pub flip-lt : (b n : ℕ) → n < 256 → (if truth b then reverse_bits n else n) < 256
flip-lt b n h = ground (arith, reverse_bits-lt n)

load_sprite-IsValid : (i : ℕ) → Ensures IsValid Any (load_sprite i)
unfolding load_sprite
load_sprite-IsValid i = bind_ppu _ _ get_ppu-IsValid λ p v.
    bind_byte _ _ (load_line-IsByte p _ v) λ attributes _.
      bind_byte _ _ (load_line-IsByte p _ v) λ y _. bind_byte _ _ (load_line-IsByte p _ v) λ id _.
        bind_byte _ _ (ppu_const_read_vram_data-IsByte _) λ lo l.
          bind_byte _ _ (ppu_const_read_vram_data-IsByte _) λ hi h. Ensures-store 8 i _ λ _.
            put_patterns-IsValid i _ _ (flip-lt (bit_and attributes 0x40) lo l)
              (flip-lt (bit_and attributes 0x40) hi h)

pub load_sprites-IsValid : (left i : ℕ) → Ensures IsValid Any (load_sprites left i)
unfolding load_sprites
load_sprites-IsValid zero i = Ensures-pure tt any
load_sprites-IsValid (suc left) i =
    bind-Any _ _ (load_sprite-IsValid i) λ _. load_sprites-IsValid left (i + 1)
