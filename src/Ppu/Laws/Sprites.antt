-- ===== src/Ppu/Laws/Sprites.antt =====
-- What the evaluation of the sprites finds.
use nes_emulator.Prelude.{
  ℕ, zero, suc, ◌+◌, ◌-◌, ◌≤◌, ◌<◌, ◌≡◌, refl, true, min, fill, arith, ◌==◌, all_below,
  all_below_sound, eqb→eq,
}
use nes_emulator.Prelude.Bits.{bit_at}
use nes_emulator.State.{Ppu}
use nes_emulator.Ppu.Fields.Status
use nes_emulator.Ppu.Sprites.{
  reverse_bits, is_on_line, evaluate_sprite, evaluate_objects, evaluate_sprites,
}

-- the objects on the line, of `left` objects from number `i` on
unfoldable pub count_on_line : ℕ → ℕ → Ppu → ℕ
count_on_line zero i p = 0
count_on_line (suc left) i p = is_on_line i p + count_on_line left (i + 1) p

pub is_on_line-evaluate_sprite :
    (i j : ℕ) (p : Ppu) → is_on_line j (evaluate_sprite i p) ≡ is_on_line j p
unfolding is_on_line evaluate_sprite
is_on_line-evaluate_sprite i j p = ground arith

count-evaluate_sprite :
    (left i j : ℕ) (p : Ppu) → count_on_line left j (evaluate_sprite i p) ≡ count_on_line left j p
unfolding count_on_line
count-evaluate_sprite zero i j p = refl
count-evaluate_sprite (suc left) i j p =
    rw (is_on_line-evaluate_sprite i j p, count-evaluate_sprite left i (j + 1) p)

pub is_on_line-le : (i : ℕ) (p : Ppu) → is_on_line i p ≤ 1
unfolding is_on_line
is_on_line-le i p = ground arith

sprite_count-evaluate_sprite :
    (i : ℕ) (p : Ppu)
    → p.sprite_count ≤ 8
    → (evaluate_sprite i p).sprite_count ≡ min 8 (p.sprite_count + is_on_line i p)
unfolding evaluate_sprite
sprite_count-evaluate_sprite i p h = ground (arith, is_on_line-le i p)

sprite_count-evaluate_objects :
    (left i : ℕ) (p : Ppu)
    → p.sprite_count ≤ 8
    → (evaluate_objects left i p).sprite_count ≡ min 8 (p.sprite_count + count_on_line left i p)
unfolding evaluate_objects count_on_line
sprite_count-evaluate_objects zero i p h = ground arith
sprite_count-evaluate_objects (suc left) i p h = ground (
  arith,
  sprite_count-evaluate_sprite i p h,
  count-evaluate_sprite left i (i + 1) p,
  sprite_count-evaluate_objects left (i + 1) (evaluate_sprite i p),
)

abbrev pub cleared : Ppu → Ppu
cleared p = record p { sprite_scanline = fill 0xFF; sprite_count = 0; sprite_zero_hit_possible = 0 }

line_cleared : (left i : ℕ) (p : Ppu) → count_on_line left i (cleared p) ≡ count_on_line left i p
unfolding is_on_line count_on_line
line_cleared zero i p = refl
line_cleared (suc left) i p = rw (line_cleared left (i + 1) p)

-- The evaluation holds as many sprites as there are objects on the line, at most eight.
pub sprite_count-evaluate_sprites :
    (p : Ppu) → (evaluate_sprites p).sprite_count ≡ min 8 (count_on_line 64 0 p)
unfolding evaluate_sprites
sprite_count-evaluate_sprites p =
    ground
      (arith, line_cleared 64 0 p, sprite_count-evaluate_objects 64 0 (cleared p) (omega arith))

-- The flag for more than eight sprites is never set.
pub sprite_overflow-evaluate_sprites :
    (p : Ppu) → Status.sprite_overflow (evaluate_sprites p).status ≡ 0
unfolding evaluate_sprites
sprite_overflow-evaluate_sprites p =
    ground (arith, sprite_count-evaluate_objects 64 0 (cleared p) (omega arith))

reversed_table :
    all_below 256 (λ n. all_below 8 (λ k. bit_at k (reverse_bits n) == bit_at (7 - k) n)) ≡ true
unfolding all_below reverse_bits
reversed_table = refl

-- The bits of a byte come out in reverse.
pub bit_at-reverse_bits : (n k : ℕ) → n < 256 → k < 8 → bit_at k (reverse_bits n) ≡ bit_at (7 - k) n
bit_at-reverse_bits n k h hk =
    eqb→eq _ _ (all_below_sound 8 _ k (all_below_sound 256 _ n reversed_table h) hk)
