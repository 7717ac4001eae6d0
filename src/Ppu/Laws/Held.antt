-- ===== src/Ppu/Laws/Held.antt =====
-- Which objects the evaluation of the sprites holds.
use nes_emulator.Prelude.{
  ℕ, zero, suc, ◌+◌, ◌-◌, ◌*◌, ◌/◌, ◌%◌, ◌≤◌, ◌<◌, ◌≡◌, refl, ap, sym, ◌∙◌, arith, true, false,
  Bool-cases, inl, inr, ◌&&◌, Bytes, copy, fill, List, [], ◌∷◌, length, get_or, ltb, leb, ◌==◌,
  truth, if◌then◌else◌,
}
use nes_emulator.State.{Ppu}
use nes_emulator.Ppu.Sprites.{is_on_line, evaluate_sprite, evaluate_objects, evaluate_sprites}
use nes_emulator.Ppu.Laws.Sprites.{cleared, is_on_line-evaluate_sprite}

-- the numbers of the objects on the line, of `left` objects from number `i` on
pub objects_on_line : ℕ → ℕ → Ppu → List ℕ
objects_on_line zero i p = []
objects_on_line (suc left) i p =
    let rest = objects_on_line left (i + 1) p in if truth (is_on_line i p) then i ∷ rest else rest

-- Entry `n` of an array in which the objects follow one another, four bytes each, from place
-- `count` on, up to eight of them; the other entries are as in `old`.
pub laid_out : Bytes → Bytes → ℕ → List ℕ → ℕ → ℕ
laid_out old oam count objects n =
    let k = n / 4 - count in
    if leb (count * 4) n && ltb n 32 && ltb k (length objects)
    then oam (get_or objects k 0 * 4 + n % 4)
    else old n

before : (k : ℕ) → suc k - 1 ≡ k
before k = omega arith

get_or_cons :
    (x : ℕ) (xs : List ℕ) (k : ℕ)
    → get_or (x ∷ xs) k 0 ≡ (if k == 0 then x else get_or xs (k - 1) 0)
get_or_cons x xs zero = refl
get_or_cons x xs (suc k) = ground (arith, ap (λ m. get_or xs m 0) (before k))

laid_out-here :
    (old oam : Bytes) (count x : ℕ) (xs : List ℕ) (n : ℕ)
    → count < 8
    → n / 4 ≡ count
    → laid_out old oam count (x ∷ xs) n ≡ oam (x * 4 + n % 4)
unfolding laid_out
laid_out-here old oam count x xs n h e = ground (arith, get_or_cons x xs (n / 4 - count))

laid_out-before :
    (old oam : Bytes) (count : ℕ) (xs : List ℕ) (n : ℕ)
    → n < count * 4
    → laid_out old oam count xs n ≡ old n
unfolding laid_out
laid_out-before old oam count xs n h = ground arith

copy-here :
    (old oam : Bytes) (count x n : ℕ)
    → n / 4 ≡ count
    → copy old (count * 4) oam (x * 4) 4 n ≡ oam (x * 4 + (n - count * 4))
unfolding copy
copy-here old oam count x n e = ground arith

the_entry : (n count : ℕ) → n / 4 - count - 1 ≡ n / 4 - (count + 1)
the_entry n count = omega arith

laid_out-cons :
    (old oam : Bytes) (count x : ℕ) (xs : List ℕ) (n : ℕ)
    → count < 8
    → laid_out old oam count (x ∷ xs) n
      ≡ laid_out (copy old (count * 4) oam (x * 4) 4) oam (count + 1) xs n
unfolding laid_out copy
laid_out-cons old oam count x xs n h = elim (Bool-cases (n / 4 == count)) [
  | inl here ↦
      laid_out-here old oam count x xs n h (ground arith)
      ∙ ap (λ m. oam (x * 4 + m)) (ground arith)
      ∙ sym (copy-here old oam count x n (ground arith))
      ∙ sym
          (laid_out-before (copy old (count * 4) oam (x * 4) 4) oam (count + 1) xs n (ground arith))
  | inr there ↦
      ground (arith, get_or_cons x xs (n / 4 - count), ap (λ m. get_or xs m 0) (the_entry n count))
]

laid_out-full :
    (old oam : Bytes) (count : ℕ) (xs : List ℕ) (n : ℕ)
    → 8 ≤ count
    → laid_out old oam count xs n ≡ old n
unfolding laid_out
laid_out-full old oam count xs n h = ground arith

laid_out-nil : (old oam : Bytes) (count n : ℕ) → laid_out old oam count [] n ≡ old n
unfolding laid_out
laid_out-nil old oam count n = ground arith

objects-evaluate_sprite :
    (left i j : ℕ) (p : Ppu)
    → objects_on_line left j (evaluate_sprite i p) ≡ objects_on_line left j p
unfolding objects_on_line
objects-evaluate_sprite zero i j p = refl
objects-evaluate_sprite (suc left) i j p =
    rw (is_on_line-evaluate_sprite i j p, objects-evaluate_sprite left i (j + 1) p) refl

oam-evaluate_sprite : (i : ℕ) (p : Ppu) → (evaluate_sprite i p).oam ≡ p.oam
unfolding evaluate_sprite
oam-evaluate_sprite i p = ground arith

put-evaluate_sprite :
    (i : ℕ) (p : Ppu)
    → truth (is_on_line i p) ≡ true
    → p.sprite_count < 8
    → ((evaluate_sprite i p).sprite_scanline
        ≡ copy p.sprite_scanline (p.sprite_count * 4) p.oam (i * 4) 4)
      × ((evaluate_sprite i p).sprite_count ≡ p.sprite_count + 1)
unfolding evaluate_sprite
put-evaluate_sprite i p h k = (ground arith, ground arith)

skip-evaluate_sprite :
    (i : ℕ) (p : Ppu)
    → (truth (is_on_line i p) && ltb p.sprite_count 8) ≡ false
    → ((evaluate_sprite i p).sprite_scanline ≡ p.sprite_scanline)
      × ((evaluate_sprite i p).sprite_count ≡ p.sprite_count)
unfolding evaluate_sprite
skip-evaluate_sprite i p h = (ground arith, ground arith)

-- what one object adds to what is laid out
laid_out-evaluate_sprite :
    (i n : ℕ) (xs : List ℕ) (p : Ppu)
    → p.sprite_count ≤ 8
    → laid_out (evaluate_sprite i p).sprite_scanline p.oam (evaluate_sprite i p).sprite_count xs n
      ≡ laid_out p.sprite_scanline p.oam p.sprite_count
          (if truth (is_on_line i p) then i ∷ xs else xs)
          n
laid_out-evaluate_sprite i n xs p h =
    elim (Bool-cases (truth (is_on_line i p) && ltb p.sprite_count 8)) [
      | inl put ↦
          let k = put-evaluate_sprite i p (ground arith) (ground arith) in
          rw (k.0, k.1)
            (ground (arith, laid_out-cons p.sprite_scanline p.oam p.sprite_count i xs n))
      | inr skip ↦
          let k = skip-evaluate_sprite i p skip in
          rw (k.0, k.1)
            (ground (
              arith,
              laid_out-full p.sprite_scanline p.oam p.sprite_count xs n,
              laid_out-full p.sprite_scanline p.oam p.sprite_count (i ∷ xs) n,
            ))
    ]

still-le : (i : ℕ) (p : Ppu) → p.sprite_count ≤ 8 → (evaluate_sprite i p).sprite_count ≤ 8
unfolding evaluate_sprite
still-le i p h = ground arith

objects-cleared :
    (left i : ℕ) (p : Ppu) → objects_on_line left i (cleared p) ≡ objects_on_line left i p
unfolding objects_on_line is_on_line
objects-cleared zero i p = refl
objects-cleared (suc left) i p = rw (objects-cleared left (i + 1) p) refl

held-evaluate_objects :
    (left i n : ℕ) (p : Ppu)
    → p.sprite_count ≤ 8
    → (evaluate_objects left i p).sprite_scanline n
      ≡ laid_out p.sprite_scanline p.oam p.sprite_count (objects_on_line left i p) n
unfolding evaluate_objects objects_on_line
held-evaluate_objects zero i n p h = sym (laid_out-nil p.sprite_scanline p.oam p.sprite_count n)
held-evaluate_objects (suc left) i n p h =
    let p' = evaluate_sprite i p in
    let rest = held-evaluate_objects left (i + 1) n p' (still-le i p h) in
    let here = laid_out-evaluate_sprite i n (objects_on_line left (i + 1) p) p h in
    ground (arith, rest, oam-evaluate_sprite i p, objects-evaluate_sprite left i (i + 1) p, here)

-- The evaluation of a line lays out the first eight objects on the line, in the order of their
-- numbers and four bytes each; the rest of the array is 0xFF.
pub held-evaluate_sprites :
    (p : Ppu) (n : ℕ)
    → (evaluate_sprites p).sprite_scanline n
      ≡ laid_out (fill 0xFF) p.oam 0 (objects_on_line 64 0 p) n
unfolding evaluate_sprites
held-evaluate_sprites p n =
    held-evaluate_objects 64 0 n (cleared p) (omega arith)
    ∙ ap (λ xs. laid_out (fill 0xFF) p.oam 0 xs n) (objects-cleared 64 0 p)
