-- ===== src/Ppu/Draw/Priority.antt =====
-- The sprite that is shown at a dot: the lowest in number that has a pixel there.
use nes_emulator.Prelude.{
  ℕ, zero, suc, ◌+◌, ◌*◌, ◌≤◌, ◌<◌, ◌≡◌, sym, ◌∙◌, ap, arith, Bool, true, false, not, ◌&&◌, ◌==◌,
  inl, inr, Bool-cases, if◌then◌else◌,
}
use nes_emulator.State.{Emulator, Ppu}
use nes_emulator.Outcome.{done, ◌>>=◌, load}
use nes_emulator.Ppu.Draw.{Dot, no_dot, sprite_dot_of, scan_sprites}

-- sprite number `i` of the line at this dot
unfoldable pub dot_at : Ppu → ℕ → Dot
dot_at p i =
    sprite_dot_of (p.sprite_scanline (i * 4 + 2)) (p.sprite_shifter_pattern_lo i)
      (p.sprite_shifter_pattern_hi i)

-- it has a pixel here
unfoldable pub is_opaque : Ppu → ℕ → Bool
is_opaque p i = p.sprite_scanline (i * 4 + 3) == 0 && not ((dot_at p i).pixel == 0)

-- The emulator once sprite number `i` is shown.
unfoldable pub with_shown : ℕ → Emulator → Emulator
with_shown i e = record e {
  ppu = if i == 0 then record e.ppu { sprite_zero_hit_rendering = 1 } else e.ppu;
}

pass :
    (left i : ℕ) (dot : Dot) (e : Emulator)
    → i < 8
    → is_opaque e.ppu i ≡ false
    → (dot' : Dot) × (scan_sprites (suc left) i dot e ≡ scan_sprites left (i + 1) dot' e)
unfolding scan_sprites load ◌>>=◌ is_opaque dot_at
pass left i dot e h k = elim (Bool-cases (e.ppu.sprite_scanline (i * 4 + 3) == 0)) [
  | inl here ↦ (dot_at e.ppu i, ground (arith, here))
  | inr away ↦ (dot, ground (arith, away))
]

show :
    (left i : ℕ) (dot : Dot) (e : Emulator)
    → i < 8
    → is_opaque e.ppu i ≡ true
    → scan_sprites (suc left) i dot e ≡ done (dot_at e.ppu i, with_shown i e)
unfolding scan_sprites load ◌>>=◌ is_opaque dot_at with_shown
show left i dot e h k = ground arith

last_place : (i : ℕ) → i + 0 ≡ i
last_place i = omega arith

first_place : (i : ℕ) → 0 + i ≡ i
first_place i = omega arith

next_place : (i n : ℕ) → i + 1 + n ≡ i + suc n
next_place i n = omega arith

first_from :
    (d left i : ℕ) (dot : Dot) (e : Emulator)
    → i + left ≤ 8
    → d < left
    → ((k : ℕ) → k < d → is_opaque e.ppu (i + k) ≡ false)
    → is_opaque e.ppu (i + d) ≡ true
    → scan_sprites left i dot e ≡ done (dot_at e.ppu (i + d), with_shown (i + d) e)
first_from d zero i dot e h k clear found = absurd (omega (arith, k))
first_from zero (suc left) i dot e h k clear found =
    rw (last_place i)
      (show left i dot e (omega arith) (ap (is_opaque e.ppu) (sym (last_place i)) ∙ found))
first_from (suc d) (suc left) i dot e h k clear found =
    let behind : is_opaque e.ppu i ≡ false =
      ap (is_opaque e.ppu) (sym (last_place i)) ∙ clear 0 (omega arith) in
    let passed = pass left i dot e (omega arith) behind in
    let later : (n : ℕ) → n < d → is_opaque e.ppu (i + 1 + n) ≡ false =
      λ n m. ap (is_opaque e.ppu) (next_place i n) ∙ clear (suc n) (omega arith) in
    let end : is_opaque e.ppu (i + 1 + d) ≡ true = ap (is_opaque e.ppu) (next_place i d) ∙ found in
    passed.1
    ∙ first_from d left (i + 1) passed.0 e (omega arith) (omega arith) later end
    ∙ ap (λ n. done (dot_at e.ppu n, with_shown n e)) (next_place i d)

-- Of at most eight sprites on the line, the lowest in number that has a pixel at the dot gives the
-- dot its pixel, its palette and its priority, whatever the sprites after it are; only a shown
-- sprite number 0 is marked for the hit, and nothing else changes.
pub scan_sprites-first :
    (n j : ℕ) (e : Emulator)
    → n ≤ 8
    → j < n
    → ((k : ℕ) → k < j → is_opaque e.ppu k ≡ false)
    → is_opaque e.ppu j ≡ true
    → scan_sprites n 0 no_dot e ≡ done (dot_at e.ppu j, with_shown j e)
scan_sprites-first n j e h k clear found =
    first_from j n 0 no_dot e (omega arith) k
      (λ m l. ap (is_opaque e.ppu) (first_place m) ∙ clear m l)
      (ap (is_opaque e.ppu) (first_place j) ∙ found)
    ∙ ap (λ n. done (dot_at e.ppu n, with_shown n e)) (first_place j)
