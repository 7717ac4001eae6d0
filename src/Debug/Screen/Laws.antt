-- ===== src/Debug/Screen/Laws.antt =====
-- The accesses and the pixels of the debug screen.
use nes_emulator.Prelude.{
  ℕ, zero, suc, ◌+◌, ◌*◌, ◌/◌, ◌%◌, ◌≤◌, ◌<◌, ◌≡◌, ◌≢◌, ◌⊎◌, inl, inr, refl, arith, bit_and, Bool,
  true, false, ◌||◌, List, [], ◌∷◌, ◌++◌, ◌==◌, truth, if◌then◌else◌, u16,
}
use nes_emulator.Prelude.Bits.{bit_and_mask}
use nes_emulator.State.{
  Emulator, Mirroring, horizontal, vertical, four_screen, single_screen_lower, single_screen_upper,
  Pixel,
}
use nes_emulator.Outcome.{Outcome, done, exited, undefined, gets}
use nes_emulator.Outcome.Ensures.{Any, any}
use nes_emulator.Outcome.Returns.{Succeeds, Returns, Returns-bind, Returns-pure, Returns-gets}
use nes_emulator.Ppu.Fields.Ctrl
use nes_emulator.Ppu.Returns.{IsSound, read-Returns}
use nes_emulator.Debug.Screen.{
  row_pixels, draw_rows, assert, draw_tile, draw_tiles, draw_pattern_table, draw_cells,
  draw_nametable, second_nametable, debug_draw_screen,
}

-- every pixel lies in the rectangle
abbrev pub AllInside : ℕ → ℕ → List Pixel → Type 0
AllInside width height [] = Unit {0}
AllInside width height (d ∷ ds) = (d.x < width) × (d.y < height) × AllInside width height ds

abbrev Fits : List Pixel → Type 0
Fits = AllInside 256 672

append-Fits : (xs ys : List Pixel) → Fits xs → Fits ys → Fits (xs ++ ys)
append-Fits [] ys h k = k
append-Fits (x ∷ xs) ys h k = (h.0, h.1, append-Fits xs ys h.2 k)

row_pixels-Fits :
    (left x low high left_coord y : ℕ)
    → left_coord + x + left ≤ 256
    → y < 672
    → Fits (row_pixels left x low high left_coord y)
unfolding row_pixels
row_pixels-Fits zero x low high l y h k = tt
row_pixels-Fits (suc left) x low high l y h k =
    (omega (arith, h), k, row_pixels-Fits left (x + 1) low high l y (omega (arith, h)) k)

pattern_address : (a : ℕ) → a < 0x2000 → bit_and (u16 a) 0x3FFF ≢ 0x3000
pattern_address a h = omega (arith, bit_and_mask 14 (u16 a))

draw_rows-Returns :
    (left y a l t : ℕ)
    → a + y + left ≤ 0x1FF8
    → l + 8 ≤ 256
    → t + y + left ≤ 672
    → Returns IsSound Fits (draw_rows left y a l t)
unfolding draw_rows
draw_rows-Returns zero y a l t h k m = Returns-pure [] tt
draw_rows-Returns (suc left) y a l t h k m =
    Returns-bind _ _ (read-Returns _ (pattern_address (a + y) (omega (arith, h)))) λ low _.
      Returns-bind _ _ (read-Returns _ (pattern_address (a + y + 8) (omega (arith, h)))) λ high _.
        Returns-bind _ _
          (draw_rows-Returns left (y + 1) a l t (omega (arith, h)) k (omega (arith, m)))
          λ rows f. Returns-pure _ (
            append-Fits _ _
              (row_pixels-Fits 8 0 low high l (t + y) (omega (arith, k)) (omega (arith, m))) f)

ask_ppu : Returns IsSound Any (gets λ e. e.ppu)
ask_ppu = Returns-gets _ λ e s. any

ask_mapper : Returns IsSound Any (gets λ e. e.mapper)
ask_mapper = Returns-gets _ λ e s. any

assert-Returns : (b : Bool) → b ≡ true → Returns IsSound Any (assert b)
assert-Returns b h = rw h (Returns-pure tt any)

abbrev IsPatternBase : ℕ → Type 0
IsPatternBase base = (base ≡ 0x0000) ⊎ (base ≡ 0x1000)

tile_start : (base index : ℕ) → IsPatternBase base → index < 256 → u16 (base + index * 16) ≤ 0x1FF0
tile_start base index (inl low) h = omega (arith, low)
tile_start base index (inr high) h = omega (arith, high)

is_base : (base : ℕ) → IsPatternBase base → (base == 0x0000 || base == 0x1000) ≡ true
is_base base (inl low) = ground (arith, low)
is_base base (inr high) = ground (arith, high)

draw_tile-Returns :
    (base index l t : ℕ)
    → IsPatternBase base
    → index < 256
    → l + 8 ≤ 256
    → t + 8 ≤ 672
    → Returns IsSound Fits (draw_tile base index l t)
unfolding draw_tile
draw_tile-Returns base index l t b h k m =
    Returns-bind _ _ (assert-Returns (base == 0x0000 || base == 0x1000) (is_base base b)) λ _ _.
      draw_rows-Returns 8 0 (u16 (base + index * 16)) l t (omega (arith, tile_start base index b h))
        k (omega (arith, m))

draw_tiles-Returns :
    (left index base l t : ℕ)
    → IsPatternBase base
    → index + left ≤ 256
    → l + 128 ≤ 256
    → t + 128 ≤ 672
    → Returns IsSound Fits (draw_tiles left index base l t)
unfolding draw_tiles
draw_tiles-Returns zero index base l t b h k m = Returns-pure [] tt
draw_tiles-Returns (suc left) index base l t b h k m =
    Returns-bind _ _
      (draw_tile-Returns base index (l + index % 16 * 8) (t + index / 16 * 8) b (omega (arith, h))
        (omega (arith, k)) (omega (arith, h, m)))
      λ tile f.
        Returns-bind _ _ (draw_tiles-Returns left (index + 1) base l t b (omega (arith, h)) k m)
          λ tiles g. Returns-pure _ (append-Fits tile tiles f g)

abbrev IsNametableBase : ℕ → Type 0
IsNametableBase base = (base ≡ 0x2000) ⊎ ((base ≡ 0x2400) ⊎ (base ≡ 0x2800))

cell_address :
    (base index : ℕ)
    → IsNametableBase base
    → index < 960
    → bit_and (u16 (base + index)) 0x3FFF ≢ 0x3000
cell_address base index (inl first) h = omega (arith, first, bit_and_mask 14 (u16 (base + index)))
cell_address base index (inr (inl second)) h =
    omega (arith, second, bit_and_mask 14 (u16 (base + index)))
cell_address base index (inr (inr third)) h =
    omega (arith, third, bit_and_mask 14 (u16 (base + index)))

draw_cells-Returns :
    (left index patterns base t : ℕ)
    → IsPatternBase patterns
    → IsNametableBase base
    → index + left ≤ 960
    → t + 240 ≤ 672
    → Returns IsSound Fits (draw_cells left index patterns base 0 t)
unfolding draw_cells
draw_cells-Returns zero index patterns base t p b h m = Returns-pure [] tt
draw_cells-Returns (suc left) index patterns base t p b h m =
    Returns-bind _ _ (read-Returns _ (cell_address base index b (omega (arith, h)))) λ tile_index i.
      Returns-bind _ _
        (draw_tile-Returns patterns tile_index (0 + index % 32 * 8) (t + index / 32 * 8) p i
          (omega arith) (omega (arith, h, m)))
        λ tile f.
          Returns-bind _ _
            (draw_cells-Returns left (index + 1) patterns base t p b (omega (arith, h)) m)
            λ tiles g. Returns-pure _ (append-Fits tile tiles f g)

is_nametable :
    (base : ℕ)
    → IsNametableBase base
    → (base == 0x2000 || base == 0x2400 || base == 0x2800 || base == 0x2C00) ≡ true
is_nametable base (inl first) = ground (arith, first)
is_nametable base (inr (inl second)) = ground (arith, second)
is_nametable base (inr (inr third)) = ground (arith, third)

pattern_base : (b : Bool) → IsPatternBase (if b then 0x1000 else 0x0000)
pattern_base true = inr refl
pattern_base false = inl refl

draw_nametable-Returns :
    (base t : ℕ)
    → IsNametableBase base
    → t + 240 ≤ 672
    → Returns IsSound Fits (draw_nametable base 0 t)
unfolding draw_nametable
draw_nametable-Returns base t b m =
    Returns-bind _ _
      (assert-Returns (base == 0x2000 || base == 0x2400 || base == 0x2800 || base == 0x2C00)
        (is_nametable base b))
      λ _ _. Returns-bind _ _ ask_ppu λ p _.
        draw_cells-Returns 960 0 _ base t (pattern_base (truth (Ctrl.pattern_background p.ctrl))) b
          (omega arith) m

second_nametable-base : (m : Mirroring) → IsNametableBase (second_nametable m)
unfolding second_nametable
second_nametable-base horizontal = inr (inr refl)
second_nametable-base vertical = inr (inl refl)
second_nametable-base single_screen_lower = inr (inl refl)
second_nametable-base single_screen_upper = inr (inl refl)
second_nametable-base four_screen = inr (inl refl)

screen-Returns : Returns IsSound Fits debug_draw_screen
unfolding debug_draw_screen draw_pattern_table
screen-Returns =
    Returns-bind _ _
      (draw_tiles-Returns 256 0 0x0000 0 0 (inl refl) (omega arith) (omega arith) (omega arith))
      λ left_patterns a.
        Returns-bind _ _
          (draw_tiles-Returns 256 0 0x1000 128 0 (inr refl) (omega arith) (omega arith)
            (omega arith))
          λ right_patterns b.
            Returns-bind _ _ (draw_nametable-Returns 0x2000 128 (inl refl) (omega arith)) λ names c.
              Returns-bind _ _ ask_mapper λ m _.
                Returns-bind _ _ (draw_nametable-Returns 0x2000 128 (inl refl) (omega arith))
                  λ upper d.
                    Returns-bind _ _
                      (draw_nametable-Returns (second_nametable m.mirroring) 368
                        (second_nametable-base m.mirroring) (omega arith))
                      λ lower f. Returns-pure _ (
                        append-Fits _ lower
                          (append-Fits _ upper
                            (append-Fits _ names (append-Fits left_patterns right_patterns a b) c)
                            d)
                          f)

Succeeds-pixels :
    (o : Outcome (List Pixel × Emulator))
    → Succeeds IsSound Fits o
    → (ps : List Pixel) × (e : Emulator) × (o ≡ done (ps, e)) × AllInside 256 672 ps × IsSound e
Succeeds-pixels (done (ps, e)) h = (ps, e, refl, h.0, h.1)
Succeeds-pixels exited h = absurd h
Succeeds-pixels undefined h = absurd h

-- From each state with the invariant and the cartridge's patterns, the drawing of the debug
-- screen returns: no assertion fails, no read leaves an array, and each pixel lies in the region
-- of 256 by 672 pixels.
pub debug_draw_screen-done :
    (e : Emulator)
    → IsSound e
    → (ps : List Pixel) × (e' : Emulator) × (debug_draw_screen e ≡ done (ps, e'))
      × AllInside 256 672 ps
      × IsSound e'
debug_draw_screen-done e s = Succeeds-pixels (debug_draw_screen e) (screen-Returns.at e s)
