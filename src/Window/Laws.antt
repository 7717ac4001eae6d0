-- ===== src/Window/Laws.antt =====
-- Where the pixels of the console go in the window.
use nes_emulator.Prelude.{
  ℕ, zero, suc, ◌+◌, ◌*◌, ◌/◌, ◌<◌, ◌≡◌, refl, ◌∙◌, arith, Bool, true, false, Bool-cases, inl, inr,
  ◌&&◌, ◌==◌, update, ltb, leb, if◌then◌else◌,
}
use nes_emulator.Window.{
  SdlInstance, Drawn, drawn, outside, and_then, u32, put_at, sdl_put_pixel, put_column, put_columns,
  sdl_put_pixel_region, sdl_put_pixel_nes_screen,
}

-- the window that `sdl_instance_init` makes
pub record IsReady (s : SdlInstance) : Type 0 where
  pub pixel_count : s.pixel_count ≡ 1024 * 672
  pub width : s.width ≡ 1024
  pub height : s.height ≡ 672

abbrev pub pixel_at : ℕ → ℕ → SdlInstance → ℕ
pixel_at x y s = s.pixel_buffer (y * 1024 + x)

-- The result is a window in which the pixel at `x`, `y` is as said, and which is ready.
abbrev Shows : ℕ → ℕ → ℕ → Drawn → Type 0
Shows x y color (drawn s) = (pixel_at x y s ≡ color) × IsReady s
Shows x y color outside = ⊥

index_lem : (a b w : ℕ) → w ≡ 1024 → a < 1024 → b < 672 → u32 (b * w + a) ≡ b * 1024 + a
index_lem a b w e h k = rw e (omega arith)

put_pixel-inside :
    (a b color : ℕ) (s : SdlInstance)
    → IsReady s
    → a < 1024
    → b < 672
    → sdl_put_pixel a b color s
      ≡ drawn (record s { pixel_buffer = update s.pixel_buffer (b * 1024 + a) color })
unfolding sdl_put_pixel put_at
put_pixel-inside a b color s r h k =
    ground (arith, r.width, r.height, r.pixel_count, index_lem a b s.width r.width h k)

put_pixel-beyond :
    (a b color : ℕ) (s : SdlInstance)
    → IsReady s
    → (ltb a 1024 && ltb b 672) ≡ false
    → sdl_put_pixel a b color s ≡ drawn s
unfolding sdl_put_pixel
put_pixel-beyond a b color s r h = ground (arith, r.width, r.height)

put_pixel-Shows :
    (a b color x y : ℕ) (s : SdlInstance)
    → IsReady s
    → x < 1024
    → y < 672
    → Shows x y (if a == x && b == y then color else pixel_at x y s) (sdl_put_pixel a b color s)
unfolding update
put_pixel-Shows a b color x y s r h k = elim (Bool-cases (ltb a 1024 && ltb b 672)) [
  | inl inside ↦
      rw (put_pixel-inside a b color s r (ground arith) (ground arith))
        (ground arith, record { pixel_count = r.pixel_count; width = r.width; height = r.height })
  | inr beyond ↦ rw (put_pixel-beyond a b color s r beyond) (ground arith, r)
]

-- code that goes on from such a window
Shows-and_then :
    (x y old new : ℕ) (d : Drawn) (f : SdlInstance → Drawn)
    → Shows x y old d
    → ((s : SdlInstance) → IsReady s → pixel_at x y s ≡ old → Shows x y new (f s))
    → Shows x y new (and_then d f)
unfolding and_then
Shows-and_then x y old new (drawn s) f h k = k s h.1 h.0
Shows-and_then x y old new outside f h k = h

Shows-color : (x y old new : ℕ) (d : Drawn) → old ≡ new → Shows x y old d → Shows x y new d
Shows-color x y old new (drawn s) e h = (h.0 ∙ e, h.1)
Shows-color x y old new outside e h = h

-- the pixel `x`, `y` is in the column at `a` from `b` on, of which `left` pixels are to go
abbrev in_column : ℕ → ℕ → ℕ → ℕ → ℕ → Bool
in_column left a b x y = a == x && leb b y && ltb y (b + left)

column_step :
    (left j a b color x y before after : ℕ)
    → b + j + suc left < 0x10000
    → after ≡ (if a == x && u32 (b + j) == y then color else before)
    → (if in_column left a (b + (j + 1)) x y then color else after)
      ≡ (if in_column (suc left) a (b + j) x y then color else before)
column_step left j a b color x y before after l e = ground arith

put_column-Shows :
    (left j a b color x y : ℕ) (s : SdlInstance)
    → IsReady s
    → x < 1024
    → y < 672
    → b + j + left < 0x10000
    → Shows x y
        (if in_column left a (b + j) x y then color else pixel_at x y s)
        (put_column left j a b color s)
unfolding put_column
put_column-Shows zero j a b color x y s r h k l = (ground arith, r)
put_column-Shows (suc left) j a b color x y s r h k l =
    Shows-and_then x y _ _ _ _ (put_pixel-Shows a (u32 (b + j)) color x y s r h k) λ s' r' e.
      Shows-color x y _ _ _
        (column_step left j a b color x y (pixel_at x y s) (pixel_at x y s') l e)
        (put_column-Shows left (j + 1) a b color x y s' r' h k (omega (arith, l)))

-- the pixel is in one of the columns
abbrev in_columns : ℕ → ℕ → ℕ → ℕ → ℕ → ℕ → Bool
in_columns left scale a b x y = leb a x && ltb x (a + left) && leb b y && ltb y (b + scale)

columns_step :
    (left i scale a b color x y before after : ℕ)
    → a + i + suc left < 0x10000
    → after ≡ (if in_column scale (u32 (a + i)) (b + 0) x y then color else before)
    → (if in_columns left scale (a + (i + 1)) b x y then color else after)
      ≡ (if in_columns (suc left) scale (a + i) b x y then color else before)
columns_step left i scale a b color x y before after l e = ground arith

put_columns-Shows :
    (left i scale a b color x y : ℕ) (s : SdlInstance)
    → IsReady s
    → x < 1024
    → y < 672
    → a + i + left < 0x10000
    → b + scale < 0x10000
    → Shows x y
        (if in_columns left scale (a + i) b x y then color else pixel_at x y s)
        (put_columns left i scale a b color s)
unfolding put_columns
put_columns-Shows zero i scale a b color x y s r h k l m = (ground arith, r)
put_columns-Shows (suc left) i scale a b color x y s r h k l m =
    Shows-and_then x y _ _ _ _
      (put_column-Shows scale 0 (u32 (a + i)) b color x y s r h k (omega (arith, m)))
      λ s' r' e.
        Shows-color x y _ _ _
          (columns_step left i scale a b color x y (pixel_at x y s) (pixel_at x y s') l e)
          (put_columns-Shows left (i + 1) scale a b color x y s' r' h k (omega (arith, l)) m)

-- what `sdl_put_pixel_nes_screen` makes of a pixel of the window
abbrev pub scaled : ℕ → ℕ → ℕ → ℕ → ℕ → SdlInstance → ℕ
scaled a b color x y s =
    if ltb a 256 && ltb b 224 && x / 3 == a && y / 3 == b then color else pixel_at x y s

offset : (n : ℕ) → n < 256 → u32 (0 + n * 3) ≡ n * 3
offset n h = omega arith

screen-inside :
    (a b color : ℕ) (s : SdlInstance)
    → a < 256
    → b < 224
    → sdl_put_pixel_nes_screen a b color s ≡ put_columns 3 0 3 (a * 3) (b * 3) color s
unfolding sdl_put_pixel_nes_screen sdl_put_pixel_region
screen-inside a b color s h k = ground (arith, offset a h, offset b (omega (arith, k)))

screen-beyond :
    (a b color : ℕ) (s : SdlInstance)
    → a < 0x10000
    → b < 0x10000
    → (ltb a 256 && ltb b 224) ≡ false
    → sdl_put_pixel_nes_screen a b color s ≡ drawn s
unfolding sdl_put_pixel_nes_screen sdl_put_pixel_region
screen-beyond a b color s h k l = ground arith

scaled_columns :
    (a b color x y : ℕ) (s : SdlInstance)
    → (ltb a 256 && ltb b 224) ≡ true
    → (if in_columns 3 3 (a * 3 + 0) (b * 3) x y then color else pixel_at x y s)
      ≡ scaled a b color x y s
scaled_columns a b color x y s h = ground arith

screen-Shows :
    (a b color x y : ℕ) (s : SdlInstance)
    → IsReady s
    → x < 1024
    → y < 672
    → a < 0x10000
    → b < 0x10000
    → Shows x y (scaled a b color x y s) (sdl_put_pixel_nes_screen a b color s)
screen-Shows a b color x y s r h k l m = elim (Bool-cases (ltb a 256 && ltb b 224)) [
  | inl inside ↦ rw (screen-inside a b color s (ground arith) (ground arith)) (
      Shows-color x y _ _ _ (scaled_columns a b color x y s inside)
        (put_columns-Shows 3 0 3 (a * 3) (b * 3) color x y s r h k (ground arith) (ground arith)))
  | inr beyond ↦ rw (screen-beyond a b color s l m beyond) (ground arith, r)
]

Shows-drawn :
    (x y color : ℕ) (d : Drawn)
    → Shows x y color d
    → (s : SdlInstance) × (d ≡ drawn s) × (pixel_at x y s ≡ color) × IsReady s
Shows-drawn x y color (drawn s) h = (s, refl, h.0, h.1)
Shows-drawn x y color outside h = absurd h

-- In the window that `sdl_instance_init` makes, a pixel of the console with coordinates below
-- 2 ^ 16 is drawn inside of the buffer: as a square of three times three pixels of the window in
-- its colour if its coordinates are below 256 and 224, and not at all otherwise; each other pixel
-- of the window stays as it was.
pub pixel_at-put_pixel_nes_screen :
    (a b color x y : ℕ) (s : SdlInstance)
    → IsReady s
    → x < 1024
    → y < 672
    → a < 0x10000
    → b < 0x10000
    → (s' : SdlInstance) × (sdl_put_pixel_nes_screen a b color s ≡ drawn s')
      × (pixel_at x y s' ≡ scaled a b color x y s)
      × IsReady s'
pixel_at-put_pixel_nes_screen a b color x y s r h k l m =
    Shows-drawn x y (scaled a b color x y s) _ (screen-Shows a b color x y s r h k l m)
