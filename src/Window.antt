-- ===== src/Window.antt =====
-- dev/sdl-instance.c: the buffer of pixels that is shown in the window, and its regions. The window
-- itself, its renderer and its texture belong to SDL. An `int` is here the `uint32_t` of the same
-- 32 bits; a coordinate is negative from 2 ^ 31 on.
pub mod Laws
pub mod Session
use nes_emulator.Prelude.{
  ℕ, zero, suc, ◌+◌, ◌*◌, ◌^◌, ◌%◌, ◌||◌, ◌&&◌, update, ltb, leb, if◌then◌else◌,
}

-- `SDLInstance`: the pixels, how many `malloc` gave room for, and the size of the window
pub record SdlInstance : Type 0 where
  pub pixel_buffer : ℕ → ℕ
  pub pixel_count : ℕ
  pub width : ℕ
  pub height : ℕ

-- `outside` where an access is outside of the buffer
pub data Drawn : Type 0 where
  drawn : SdlInstance → Drawn
  outside : Drawn

unfoldable pub and_then : Drawn → (SdlInstance → Drawn) → Drawn
and_then (drawn s) f = f s
and_then outside f = outside

pub record WindowRegion : Type 0 where
  pub top_coord : ℕ
  pub left_coord : ℕ
  pub width : ℕ
  pub height : ℕ
  pub scale_factor : ℕ

abbrev pub nes_screen : WindowRegion
nes_screen = record {
  top_coord = 0;
  left_coord = 0;
  width = 256 * 3;
  height = 224 * 3;
  scale_factor = 3;
}

abbrev pub debug_screen : WindowRegion
debug_screen = record {
  top_coord = 0;
  left_coord = 768;
  width = 256 * 1;
  height = 672 * 1;
  scale_factor = 1;
}

abbrev pub u32 : ℕ → ℕ
u32 n = n % 2 ^ 32

-- What `sdl_instance_init` sets of the buffer, whatever `malloc` left in it, where SDL and `malloc`
-- give what they are asked for; Session has the other returns.
unfoldable pub sdl_instance_init : (ℕ → ℕ) → SdlInstance
sdl_instance_init contents = record {
  pixel_buffer = contents;
  pixel_count = 1024 * 672;
  width = 1024;
  height = 672;
}

unfoldable pub put_at : ℕ → ℕ → SdlInstance → Drawn
put_at i color s =
    if ltb i s.pixel_count
    then drawn (record s { pixel_buffer = update s.pixel_buffer i color })
    else outside

-- the loop, with `left` pixels to go from number `i` on
unfoldable pub clear_pixels : ℕ → ℕ → SdlInstance → Drawn
clear_pixels zero i s = drawn s
clear_pixels (suc left) i s = and_then (put_at i 0x00000000 s) (clear_pixels left (i + 1))

unfoldable pub sdl_clear_screen : SdlInstance → Drawn
sdl_clear_screen s = clear_pixels (u32 (s.width * s.height)) 0 s

unfoldable pub sdl_put_pixel : ℕ → ℕ → ℕ → SdlInstance → Drawn
sdl_put_pixel x y color s =
    if leb 0 x && ltb x s.width && leb 0 y && ltb y s.height
    then put_at (u32 (y * s.width + x)) color s
    else drawn s

-- the inner loop, with `left` pixels to go from number `j` of a column on
unfoldable pub put_column : ℕ → ℕ → ℕ → ℕ → ℕ → SdlInstance → Drawn
put_column zero j x y color s = drawn s
put_column (suc left) j x y color s =
    and_then (sdl_put_pixel x (u32 (y + j)) color s) (put_column left (j + 1) x y color)

-- the outer loop, with `left` columns to go from number `i` on
unfoldable pub put_columns : ℕ → ℕ → ℕ → ℕ → ℕ → ℕ → SdlInstance → Drawn
put_columns zero i scale x y color s = drawn s
put_columns (suc left) i scale x y color s =
    and_then (put_column scale 0 (u32 (x + i)) y color s) (put_columns left (i + 1) scale x y color)

unfoldable pub sdl_put_pixel_region : WindowRegion → ℕ → ℕ → ℕ → SdlInstance → Drawn
sdl_put_pixel_region r x y color s =
    if leb (2 ^ 31) x
      || ltb r.width (u32 (u32 (x + 1) * r.scale_factor))
      || leb (2 ^ 31) y
      || ltb r.height (u32 (u32 (y + 1) * r.scale_factor))
    then drawn s
    else put_columns r.scale_factor 0 r.scale_factor (u32 (r.left_coord + x * r.scale_factor))
        (u32 (r.top_coord + y * r.scale_factor)) color s

unfoldable pub sdl_put_pixel_nes_screen : ℕ → ℕ → ℕ → SdlInstance → Drawn
sdl_put_pixel_nes_screen = sdl_put_pixel_region nes_screen
