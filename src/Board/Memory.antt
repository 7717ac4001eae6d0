-- ===== src/Board/Memory.antt =====
-- `memset` and `memcpy` of dtekv-build/dtekv-lib.c, on a memory of bytes by address, and
-- dtekv-drivers/vga-screen.c, whose buffer of pixels is that memory from its start on.
pub mod Laws
use nes_emulator.Prelude.{ℕ, zero, suc, ◌+◌, ◌*◌, ◌||◌, Bytes, update, leb, if◌then◌else◌, u8}

-- the loop, with `count` passes to go: it moves `dest` on, but writes through `dst`
unfoldable pub memset_loop : ℕ → ℕ → ℕ → ℕ → Bytes → ℕ × Bytes
memset_loop zero dst dest chr f = (dest, f)
memset_loop (suc count) dst dest chr f =
    memset_loop count dst (dest + 1) chr (update f dst (u8 chr))

unfoldable pub memset : ℕ → ℕ → ℕ → Bytes → ℕ × Bytes
memset dest chr count f = memset_loop count dest dest chr f

-- the loop, with `left` bytes to go from number `i` on
unfoldable pub memcpy_loop : ℕ → ℕ → ℕ → ℕ → Bytes → Bytes
memcpy_loop zero i d s f = f
memcpy_loop (suc left) i d s f = memcpy_loop left (i + 1) d s (update f (d + i) (f (s + i)))

unfoldable pub memcpy : ℕ → ℕ → ℕ → Bytes → ℕ × Bytes
memcpy dest src count f = (dest, memcpy_loop count 0 dest src f)

abbrev pub vga_screen_width : ℕ
vga_screen_width = 320

abbrev pub vga_screen_height : ℕ
vga_screen_height = 240

unfoldable pub vga_screen_clear : Bytes → Bytes
vga_screen_clear vga = (memset 0 0x00 (vga_screen_width * vga_screen_height) vga).1

unfoldable pub vga_screen_put_pixel : ℕ → ℕ → ℕ → Bytes → Bytes
vga_screen_put_pixel x y c vga =
    if leb vga_screen_width x || leb vga_screen_height y
    then vga
    else update vga (y * vga_screen_width + x) c
