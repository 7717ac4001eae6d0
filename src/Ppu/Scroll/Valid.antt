-- ===== src/Ppu/Scroll/Valid.antt =====
-- The scrolling counters stay 16-bit words.
use nes_emulator.Prelude.{ℕ, ◌<◌, arith}
use nes_emulator.State.{Ppu}
use nes_emulator.State.Valid.{PpuIsValid}
use nes_emulator.Ppu.Scroll.{
  next_scroll_x, next_scroll_y, increment_scroll_x, increment_scroll_y, reload_scroll_x,
  reload_scroll_y,
}

pub next_scroll_x-lt : (v : ℕ) → v < 65536 → next_scroll_x v < 65536
unfolding next_scroll_x
next_scroll_x-lt v h = ground arith

pub next_scroll_y-lt : (v : ℕ) → v < 65536 → next_scroll_y v < 65536
unfolding next_scroll_y
next_scroll_y-lt v h = ground arith

put_vram_addr-IsValid :
    (v : ℕ) (p : Ppu) → v < 65536 → PpuIsValid p → PpuIsValid (record p { vram_addr = v })
put_vram_addr-IsValid v p h k = ground arith

pub increment_scroll_x-IsValid : (p : Ppu) → PpuIsValid p → PpuIsValid (increment_scroll_x p)
unfolding increment_scroll_x
increment_scroll_x-IsValid p v =
    ground (arith, put_vram_addr-IsValid _ p (next_scroll_x-lt p.vram_addr v.vram_addr) v)

pub increment_scroll_y-IsValid : (p : Ppu) → PpuIsValid p → PpuIsValid (increment_scroll_y p)
unfolding increment_scroll_y
increment_scroll_y-IsValid p v =
    ground (arith, put_vram_addr-IsValid _ p (next_scroll_y-lt p.vram_addr v.vram_addr) v)

pub reload_scroll_x-IsValid : (p : Ppu) → PpuIsValid p → PpuIsValid (reload_scroll_x p)
unfolding reload_scroll_x
reload_scroll_x-IsValid p v = ground arith

pub reload_scroll_y-IsValid : (p : Ppu) → PpuIsValid p → PpuIsValid (reload_scroll_y p)
unfolding reload_scroll_y
reload_scroll_y-IsValid p v = ground arith
