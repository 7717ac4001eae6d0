-- ===== src/Ppu/Laws/Timing.antt =====
-- The counters of dots and lines count the dots of a frame.
use nes_emulator.Prelude.{ℕ, ◌+◌, ◌*◌, ◌%◌, ◌≡◌, arith, ◌==◌, if◌then◌else◌}
use nes_emulator.State.{Ppu}
use nes_emulator.State.Valid.{PpuIsValid}
use nes_emulator.Ppu.Cycle.{advance}

-- the dots of a frame before the present one
abbrev pub position : Ppu → ℕ
position p = p.cur_scanline * 341 + p.cur_dot

-- With counters in range, `advance` moves on by one dot, after the last of 262 lines of 341 dots
-- to the first one, and sets `frame_complete` there and nowhere else.
pub position-advance :
    (p : Ppu)
    → PpuIsValid p
    → (position (advance p) ≡ (position p + 1) % (262 * 341))
      × ((advance p).frame_complete ≡ (if position p + 1 == 262 * 341 then 1 else p.frame_complete))
unfolding advance
position-advance p v = (ground arith, ground arith)
