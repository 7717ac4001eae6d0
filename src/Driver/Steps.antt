-- ===== src/Driver/Steps.antt =====
-- The steps of which `emulator_run` of emulator/emulator.c is made, in any order: the cycles of the two
-- devices, and what is done between the frames.
use nes_emulator.Prelude.{ℕ, ◌≡◌, Bool}
use nes_emulator.State.{Emulator}
use nes_emulator.Outcome.{done}
use nes_emulator.Ppu.Cycle.{ppu_run_cycle}
use nes_emulator.Cpu.Cycle.{cpu_run_cycle}
use nes_emulator.Driver.{handle_quit, synchronize_frames}

pub data Step : Emulator → Emulator → Type 0 where
  ppu_cycle : {e e' : Emulator} → ppu_run_cycle e ≡ done (tt, e') → Step e e'
  cpu_cycle : {e e' : Emulator} → cpu_run_cycle e ≡ done (tt, e') → Step e e'
  -- `emulator->is_running = TRUE`
  runs : {e : Emulator} → Step e (record e { is_running = 1 })
  -- `emulator->time_point_start = get_time_point()`
  frame_starts : {e : Emulator} → (t : ℕ) → Step e (record e { time_point_start = t })
  -- `ppu->frame_complete = 0`
  frame_ends : {e : Emulator} → Step e (record e { ppu = record e.ppu { frame_complete = 0 } })
  -- `cpu->total_cycles = 0`
  counter_resets : {e : Emulator} → Step e (record e { cpu = record e.cpu { total_cycles = 0 } })
  -- `if (sdl_window_quit()) emulator->is_running = FALSE`
  window_answers : {e : Emulator} → (quit : Bool) → Step e (handle_quit quit e)
  frame_synchronized :
      {e e' : Emulator} → (t : ℕ) → synchronize_frames t e ≡ done (tt, e') → Step e e'

-- some number of steps
pub data Reaches (e : Emulator) : Emulator → Type 0 where
  here : Reaches e e
  after : {e' e'' : Emulator} → Reaches e e' → Step e' e'' → Reaches e e''
