-- ===== src/Driver.antt =====
-- emulator/emulator.c: how the devices are started and stepped together, and `ppu_init` of
-- emulator/ppu.c. The timer is a parameter: `elapsed_us` is what `get_elapsed_us` returns.
pub mod Laws
pub mod Timing
pub mod Frame
pub mod FrameLoop
pub mod Start
pub mod Image
pub mod Boot
pub mod Order
pub mod Steps
pub mod Reachable
pub mod Main
pub mod Program
use nes_emulator.Prelude.{
  ℕ, zero, suc, Bool, true, false, truth, List, [], ◌∷◌, ◌+◌, Bytes, fill, update, ◌==◌,
  if◌then◌else◌,
}
use nes_emulator.State.{Rom, Ppu, Emulator}
use nes_emulator.Outcome.{Run, pure, ◌>>=◌, ◌>>◌, gets, modify, modify_cpu, modify_ppu, store}
use nes_emulator.Mapper.{mapper_init}
use nes_emulator.Mem.{init_cpu_mem, mem_write_8}
use nes_emulator.Cpu.Cycle.{cpu_init, cpu_run_cycle}
use nes_emulator.Ppu.Registers.{ppu_reset}
use nes_emulator.Ppu.Cycle.{ppu_run_cycle}

unfoldable pub ppu_init : Run (Unit {0})
ppu_init = modify_ppu ppu_reset

unfoldable pub emulator_init : Rom → Run (Unit {0})
emulator_init rom = do
  modify (λ e. record e {
    rom = rom;
    event = 0;
    is_running = 0;
    cur_frame = 0;
    time_point_start = 0;
    frame_times = fill 0;
  })
  ppu_init
  init_cpu_mem
  mapper_init
  cpu_init

-- the body of the inner loop of `emulator_run` and of the loop of `emulator_nestest`
unfoldable pub run_devices : Run (Unit {0})
run_devices = do ppu_run_cycle; ppu_run_cycle; ppu_run_cycle; cpu_run_cycle

-- what `emulator_nestest` does before its loop
unfoldable pub nestest_setup : Run (Unit {0})
nestest_setup = do
  modify_cpu (λ c. record c { is_logging = 1; total_cycles = 7; pc = 0xC000 })
  modify_ppu (λ p. record p { cur_dot = 18 })
  mem_write_8 0x4004 0xFF
  mem_write_8 0x4005 0xFF
  mem_write_8 0x4006 0xFF
  mem_write_8 0x4007 0xFF
  mem_write_8 0x4015 0xFF

abbrev pub ntsc_frame_rate : ℕ
ntsc_frame_rate = 60

-- `emulator->frame_times[emulator->cur_frame] = elapsed_us`, and the next frame
unfoldable pub count_frame : ℕ → Emulator → Emulator
count_frame elapsed_us e =
    let next = e.cur_frame + 1 in
    record e {
      frame_times = update e.frame_times e.cur_frame elapsed_us;
      cur_frame = if next == ntsc_frame_rate then 0 else next;
    }

-- up to the sleep, which changes nothing of the emulator
unfoldable pub synchronize_frames : ℕ → Run (Unit {0})
synchronize_frames elapsed_us = do
  cur_frame ← gets (λ e. e.cur_frame)
  store 60 cur_frame (modify (count_frame elapsed_us))

-- the inner loop of `emulator_run`, of at most `fuel` steps: whether it came to its end
unfoldable pub run_frame : ℕ → Run Bool
run_frame zero = pure false
run_frame (suc fuel) = do
  run_devices
  p ← gets (λ e. e.ppu)
  let rest = run_frame fuel
  if truth p.frame_complete then pure true else rest

-- What the host gives in one frame: the time at its start, whether the window is closed, and the
-- time that the frame took.
pub record HostFrame : Type 0 where
  pub start : ℕ
  pub window_quit : Bool
  pub elapsed_us : ℕ

-- `sdl_window_quit` of `handle_sdl`; the rest of it draws
unfoldable pub handle_quit : Bool → Emulator → Emulator
handle_quit quit e = if quit then record e { is_running = 0 } else e

abbrev pub steps_per_frame : ℕ
steps_per_frame = 29781

-- the body of the frame loop
unfoldable pub emulator_frame : HostFrame → Run Bool
emulator_frame host = do
  modify (λ e. record e { time_point_start = host.start })
  finished ← run_frame steps_per_frame
  modify_ppu (λ p. record p { frame_complete = 0 })
  modify_cpu (λ c. record c { total_cycles = 0 })
  modify (handle_quit host.window_quit)
  synchronize_frames host.elapsed_us
  pure finished

-- the frame loop, for as many frames as the host gives: whether each inner loop came to its end
unfoldable pub run_frames : List HostFrame → Run Bool
run_frames [] = pure true
run_frames (host ∷ hosts) = do
  is_running ← gets (λ e. e.is_running)
  let next = emulator_frame host
  let rest = run_frames hosts
  if truth is_running
      then (do finished ← next; if finished then rest else pure false)
      else pure true

unfoldable pub emulator_run : List HostFrame → Run Bool
emulator_run hosts = do modify (λ e. record e { is_running = 1 }); run_frames hosts
