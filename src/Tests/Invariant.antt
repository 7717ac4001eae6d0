-- ===== src/Tests/Invariant.antt =====
-- The invariant at a concrete machine.
use nes_emulator.Prelude.{◌+◌, ◌%◌, ◌≡◌, arith, update}
use nes_emulator.State.{Emulator}
use nes_emulator.State.Valid.{IsValid}
use nes_emulator.Outcome.{done, ◌>>◌}
use nes_emulator.Outcome.Ensures.{Holds, Any}
use nes_emulator.Cpu.Cycle.{cpu_run_cycle}
use nes_emulator.Ppu.Cycle.{ppu_run_cycle}
use nes_emulator.Invariants.{cpu_run_cycle-Holds}
use nes_emulator.Tests.Machine.{
  machine, machine-IsValid, machine-FitsTypes, small_rom, small_rom-IsBytes, one_frame,
}
use nes_emulator.Ppu.Returns.{IsSound}
use nes_emulator.Ppu.Returns.Cycle.{ppu_run_cycle-done}
use nes_emulator.Driver.{run_frame, synchronize_frames, emulator_init, emulator_run}
use nes_emulator.Driver.Frame.{Finished, run_frame-Finished}
use nes_emulator.Driver.Program.{run-init-IsValid}
use nes_emulator.Driver.Laws.{synchronize_frames_lem}

cpu_run_cycle-Holds_example : Holds IsValid Any (cpu_run_cycle machine)
cpu_run_cycle-Holds_example = cpu_run_cycle-Holds machine machine-IsValid

abbrev last_frame : Emulator
last_frame = record machine { cur_frame = 59 }

synchronize_frames_lem_example :
    synchronize_frames 16000 last_frame
    ≡ done (
      tt,
      record last_frame {
        frame_times = update last_frame.frame_times last_frame.cur_frame 16000;
        cur_frame = (last_frame.cur_frame + 1) % 60;
      },
    )
synchronize_frames_lem_example = synchronize_frames_lem 16000 last_frame (omega arith)

run_frame-Finished_example : Holds IsValid Finished (run_frame 29781 machine)
run_frame-Finished_example = run_frame-Finished 29781 machine machine-IsValid (omega arith)

run-init-IsValid_example :
    Holds IsValid Finished ((emulator_init small_rom >> emulator_run one_frame) machine)
run-init-IsValid_example =
    run-init-IsValid small_rom one_frame machine small_rom-IsBytes machine-FitsTypes

ppu_run_cycle-done_example : (e' : Emulator) × (ppu_run_cycle machine ≡ done (tt, e')) × IsSound e'
ppu_run_cycle-done_example =
    ppu_run_cycle-done machine (record { valid = machine-IsValid; chr = tt })
