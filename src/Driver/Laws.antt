-- ===== src/Driver/Laws.antt =====
-- The devices together keep the invariant, and the frame times stay inside of their array.
use nes_emulator.Prelude.{ℕ, ◌+◌, ◌%◌, ◌<◌, ◌≡◌, arith, IsBytes, fill, fill-IsBytes, update}
use nes_emulator.State.{Ppu, Emulator}
use nes_emulator.State.Valid.{
  IsValid, PpuIsValid, IsMirrored, modify_cpu-IsValid, modify_ppu-IsValid,
}
use nes_emulator.Outcome.{done, ◌>>=◌, store}
use nes_emulator.Outcome.Ensures.{Ensures, Holds, Any, bind-Any}
use nes_emulator.Mem.Valid.{mem_write_8-IsValid}
use nes_emulator.Cpu.Valid.Cycle.{cpu_run_cycle-IsValid}
use nes_emulator.Ppu.Valid.Cycle.{ppu_run_cycle-IsValid}
use nes_emulator.Ppu.Registers.{ppu_reset}
use nes_emulator.Driver.{run_devices, nestest_setup, count_frame, synchronize_frames}

pub run_devices-IsValid : Ensures IsValid Any run_devices
unfolding run_devices
run_devices-IsValid = bind-Any _ _ ppu_run_cycle-IsValid λ _.
    bind-Any _ _ ppu_run_cycle-IsValid
      λ _. bind-Any _ _ ppu_run_cycle-IsValid λ _. cpu_run_cycle-IsValid

pub nestest_setup-IsValid : Ensures IsValid Any nestest_setup
unfolding nestest_setup
nestest_setup-IsValid = bind-Any _ _ (modify_cpu-IsValid _ λ c v. ground arith) λ _.
    bind-Any _ _ (modify_ppu-IsValid _ λ p v. ground arith) λ _.
      bind-Any _ _ (mem_write_8-IsValid _ _ (omega arith)) λ _.
        bind-Any _ _ (mem_write_8-IsValid _ _ (omega arith)) λ _.
          bind-Any _ _ (mem_write_8-IsValid _ _ (omega arith)) λ _.
            bind-Any _ _ (mem_write_8-IsValid _ _ (omega arith))
              λ _. mem_write_8-IsValid _ _ (omega arith)

-- From a state with the invariant, three cycles of the PPU and one of the CPU that return leave a
-- state with the invariant.
pub run_devices-Holds : (e : Emulator) → IsValid e → Holds IsValid Any (run_devices e)
run_devices-Holds e v = run_devices-IsValid.at e v

-- With a frame number below 60, the time of the frame is stored, inside of the array, and the
-- frame numbers go round from 59 to 0; nothing else changes.
pub synchronize_frames_lem :
    (t : ℕ) (e : Emulator)
    → e.cur_frame < 60
    → synchronize_frames t e
      ≡ done (
        tt,
        record e {
          frame_times = update e.frame_times e.cur_frame t;
          cur_frame = (e.cur_frame + 1) % 60;
        },
      )
unfolding synchronize_frames count_frame store ◌>>=◌
synchronize_frames_lem t e h = ground arith

fill-IsMirrored : (v : ℕ) → IsMirrored (fill v)
unfolding fill
fill-IsMirrored v = ground arith

-- Whatever the fields of the PPU held, a reset brings all of them but the shifters into range,
-- if the patterns of the sprites are bytes.
pub ppu_reset-IsValid :
    (p : Ppu)
    → IsBytes p.sprite_shifter_pattern_lo
    → IsBytes p.sprite_shifter_pattern_hi
    → PpuIsValid (ppu_reset p)
unfolding ppu_reset
ppu_reset-IsValid p lo hi = ground (arith, fill-IsBytes 0, fill-IsMirrored 0)
