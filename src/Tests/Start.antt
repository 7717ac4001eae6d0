-- ===== src/Tests/Start.antt =====
-- A small file, from the initialisation on.
use nes_emulator.Prelude.{◌≡◌, refl, inl, arith}
use nes_emulator.State.{Emulator}
use nes_emulator.Outcome.{done}
use nes_emulator.Outcome.Ensures.{Holds}
use nes_emulator.Ppu.Cycle.{ppu_run_cycle}
use nes_emulator.Ppu.Returns.{IsSound}
use nes_emulator.Ppu.Returns.Cycle.{ppu_run_cycle-done}
use nes_emulator.Driver.{emulator_init, emulator_run}
use nes_emulator.Driver.Image.{IsImage}
use nes_emulator.Driver.Boot.{reset_vector, emulator_init-done}
use nes_emulator.Driver.Steps.{here, after, ppu_cycle}
use nes_emulator.Driver.Frame.{Finished}
use nes_emulator.Driver.Order.{PlaysAll, emulator_run-PlaysAll}
use nes_emulator.Driver.Reachable.{reachable-IsSound}
use nes_emulator.Tests.Machine.{
  machine, machine-IsValid, machine-FitsTypes, small_rom, small_rom-IsBytes, one_frame,
}

small_rom-IsImage : IsImage small_rom
small_rom-IsImage = record {
  bytes = small_rom-IsBytes;
  n = refl;
  e = refl;
  s = refl;
  eof = refl;
  banks = inl refl;
  nrom = refl;
  code = omega arith;
  patterns = λ h. absurd (omega arith);
}

emulator_init-done_example :
    (e' : Emulator) × (emulator_init small_rom machine ≡ done (tt, e'))
    × IsSound e'
    × (e'.cpu.pc ≡ reset_vector small_rom.bytes)
emulator_init-done_example =
    emulator_init-done small_rom machine small_rom-IsImage machine-FitsTypes

begun :
    (e' : Emulator) × (emulator_init small_rom machine ≡ done (tt, e'))
    × IsSound e'
    × (e'.cpu.pc ≡ reset_vector small_rom.bytes)
begun = emulator_init-done small_rom machine small_rom-IsImage machine-FitsTypes

next : (e' : Emulator) × (ppu_run_cycle begun.0 ≡ done (tt, e')) × IsSound e'
next = ppu_run_cycle-done begun.0 begun.2

reachable-IsSound_example : (e₂ : Emulator) × (ppu_run_cycle next.0 ≡ done (tt, e₂)) × IsSound e₂
reachable-IsSound_example =
    reachable-IsSound small_rom machine begun.0 next.0 small_rom-IsImage machine-FitsTypes begun.1
      (after here (ppu_cycle next.1))

emulator_run-PlaysAll_example :
    Holds
      (PlaysAll one_frame (record machine { is_running = 1 }))
      Finished
      (emulator_run one_frame machine)
emulator_run-PlaysAll_example = emulator_run-PlaysAll one_frame machine machine-IsValid
