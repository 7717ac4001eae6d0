-- ===== src/Driver/Reachable.antt =====
-- The states that the emulator reaches from the initialisation on.
use nes_emulator.Prelude.{ℕ, ◌≡◌, refl, sym, ◌∙◌, arith, Bool, true, false, IsBytes}
use mathlib.Core.Path.{subst}
use nes_emulator.State.{Emulator, Rom, Cpu, Ppu}
use nes_emulator.State.Valid.{IsValid, CpuIsValid, PpuIsValid, MemIsValid, MapperIsValid}
use nes_emulator.Outcome.{done, Run}
use nes_emulator.Outcome.Ensures.{
  Holds, Ensures, Any, any, Ensures-gets, Ensures-store, Ensures-modify, bind-Any,
}
use nes_emulator.Outcome.Leads.{Holds-both, Holds-map}
use nes_emulator.Beam.{beam, cartridge, Cartridge, Course, AtBeam}
use nes_emulator.Beam.Cycle.{cpu_run_cycle-AtBeam}
use nes_emulator.Cpu.Cycle.{cpu_run_cycle}
use nes_emulator.Cpu.Valid.Cycle.{cpu_run_cycle-IsValid}
use nes_emulator.Ppu.Cycle.{ppu_run_cycle}
use nes_emulator.Ppu.Returns.{ChrFits, IsSound}
use nes_emulator.Ppu.Returns.Cycle.{ppu_run_cycle-done}
use nes_emulator.Driver.{emulator_init, handle_quit, synchronize_frames, count_frame}
use nes_emulator.Driver.Start.{FitsTypes}
use nes_emulator.Driver.Image.{IsImage}
use nes_emulator.Driver.Boot.{emulator_init-done}
use nes_emulator.Driver.Steps.{
  Step, ppu_cycle, cpu_cycle, runs, frame_starts, frame_ends, counter_resets, window_answers,
  frame_synchronized, Reaches, here, after,
}

abbrev OnCartridge : Cartridge → Emulator → Type 0
OnCartridge c e = cartridge e ≡ c

-- the invariant, with the cartridge of a sound state
sound-again : (e e' : Emulator) → IsSound e → IsValid e' × (cartridge e' ≡ cartridge e) → IsSound e'
sound-again e e' s h = record {
  valid = h.0;
  chr = subst (λ c. ChrFits c.chr_rom c.size) (sym h.1) s.chr;
}

keeps_sound :
    {A : Type 0} (m : Run A)
    → Ensures IsValid Any m
    → ((c : Course) → Ensures (AtBeam c) Any m)
    → Ensures IsSound Any m
keeps_sound m k l = record {
  at = λ e s.
      let c : Course = record { beam = beam e.ppu; cartridge = cartridge e } in
      Holds-map _ IsSound Any (m e) (λ e' h. sound-again e e' s (h.0, h.1.1))
        (Holds-both IsValid (AtBeam c) Any (m e) (k.at e s.valid) ((l c).at e (refl, refl)));
}

sound-after :
    (m : Run (Unit {0})) (e e' : Emulator)
    → Ensures IsSound Any m
    → m e ≡ done (tt, e')
    → IsSound e
    → IsSound e'
sound-after m e e' k h s = (subst (Holds IsSound Any) h (k.at e s)).1

cpu-IsSound : Ensures IsSound Any cpu_run_cycle
cpu-IsSound = keeps_sound cpu_run_cycle cpu_run_cycle-IsValid (λ c. cpu_run_cycle-AtBeam)

ppu-IsSound : Ensures IsSound Any ppu_run_cycle
ppu-IsSound = record {
  at = λ e s. let d = ppu_run_cycle-done e s in subst (Holds IsSound Any) (sym d.1) (any, d.2);
}

-- the invariant of each device, which does not see the rest of the emulator
abbrev Devices : Emulator → Type 0
Devices e =
    CpuIsValid e.cpu
    × PpuIsValid e.ppu
    × MemIsValid e.mem
    × MapperIsValid e.mapper
    × IsBytes e.rom.bytes
    × ChrFits e.mapper.chr_rom e.rom.size

devices : (e : Emulator) → IsSound e → Devices e
devices e s = (s.valid.cpu, s.valid.ppu, s.valid.mem, s.valid.mapper, s.valid.rom, s.chr)

devices-IsSound : (e : Emulator) → Devices e → IsSound e
devices-IsSound e d = record {
  valid = record { cpu = d.0; ppu = d.1; mem = d.2; mapper = d.3; rom = d.4 };
  chr = d.5;
}

handle_quit-IsSound : (quit : Bool) (e : Emulator) → IsSound e → IsSound (handle_quit quit e)
unfolding handle_quit
handle_quit-IsSound true e s = devices-IsSound _ (devices e s)
handle_quit-IsSound false e s = s

synchronize_frames-IsSound : (t : ℕ) → Ensures IsSound Any (synchronize_frames t)
unfolding synchronize_frames count_frame
synchronize_frames-IsSound t =
    bind-Any _ _ (Ensures-gets _ λ e s. any)
      λ n. Ensures-store 60 n _ λ _. Ensures-modify _ λ e s. devices-IsSound _ (devices e s)

frame_ends-IsValid : (p : Ppu) → PpuIsValid p → PpuIsValid (record p { frame_complete = 0 })
frame_ends-IsValid p v = ground arith

counter_resets-IsValid : (c : Cpu) → CpuIsValid c → CpuIsValid (record c { total_cycles = 0 })
counter_resets-IsValid c v = ground arith

step-IsSound : {e e' : Emulator} → Step e e' → IsSound e → IsSound e'
step-IsSound {e} {e'} (ppu_cycle h) s = sound-after ppu_run_cycle e e' ppu-IsSound h s
step-IsSound {e} {e'} (cpu_cycle h) s = sound-after cpu_run_cycle e e' cpu-IsSound h s
step-IsSound {e} runs s = devices-IsSound _ (devices e s)
step-IsSound {e} (frame_starts t) s = devices-IsSound _ (devices e s)
step-IsSound {e} frame_ends s =
    let d = devices e s in devices-IsSound _ (d.0, frame_ends-IsValid e.ppu d.1, d.2, d.3, d.4, d.5)
step-IsSound {e} counter_resets s =
    let d = devices e s in
    devices-IsSound _ (counter_resets-IsValid e.cpu d.0, d.1, d.2, d.3, d.4, d.5)
step-IsSound {e} (window_answers quit) s = handle_quit-IsSound quit e s
step-IsSound {e} {e'} (frame_synchronized t h) s =
    sound-after (synchronize_frames t) e e' (synchronize_frames-IsSound t) h s

reaches-IsSound : {e e' : Emulator} → Reaches e e' → IsSound e → IsSound e'
reaches-IsSound here s = s
reaches-IsSound (after r h) s = step-IsSound h (reaches-IsSound r s)

init-IsSound :
    (rom : Rom) (e e₀ : Emulator)
    → IsImage rom
    → FitsTypes e
    → emulator_init rom e ≡ done (tt, e₀)
    → IsSound e₀
init-IsSound rom e e₀ m f h =
    let start = emulator_init-done rom e m f in
    (subst (Holds IsSound Any) (sym start.1 ∙ h) (any, start.2)).1

-- For a file of an NROM cartridge, and from each state that is reached from the end of the
-- initialisation, by cycles of the two devices and by what is done between the frames, in any
-- order and number, the next cycle of the PPU returns: it leaves no array, does not end the
-- program, and keeps the invariant.
pub reachable-IsSound :
    (rom : Rom) (e e₀ e₁ : Emulator)
    → IsImage rom
    → FitsTypes e
    → emulator_init rom e ≡ done (tt, e₀)
    → Reaches e₀ e₁
    → (e₂ : Emulator) × (ppu_run_cycle e₁ ≡ done (tt, e₂)) × IsSound e₂
reachable-IsSound rom e e₀ e₁ m f h r =
    ppu_run_cycle-done e₁ (reaches-IsSound r (init-IsSound rom e e₀ m f h))
