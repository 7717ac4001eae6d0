-- ===== src/Driver/Frame.antt =====
-- The inner loop of `emulator_run`, in the steps that the model gives it.
use nes_emulator.Prelude.{
  ℕ, zero, suc, ◌+◌, ◌*◌, ◌≤◌, ◌≡◌, refl, Bool, true, false, inl, inr, arith, truth, Bool-cases,
}
use nes_emulator.State.{Emulator}
use nes_emulator.State.Valid.{IsValid}
use nes_emulator.Outcome.{pure}
use nes_emulator.Outcome.Ensures.{Holds, Any}
use nes_emulator.Outcome.Leads.{Leads, Leads-bind, Leads-get_ppu, Holds-both}
use nes_emulator.Beam.{Beam, beam}
use nes_emulator.Driver.{run_devices, run_frame}
use nes_emulator.Driver.Laws.{run_devices-Holds}
use nes_emulator.Driver.Timing.{OnPicture, place, IsAfter, run_devices-Leads}

abbrev Start : Beam → Emulator → Type 0
Start b e = IsValid e × (beam e.ppu ≡ b)

abbrev pub Stepped : Beam → Emulator → Type 0
Stepped b e = IsValid e × IsAfter 3 b (beam e.ppu)

abbrev pub Finished : Bool → Type 0
Finished r = r ≡ true

step-Leads : (b : Beam) → OnPicture b → Leads (Start b) Any (Stepped b) run_devices
step-Leads b v = record {
  at = λ e h.
      Holds-both IsValid (λ e'. IsAfter 3 b (beam e'.ppu)) Any (run_devices e)
        (run_devices-Holds e h.0) ((run_devices-Leads b v).at e h.1);
}

pub fewer-left :
    (fuel : ℕ) (b b' : Beam)
    → 262 * 341 ≤ place b + 3 * suc fuel
    → IsAfter 3 b b'
    → truth b'.complete ≡ false
    → 262 * 341 ≤ place b' + 3 * fuel
fewer-left fuel b b' h a t = ground arith

run_frame-Leads :
    (fuel : ℕ) (b : Beam)
    → OnPicture b
    → 262 * 341 ≤ place b + 3 * fuel
    → Leads (Start b) Finished IsValid (run_frame fuel)
unfolding run_frame pure
run_frame-Leads zero b v h = absurd (omega (arith, v.dot, v.scanline))
run_frame-Leads (suc fuel) b v h = Leads-bind _ _ (step-Leads b v) λ _ _. Leads-get_ppu _ λ e s.
    elim (Bool-cases (truth e.ppu.frame_complete)) [
      | inl ended ↦ rw ended (refl, s.0)
      | inr more ↦ rw more (
          (run_frame-Leads fuel (beam e.ppu) s.1.on_picture
              (fewer-left fuel b (beam e.ppu) h s.1 more)).at
            e (s.0, refl))
    ]

pub valid-OnPicture : (e : Emulator) → IsValid e → OnPicture (beam e.ppu)
valid-OnPicture e v = record { dot = v.ppu.cur_dot; scanline = v.ppu.cur_scanline }

-- From a state with the invariant, a number of steps that covers the rest of the frame three dots
-- at a time ends the inner loop by its test, where the devices return, with the invariant kept:
-- 29781 steps do from each state.
pub run_frame-Finished :
    (fuel : ℕ) (e : Emulator)
    → IsValid e
    → 262 * 341 ≤ e.ppu.cur_scanline * 341 + e.ppu.cur_dot + 3 * fuel
    → Holds IsValid (λ finished. finished ≡ true) (run_frame fuel e)
run_frame-Finished fuel e v h =
    (run_frame-Leads fuel (beam e.ppu) (valid-OnPicture e v) h).at e (v, refl)
