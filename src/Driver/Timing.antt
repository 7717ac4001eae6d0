-- ===== src/Driver/Timing.antt =====
-- Each cycle of the PPU moves on by at least a dot, so the inner loop of `emulator_run` comes to
-- the end of the frame.
use nes_emulator.Prelude.{ℕ, ◌+◌, ◌*◌, ◌≤◌, ◌<◌, ◌≡◌, refl, sym, ◌⊎◌, arith}
use nes_emulator.State.{Emulator, Ppu}
use nes_emulator.Outcome.{Run, pure, modify_ppu}
use nes_emulator.Outcome.Ensures.{Ensures, Any, any, Ensures-pure}
use mathlib.Core.Path.{subst}
use nes_emulator.Outcome.Leads.{Holds-map, Leads, Leads-bind, Leads-if}
use nes_emulator.Beam.{Beam, beam, cartridge, Course, AtBeam, gets-AtBeam}
use nes_emulator.Beam.Picture.{
  visible_line-AtBeam, vblank_line-AtBeam, pre_render_dots-AtBeam, run_sprites-AtBeam,
}
use nes_emulator.Beam.Cycle.{cpu_run_cycle-AtBeam}
use nes_emulator.Ppu.Cycle.{
  visible_line, vblank_line, skip_dot, pre_render_line, run_line, advance, run_sprites,
  ppu_run_cycle,
}
use nes_emulator.Cpu.Cycle.{cpu_run_cycle}
use nes_emulator.Driver.{run_devices}

-- a dot of the picture
pub record OnPicture (b : Beam) : Type 0 where
  pub dot : b.dot < 341
  pub scanline : b.scanline < 262

abbrev pub place : Beam → ℕ
place b = b.scanline * 341 + b.dot

-- `b'` is at least `n` dots after `b`, or a frame was completed.
pub record IsAfter (n : ℕ) (b b' : Beam) : Type 0 where
  pub on_picture : OnPicture b'
  pub later : (1 ≤ b'.complete) ⊎ ((b'.complete ≡ b.complete) × (place b + n ≤ place b'))

-- the same dot, or the next one but one where a dot is skipped
record IsSkipped (b b' : Beam) : Type 0 where
  scanline : b'.scanline ≡ b.scanline
  complete : b'.complete ≡ b.complete
  least : b.dot ≤ b'.dot
  most : b'.dot ≤ b.dot + 1
  inside : b'.dot ≤ 340

abbrev OnBeam : Beam → Emulator → Type 0
OnBeam b e = beam e.ppu ≡ b

-- the beam and the cartridge of a state
abbrev course : Emulator → Course
course e = record { beam = beam e.ppu; cartridge = cartridge e }

-- Code that keeps each beam keeps each condition on the beam.
keeps_beam :
    (K : Beam → Type 0) {A : Type 0} (m : Run A)
    → ((b : Course) → Ensures (AtBeam b) Any m)
    → Leads (λ e. K (beam e.ppu)) Any (λ e. K (beam e.ppu)) m
keeps_beam K m k = record {
  at = λ e h.
      Holds-map (AtBeam (course e)) (λ e'. K (beam e'.ppu)) Any (m e)
        (λ e' same. subst K (sym same.0) h) ((k (course e)).at e (refl, refl));
}

module _ {b : Beam} (v : OnPicture b) where
  abbrev Skipped : Emulator → Type 0
  Skipped e = IsSkipped b (beam e.ppu)

  abbrev After : ℕ → Emulator → Type 0
  After n e = IsAfter n b (beam e.ppu)

  on-IsSkipped : (e : Emulator) → OnBeam b e → Skipped e
  on-IsSkipped e h = ground arith

  skip_dot-IsSkipped : (n : ℕ) (p : Ppu) → beam p ≡ b → IsSkipped b (beam (skip_dot n p))
  unfolding skip_dot
  skip_dot-IsSkipped n p h = ground arith

  advance-IsAfter : (p : Ppu) → IsSkipped b (beam p) → IsAfter 1 b (beam (advance p))
  unfolding advance
  advance-IsAfter p s = ground arith

  modify_skip : (n : ℕ) → Leads (OnBeam b) Any Skipped (modify_ppu (skip_dot n))
  unfolding modify_ppu
  modify_skip n = record { at = λ e h. (any, skip_dot-IsSkipped n e.ppu h) }

  modify_advance : Leads Skipped Any (After 1) (modify_ppu advance)
  unfolding modify_ppu
  modify_advance = record { at = λ e s. (any, advance-IsAfter e.ppu s) }

  leaves :
      {A : Type 0} (m : Run A)
      → ((c : Course) → Ensures (AtBeam c) Any m)
      → Leads (OnBeam b) Any (OnBeam b) m
  leaves m k = keeps_beam (λ b'. b' ≡ b) m k

  still :
      (m : Run (Unit {0}))
      → ((c : Course) → Ensures (AtBeam c) Any m)
      → Leads (OnBeam b) Any Skipped m
  still m k = record {
    at = λ e h. Holds-map (OnBeam b) Skipped Any (m e) on-IsSkipped ((leaves m k).at e h);
  }

  pre_render_line-Leads : Leads (OnBeam b) Any Skipped pre_render_line
  unfolding pre_render_line
  pre_render_line-Leads =
      Leads-bind _ _ (leaves _ λ c. pre_render_dots-AtBeam)
        λ _ _. Leads-bind _ _ (leaves _ λ c. gets-AtBeam _) λ n _. modify_skip n

  run_line-Leads : Leads (OnBeam b) Any Skipped run_line
  unfolding run_line
  run_line-Leads =
      let visible = still visible_line (λ c. visible_line-AtBeam) in
      let idle = still (pure tt) (λ c. Ensures-pure tt any) in
      let vblank = still vblank_line (λ c. vblank_line-AtBeam) in
      Leads-bind _ _ (leaves _ λ c. gets-AtBeam _)
        λ p _. search (Leads-if, visible, idle, vblank, pre_render_line-Leads)

pub ppu_run_cycle-Leads :
    (b : Beam) → OnPicture b → Leads (OnBeam b) Any (λ e. IsAfter 1 b (beam e.ppu)) ppu_run_cycle
unfolding ppu_run_cycle
ppu_run_cycle-Leads b v = Leads-bind _ _ (run_line-Leads v) λ _ _.
    Leads-bind _ _ (modify_advance v)
      λ _ _. keeps_beam (IsAfter 1 b) run_sprites (λ b'. run_sprites-AtBeam)

-- one cycle more
IsAfter-trans :
    (n : ℕ) (b b' b'' : Beam) → IsAfter n b b' → IsAfter 1 b' b'' → IsAfter (n + 1) b b''
IsAfter-trans n b b' b'' h k = ground arith

-- Three cycles of the PPU and one of the CPU.
pub run_devices-Leads :
    (b : Beam) → OnPicture b → Leads (OnBeam b) Any (λ e. IsAfter 3 b (beam e.ppu)) run_devices
unfolding run_devices
run_devices-Leads b v = Leads-bind _ _ (ppu_run_cycle-Leads b v) λ _ _.
    Leads-bind _ _ (another 1) λ _ _.
      Leads-bind _ _ (another 2)
        λ _ _. keeps_beam (IsAfter 3 b) cpu_run_cycle (λ b'. cpu_run_cycle-AtBeam)
  where
    another :
        (n : ℕ)
        → Leads
            (λ e. IsAfter n b (beam e.ppu))
            Any
            (λ e. IsAfter (n + 1) b (beam e.ppu))
            ppu_run_cycle
    another n = record {
      at = λ e h.
          Holds-map _ _ Any (ppu_run_cycle e)
            (λ e' k. IsAfter-trans n b (beam e.ppu) (beam e'.ppu) h k)
            ((ppu_run_cycle-Leads (beam e.ppu) h.on_picture).at e refl);
    }
