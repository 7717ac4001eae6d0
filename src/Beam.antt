-- ===== src/Beam.antt =====
-- The counters of the PPU that say which dot of the picture is next, which only the end of
-- `ppu_run_cycle` of emulator/ppu.c moves on, and where the cartridge's patterns lie, which only
-- `mapper_init` of emulator/mapper.c sets: rules for code that leaves both alone.
pub mod Memory
pub mod Operands
pub mod Instructions
pub mod Illegal
pub mod Execute
pub mod Cycle
pub mod Picture
use nes_emulator.Prelude.{ℕ, ◌≡◌, refl, ap, Bytes, Bool, true, false, ltb, sym, ◌∙◌}
use nes_emulator.State.{Emulator, Cpu, Ppu, Mem, ChrPointer}
use nes_emulator.Outcome.{
  Run, ◌>>=◌, gets, modify, get_cpu, modify_cpu, modify_ppu, modify_mem, load,
}
use nes_emulator.Outcome.Ensures.{Ensures, Any, any, Ensures-load, Ensures-bind, ensures_rules}

pub record Beam : Type 0 where
  pub dot : ℕ
  pub scanline : ℕ
  pub complete : ℕ

abbrev pub beam : Ppu → Beam
beam p = record { dot = p.cur_dot; scanline = p.cur_scanline; complete = p.frame_complete }

pub record Cartridge : Type 0 where
  pub chr_rom : ChrPointer
  pub size : ℕ

abbrev pub cartridge : Emulator → Cartridge
cartridge e = record { chr_rom = e.mapper.chr_rom; size = e.rom.size }

-- a beam and a cartridge
pub record Course : Type 0 where
  pub beam : Beam
  pub cartridge : Cartridge

abbrev pub AtBeam : Course → Emulator → Type 0
AtBeam b e = (beam e.ppu ≡ b.beam) × (cartridge e ≡ b.cartridge)

module _ {b : Course} where
  pub gets-AtBeam : {A : Type 0} (f : Emulator → A) → Ensures (AtBeam b) Any (gets f)
  unfolding gets
  gets-AtBeam f = record { at = λ e h. (any, h) }

  pub get_cpu-AtBeam : Ensures (AtBeam b) Any get_cpu
  unfolding get_cpu
  get_cpu-AtBeam = record { at = λ e h. (any, h) }

  pub load-AtBeam : (size : ℕ) (f : Bytes) (i : ℕ) → Ensures (AtBeam b) Any (load size f i)
  load-AtBeam size f i = Ensures-load size f i (λ _. any)

  pub modify_cpu-AtBeam : (f : Cpu → Cpu) → Ensures (AtBeam b) Any (modify_cpu f)
  unfolding modify_cpu
  modify_cpu-AtBeam f = record { at = λ e h. (any, h) }

  pub modify_mem-AtBeam : (f : Mem → Mem) → Ensures (AtBeam b) Any (modify_mem f)
  unfolding modify_mem
  modify_mem-AtBeam f = record { at = λ e h. (any, h) }

  pub modify-AtBeam :
      (f : Emulator → Emulator)
      → ((e : Emulator) → (f e).ppu ≡ e.ppu)
      → ((e : Emulator) → cartridge (f e) ≡ cartridge e)
      → Ensures (AtBeam b) Any (modify f)
  unfolding modify
  modify-AtBeam f same held = record { at = λ e h. (any, (ap beam (same e) ∙ h.0, held e ∙ h.1)) }

  pub modify_ppu-AtBeam :
      (f : Ppu → Ppu) → ((p : Ppu) → beam (f p) ≡ beam p) → Ensures (AtBeam b) Any (modify_ppu f)
  unfolding modify_ppu
  modify_ppu-AtBeam f same = record { at = λ e h. (any, (same e.ppu ∙ h.0, h.1)) }

  pub get_ppu-AtBeam : Ensures (AtBeam b) (λ p. beam p ≡ b.beam) (gets (λ e. e.ppu))
  unfolding gets
  get_ppu-AtBeam = record { at = λ e h. (h.0, h) }

pub ruleset beam_rules = (
  ensures_rules, gets-AtBeam, get_cpu-AtBeam, load-AtBeam, modify_cpu-AtBeam, modify_mem-AtBeam,
  modify_ppu-AtBeam, modify-AtBeam, refl,
)
