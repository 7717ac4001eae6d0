-- ===== src/Driver/Order.antt =====
-- The order in which `emulator_run` of emulator/emulator.c runs the devices, as relations that do
-- not mention the loops and have no bound on their rounds.
use nes_emulator.Prelude.{
  ℕ, zero, suc, ◌+◌, ◌*◌, ◌≤◌, ◌≡◌, refl, sym, Bool, true, false, inl, inr, arith, truth,
  Bool-cases, List, [], ◌∷◌,
}
use mathlib.Core.Path.{subst}
use nes_emulator.State.{Emulator}
use nes_emulator.State.Valid.{IsValid}
use nes_emulator.Outcome.{
  Outcome, done, exited, undefined, Run, pure, ◌>>=◌, gets, modify, modify_cpu, modify_ppu,
}
use nes_emulator.Outcome.Ensures.{Holds, Any, any}
use nes_emulator.Outcome.Leads.{Leads, Leads-bind, Leads-get_ppu, Holds-map, Holds-both}
use nes_emulator.Beam.{beam}
use nes_emulator.Ppu.Cycle.{ppu_run_cycle}
use nes_emulator.Cpu.Cycle.{cpu_run_cycle}
use nes_emulator.Driver.{
  HostFrame, run_devices, run_frame, handle_quit, steps_per_frame, synchronize_frames,
  emulator_frame, run_frames, emulator_run,
}
use nes_emulator.Driver.Timing.{place, IsAfter, run_devices-Leads}
use nes_emulator.Driver.Laws.{run_devices-Holds}
use nes_emulator.Driver.Frame.{Finished, Stepped, valid-OnPicture, fewer-left}
use nes_emulator.Driver.FrameLoop.{emulator_frame-Ensures}

-- a number of cycles of the PPU
pub data Dotted (e : Emulator) : ℕ → Emulator → Type 0 where
  no_dot : Dotted e 0 e
  dot :
      {n : ℕ} {e' e'' : Emulator}
      → Dotted e n e'
      → ppu_run_cycle e' ≡ done (tt, e'')
      → Dotted e (suc n) e''

-- three cycles of the PPU, then one of the CPU
pub data Turned (e : Emulator) : Emulator → Type 0 where
  turn : {e' e'' : Emulator} → Dotted e 3 e' → cpu_run_cycle e' ≡ done (tt, e'') → Turned e e''

-- that a number of times, to the first time that the frame is complete
pub data TurnedUntil : ℕ → Emulator → Emulator → Type 0 where
  ended : {e e' : Emulator} → Turned e e' → truth e'.ppu.frame_complete ≡ true → TurnedUntil 1 e e'
  again :
      {n : ℕ} {e e' e'' : Emulator}
      → Turned e e'
      → truth e'.ppu.frame_complete ≡ false
      → TurnedUntil n e' e''
      → TurnedUntil (suc n) e e''

-- what is done between the end of a picture and the counting of the frame
pub between : HostFrame → Emulator → Emulator
between host e = handle_quit host.window_quit (record e {
  ppu = record e.ppu { frame_complete = 0 };
  cpu = record e.cpu { total_cycles = 0 };
})

-- one frame: the clock is read, one picture is made, in a number of times within the bound, and
-- the frame is counted
pub data Plays (host : HostFrame) (e : Emulator) : Emulator → Type 0 where
  plays :
      {n : ℕ} {e' e'' : Emulator}
      → n ≤ steps_per_frame
      → TurnedUntil n (record e { time_point_start = host.start }) e'
      → synchronize_frames host.elapsed_us (between host e') ≡ done (tt, e'')
      → Plays host e e''

-- the frames of the host in their order, up to the first one before which the emulator is stopped
pub data PlaysAll : List HostFrame → Emulator → Emulator → Type 0 where
  no_host : {e : Emulator} → PlaysAll [] e e
  stopped :
      {host : HostFrame} {hosts : List HostFrame} {e : Emulator}
      → truth e.is_running ≡ false
      → PlaysAll (host ∷ hosts) e e
  goes_on :
      {host : HostFrame} {hosts : List HostFrame} {e e' e'' : Emulator}
      → truth e.is_running ≡ true
      → Plays host e e'
      → PlaysAll hosts e' e''
      → PlaysAll (host ∷ hosts) e e''

outcome_is :
    (m : Run (Unit {0})) (e : Emulator) (o : Outcome (Unit {0} × Emulator))
    → m e ≡ o
    → Holds (λ e'. m e ≡ done (tt, e')) Any o
outcome_is m e (done (tt, e')) h = (any, h)
outcome_is m e exited h = tt
outcome_is m e undefined h = tt

-- where code returns, it returns what it returns
returned : (m : Run (Unit {0})) (e : Emulator) → Holds (λ e'. m e ≡ done (tt, e')) Any (m e)
returned m e = outcome_is m e (m e) refl

module _ {e : Emulator} where
  ppu-Dotted : (n : ℕ) → Leads (Dotted e n) Any (Dotted e (suc n)) ppu_run_cycle
  ppu-Dotted n = record {
    at =
        λ e' d. Holds-map _ _ Any (ppu_run_cycle e') (λ e'' h. dot d h) (returned ppu_run_cycle e');
  }

  cpu-Turned : Leads (Dotted e 3) Any (Turned e) cpu_run_cycle
  cpu-Turned = record {
    at = λ e' d.
        Holds-map _ _ Any (cpu_run_cycle e') (λ e'' h. turn d h) (returned cpu_run_cycle e');
  }

  devices-Turned : Leads (Dotted e 0) Any (Turned e) run_devices
  unfolding run_devices
  devices-Turned =
      Leads-bind _ _ (ppu-Dotted 0)
        λ _ _. Leads-bind _ _ (ppu-Dotted 1) λ _ _. Leads-bind _ _ (ppu-Dotted 2) λ _ _. cpu-Turned

abbrev AtState : Emulator → Emulator → Type 0
AtState e e₀ = e₀ ≡ e

from_state :
    {A : Type 0} {Q : A → Type 0} {R : Emulator → Type 0} (m : Run A) (e : Emulator)
    → Holds R Q (m e)
    → Leads (AtState e) Q R m
from_state {Q} {R} m e h = record { at = λ e₀ p. subst (λ e'. Holds R Q (m e')) (sym p) h }

-- a picture from `e` on, in at most `fuel` times
abbrev Pictured : ℕ → Emulator → Emulator → Type 0
Pictured fuel e e' = (n : ℕ) × (n ≤ fuel) × TurnedUntil n e e'

more_turns :
    {fuel : ℕ} {e e' e'' : Emulator}
    → Turned e e'
    → truth e'.ppu.frame_complete ≡ false
    → Pictured fuel e' e''
    → Pictured (suc fuel) e e''
more_turns t more p = (suc p.0, omega (arith, p.1), again t more p.2)

one_turn :
    {fuel : ℕ} {e e' : Emulator}
    → Turned e e'
    → truth e'.ppu.frame_complete ≡ true
    → Pictured (suc fuel) e e'
one_turn t over = (1, omega arith, ended t over)

abbrev AfterTurn : Emulator → Emulator → Type 0
AfterTurn e e' = Turned e e' × Stepped (beam e.ppu) e'

devices-AfterTurn : (e : Emulator) → IsValid e → Holds (AfterTurn e) Any (run_devices e)
devices-AfterTurn e v =
    let after = (run_devices-Leads (beam e.ppu) (valid-OnPicture e v)).at e refl in
    Holds-both (Turned e) (Stepped (beam e.ppu)) Any (run_devices e) (devices-Turned.at e no_dot) (
      Holds-both IsValid (λ e'. IsAfter 3 (beam e.ppu) (beam e'.ppu)) Any (run_devices e)
        (run_devices-Holds e v) after)

run_frame-Pictured :
    (fuel : ℕ) (e : Emulator)
    → IsValid e
    → 262 * 341 ≤ place (beam e.ppu) + 3 * fuel
    → Holds (Pictured fuel e) Finished (run_frame fuel e)
unfolding run_frame pure
run_frame-Pictured zero e v h =
    let on = valid-OnPicture e v in absurd (omega (arith, on.dot, on.scanline))
run_frame-Pictured (suc fuel) e v h =
    (Leads-bind {P = λ e₀. AtState e e₀} run_devices _
        (from_state run_devices e (devices-AfterTurn e v))
        λ _ _. Leads-get_ppu _ λ e' s. elim (Bool-cases (truth e'.ppu.frame_complete)) [
          | inl over ↦ rw over (refl, one_turn s.0 over)
          | inr more ↦ rw more (
              Holds-map (Pictured fuel e') (Pictured (suc fuel) e) Finished (run_frame fuel e')
                (λ e'' p. more_turns s.0 more p)
                (run_frame-Pictured fuel e' s.1.0
                  (fewer-left fuel (beam e.ppu) (beam e'.ppu) h s.1.1 more)))
        ]).at
      e refl

-- one frame from `e` on
finish :
    (host : HostFrame) (e e' : Emulator) (finished : Bool)
    → Pictured steps_per_frame (record e { time_point_start = host.start }) e'
    → Holds
        (Plays host e)
        Any
        ((synchronize_frames host.elapsed_us >>= λ _. pure finished) (between host e'))
unfolding pure
finish host e e' finished p =
    (Leads-bind {P = AtState (between host e')} (synchronize_frames host.elapsed_us) _
        (from_state _ (between host e')
          (returned (synchronize_frames host.elapsed_us) (between host e')))
        (λ _ _. record { at = λ e'' h. (any, plays p.1 p.2 h) })).at
      (between host e') refl

emulator_frame-Plays :
    (host : HostFrame) (e : Emulator) → IsValid e → Holds (Plays host e) Any (emulator_frame host e)
unfolding emulator_frame modify modify_cpu modify_ppu between ◌>>=◌
emulator_frame-Plays host e v =
    let begun : Emulator = record e { time_point_start = host.start } in
    let v' : IsValid begun = record {
      cpu = v.cpu;
      ppu = v.ppu;
      mem = v.mem;
      mapper = v.mapper;
      rom = v.rom;
    } in
    (Leads-bind {P = AtState begun} (run_frame steps_per_frame) _
        (from_state _ begun (run_frame-Pictured steps_per_frame begun v' (omega arith)))
        (λ finished _. record { at = λ e' p. finish host e e' finished p })).at
      begun refl

frame_result :
    (host : HostFrame) (e : Emulator)
    → IsValid e
    → Holds (λ e'. Plays host e e' × IsValid e') Finished (emulator_frame host e)
frame_result host e v =
    Holds-both (Plays host e) IsValid Finished (emulator_frame host e)
      (emulator_frame-Plays host e v) ((emulator_frame-Ensures host).at e v)

run_frames-PlaysAll :
    (hosts : List HostFrame) (e : Emulator)
    → IsValid e
    → Holds (PlaysAll hosts e) Finished (run_frames hosts e)
unfolding run_frames pure gets ◌>>=◌
run_frames-PlaysAll [] e v = (refl, no_host)
run_frames-PlaysAll (host ∷ hosts) e v = elim (Bool-cases (truth e.is_running)) [
  | inr off ↦ rw off (refl, stopped off)
  | inl on ↦ rw on (
      (Leads-bind {P = AtState e} (emulator_frame host) _ (from_state _ e (frame_result host e v))
          (λ finished f. record {
            at = λ e' p. rw f (
                Holds-map (PlaysAll hosts e') (PlaysAll (host ∷ hosts) e) Finished
                  (run_frames hosts e') (λ e'' q. goes_on on p.0 q)
                  (run_frames-PlaysAll hosts e' p.1));
          })).at
        e refl)
]

-- From each state with the invariant, where the run of the emulator returns: each of its inner
-- loops has come to its end, and the state is the one that the frames of the host lead to, one by
-- one, up to the first before which the emulator is stopped. In each frame the devices take turns,
-- three cycles of the PPU and then one of the CPU, at most 29781 times, and the frame is complete
-- after the last turn and after none before it; only then the flag of the frame and the counter
-- of the CPU are cleared, the window is asked, and the frame is counted.
pub emulator_run-PlaysAll :
    (hosts : List HostFrame) (e : Emulator)
    → IsValid e
    → Holds (PlaysAll hosts (record e { is_running = 1 })) Finished (emulator_run hosts e)
unfolding emulator_run modify ◌>>=◌
emulator_run-PlaysAll hosts e v =
    run_frames-PlaysAll hosts (record e { is_running = 1 })
      (record { cpu = v.cpu; ppu = v.ppu; mem = v.mem; mapper = v.mapper; rom = v.rom })
