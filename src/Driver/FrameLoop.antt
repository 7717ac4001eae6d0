-- ===== src/Driver/FrameLoop.antt =====
-- The frame loop of `emulator_run` keeps the invariant, and each of its inner loops ends.
use nes_emulator.Prelude.{ℕ, ◌≡◌, refl, Bool, true, false, arith, if◌then◌else◌, List, [], ◌∷◌}
use nes_emulator.State.{Emulator}
use nes_emulator.State.Valid.{IsValid, modify_cpu-IsValid, modify_ppu-IsValid}
use nes_emulator.Outcome.{Run, pure, modify}
use nes_emulator.Outcome.Ensures.{
  Ensures, Any, any, Ensures-pure, Ensures-gets, Ensures-bind, Ensures-if, Ensures-modify,
  Ensures-store, bind-Any,
}
use nes_emulator.Driver.{
  run_frame, HostFrame, handle_quit, steps_per_frame, count_frame, synchronize_frames,
  emulator_frame, run_frames, emulator_run,
}
use nes_emulator.Driver.Frame.{Finished, run_frame-Finished}

start-IsValid : (t : ℕ) → Ensures IsValid Any (modify (λ e. record e { time_point_start = t }))
start-IsValid t =
    Ensures-modify _
      λ e v. record { cpu = v.cpu; ppu = v.ppu; mem = v.mem; mapper = v.mapper; rom = v.rom }

running-IsValid : Ensures IsValid Any (modify (λ e. record e { is_running = 1 }))
running-IsValid =
    Ensures-modify _
      λ e v. record { cpu = v.cpu; ppu = v.ppu; mem = v.mem; mapper = v.mapper; rom = v.rom }

handle_quit-IsValid : (q : Bool) (e : Emulator) → IsValid e → IsValid (handle_quit q e)
unfolding handle_quit
handle_quit-IsValid true e v = record {
  cpu = v.cpu;
  ppu = v.ppu;
  mem = v.mem;
  mapper = v.mapper;
  rom = v.rom;
}
handle_quit-IsValid false e v = v

count_frame-IsValid : (t : ℕ) (e : Emulator) → IsValid e → IsValid (count_frame t e)
unfolding count_frame
count_frame-IsValid t e v = record {
  cpu = v.cpu;
  ppu = v.ppu;
  mem = v.mem;
  mapper = v.mapper;
  rom = v.rom;
}

synchronize-IsValid : (t : ℕ) → Ensures IsValid Any (synchronize_frames t)
unfolding synchronize_frames
synchronize-IsValid t =
    bind-Any _ _ (Ensures-gets _ λ e v. any)
      λ n. Ensures-store 60 n _ λ _. Ensures-modify _ (count_frame-IsValid t)

run_frame-Ensures : Ensures IsValid Finished (run_frame steps_per_frame)
run_frame-Ensures = record { at = λ e v. run_frame-Finished steps_per_frame e v (omega arith) }

pub emulator_frame-Ensures : (host : HostFrame) → Ensures IsValid Finished (emulator_frame host)
unfolding emulator_frame
emulator_frame-Ensures host = bind-Any _ _ (start-IsValid host.start) λ _.
    Ensures-bind _ _ run_frame-Ensures λ finished f.
      bind-Any _ _ (modify_ppu-IsValid _ λ p v. ground arith) λ _.
        bind-Any _ _ (modify_cpu-IsValid _ λ c v. ground arith) λ _.
          bind-Any _ _ (Ensures-modify _ (handle_quit-IsValid host.window_quit))
            λ _. bind-Any _ _ (synchronize-IsValid host.elapsed_us) λ _. Ensures-pure finished f

-- a frame that came to its end goes on with the next one
go_on :
    (finished : Bool) (rest : Run Bool)
    → finished ≡ true
    → Ensures IsValid Finished rest
    → Ensures IsValid Finished (if finished then rest else pure false)
go_on true rest f k = k
go_on false rest f k = absurd (ground arith)

stop : Ensures IsValid Finished (pure true)
stop = Ensures-pure true refl

run_frames-Ensures : (hosts : List HostFrame) → Ensures IsValid Finished (run_frames hosts)
unfolding run_frames
run_frames-Ensures [] = stop
run_frames-Ensures (host ∷ hosts) =
    let frame =
      Ensures-bind (emulator_frame host)
        (λ finished. if finished then run_frames hosts else pure false)
        (emulator_frame-Ensures host)
        (λ finished f. go_on finished (run_frames hosts) f (run_frames-Ensures hosts)) in
    bind-Any _ _ (Ensures-gets _ λ e v. any) λ running. search (Ensures-if, frame, stop)

pub emulator_run-Ensures : (hosts : List HostFrame) → Ensures IsValid Finished (emulator_run hosts)
unfolding emulator_run
emulator_run-Ensures hosts = bind-Any _ _ running-IsValid λ _. run_frames-Ensures hosts
