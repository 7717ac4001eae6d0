-- ===== src/Driver/Main/Laws.antt =====
-- The program from its arguments on.
use nes_emulator.Prelude.{ℕ, zero, suc, Bool, false, IsBytes, List}
use nes_emulator.State.{Emulator, Rom}
use nes_emulator.State.Valid.{IsValid}
use nes_emulator.Outcome.{Outcome, exited, done, undefined, pure, exit_failure, get_cpu}
use nes_emulator.Outcome.Ensures.{
  Holds, Ensures, Any, any, Ensures-pure, Ensures-if, Ensures-exit, bind-Any,
}
use nes_emulator.Outcome.Leads.{Leads, Leads-bind, Leads-if, Ensures-Leads}
use nes_emulator.Driver.Laws.{run_devices-IsValid, nestest_setup-IsValid}
use nes_emulator.Driver.FrameLoop.{emulator_run-Ensures}
use nes_emulator.Driver.{HostFrame, emulator_run}
use nes_emulator.Driver.Start.{FitsTypes, emulator_init-Leads}
use nes_emulator.Driver.Main.{HostFile, read_rom_from_file, nestest_loop, emulator_nestest, main}

module _ {P : Emulator → Type 0} (file : HostFile) (h : IsBytes file.bytes) where
  whole-IsBytes :
      Ensures P
        (λ (rom : Rom). IsBytes rom.bytes)
        (pure (record { bytes = file.bytes; size = file.expected_size }))
  whole-IsBytes = Ensures-pure _ h

  read_rom-IsBytes : Ensures P (λ (rom : Rom). IsBytes rom.bytes) (read_rom_from_file file)
  unfolding read_rom_from_file
  read_rom-IsBytes = search (Ensures-if, Ensures-exit, whole-IsBytes)

answer : (b : Bool) → Ensures IsValid Any (pure b)
answer b = Ensures-pure b any

ask_cpu : Ensures IsValid Any get_cpu
unfolding get_cpu
ask_cpu = record { at = λ e v. (any, v) }

Holds-forget :
    {A : Type 0} (P : Emulator → Type 0) (Q : A → Type 0) (o : Outcome (A × Emulator))
    → Holds P Q o
    → Holds P Any o
Holds-forget P Q (done (a, e)) h = (any, h.1)
Holds-forget P Q exited h = tt
Holds-forget P Q undefined h = tt

exit-Leads :
    {A : Type 0} {P R : Emulator → Type 0} {Q : A → Type 0} → Leads P Q R (exit_failure {A = A})
unfolding exit_failure
exit-Leads = record { at = λ e p. tt }

nestest_loop-IsValid : (fuel : ℕ) → Ensures IsValid Any (nestest_loop fuel)
unfolding nestest_loop
nestest_loop-IsValid zero = Ensures-pure false any
nestest_loop-IsValid (suc fuel) =
    let rest = nestest_loop-IsValid fuel in
    bind-Any _ _ run_devices-IsValid
      λ _. bind-Any _ _ (ask_cpu) λ c. search (Ensures-if, rest, answer)

emulator_nestest-IsValid : (fuel : ℕ) → Ensures IsValid Any (emulator_nestest fuel)
unfolding emulator_nestest
emulator_nestest-IsValid fuel = bind-Any _ _ nestest_setup-IsValid λ _. nestest_loop-IsValid fuel

run-IsValid : (hosts : List HostFrame) → Ensures IsValid Any (emulator_run hosts)
run-IsValid hosts = record {
  at = λ e v. Holds-forget IsValid _ _ ((emulator_run-Ensures hosts).at e v);
}

main-Leads :
    (arguments : List (List ℕ)) (file : HostFile) (fuel : ℕ) (hosts : List HostFrame)
    → IsBytes file.bytes
    → Leads FitsTypes Any IsValid (main arguments file fuel hosts)
unfolding main
main-Leads arguments file fuel hosts h =
    let nestest = emulator_nestest-IsValid fuel in
    let run = run-IsValid hosts in
    let loaded = Leads-bind _ _ (Ensures-Leads _ (read_rom-IsBytes file h) (λ _ f. f)) λ rom b.
      Leads-bind _ _ (emulator_init-Leads rom b)
        λ _ _. Ensures-Leads {P = IsValid} _ (search (Ensures-if, nestest, run)) (λ _ v. v) in
    Leads-if _ _ _ (λ _. exit-Leads) (λ _. loaded)

-- For a file of bytes and any contents of the memory of the emulator that fit its types, with any
-- arguments, either way of running, and any number of steps and frames: where the program
-- returns, the invariant holds.
pub main-Holds :
    (arguments : List (List ℕ)) (file : HostFile) (fuel : ℕ) (hosts : List HostFrame) (e : Emulator)
    → IsBytes file.bytes
    → FitsTypes e
    → Holds IsValid Any (main arguments file fuel hosts e)
main-Holds arguments file fuel hosts e h f = (main-Leads arguments file fuel hosts h).at e f
