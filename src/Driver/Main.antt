-- ===== src/Driver/Main.antt =====
-- emulator/main.c on a regular computer, and `emulator_nestest` of emulator/emulator.c. The file
-- is a parameter: what `fopen`, `ftell` and `fread` give.
pub mod Laws
use nes_emulator.Prelude.{
  ℕ, zero, suc, Bool, true, false, not, ◌&&◌, List, [], ◌∷◌, Bytes, length, get_or, ltb, leb, ◌==◌,
  if◌then◌else◌,
}
use nes_emulator.State.{Rom}
use nes_emulator.Outcome.{Run, pure, exit_failure, ◌>>=◌, ◌>>◌, get_cpu}
use nes_emulator.Driver.{HostFrame, emulator_init, run_devices, nestest_setup, emulator_run}

-- Whether the file opens, its bytes, the size that `ftell` tells, and how much `fread` reads.
pub record HostFile : Type 0 where
  pub opened : Bool
  pub bytes : Bytes
  pub expected_size : ℕ
  pub actual_size : ℕ

unfoldable pub read_rom_from_file : HostFile → Run Rom
read_rom_from_file file =
    if not file.opened
    then exit_failure
    else if not (file.actual_size == file.expected_size)
    then exit_failure
    else pure (record { bytes = file.bytes; size = file.expected_size })

-- NESTEST_MAX_CYCLES
abbrev pub nestest_max_cycles : ℕ
nestest_max_cycles = 26554

-- the loop of `emulator_nestest`, of at most `fuel` steps: whether it came to its end
unfoldable pub nestest_loop : ℕ → Run Bool
nestest_loop zero = pure false
nestest_loop (suc fuel) = do
  run_devices
  c ← get_cpu
  let rest = nestest_loop fuel
  if leb c.total_cycles nestest_max_cycles then rest else pure true

unfoldable pub emulator_nestest : ℕ → Run Bool
emulator_nestest fuel = nestest_setup >> nestest_loop fuel

-- `strcmp(a, b) == 0`, of the characters before the ends of the strings
unfoldable pub same_string : List ℕ → List ℕ → Bool
same_string [] [] = true
same_string [] (c ∷ b) = false
same_string (c ∷ a) [] = false
same_string (c ∷ a) (d ∷ b) = c == d && same_string a b

-- "--nestest"
abbrev pub nestest_option : List ℕ
nestest_option = b'-' ∷ b'-' ∷ b'n' ∷ b'e' ∷ b's' ∷ b't' ∷ b'e' ∷ b's' ∷ b't' ∷ []

-- With the arguments of the command, the file that the first one names, the steps that are left
-- to nestest and the frames of the host: whether each loop came to its end. The window is not
-- part of the emulator: what is acquired and released for it around the run is in Window/Session.
unfoldable pub main : List (List ℕ) → HostFile → ℕ → List HostFrame → Run Bool
main arguments file fuel hosts = if ltb (length arguments) 2 then exit_failure else (do
  buffer ← read_rom_from_file file
  emulator_init buffer
  if ltb 2 (length arguments) && same_string (get_or arguments 2 []) nestest_option
      then emulator_nestest fuel
      else emulator_run hosts)
