-- ===== src/Cpu/Execute/Laws.antt =====
-- The tables of emulator/opcodes.h against the `switch` of `execute_instruction`.
use nes_emulator.Prelude.{
  ℕ, ◌≤◌, ◌<◌, ◌≡◌, refl, Bool, true, false, ◌&&◌, arith, leb, if◌then◌else◌, all_below,
  all_below_sound,
}
use nes_emulator.State.{Emulator}
use nes_emulator.Outcome.{exited, exit_failure}
use nes_emulator.Opcodes.{Opcode, AddressMode, instruction_lookup, cycle_lookup}
use nes_emulator.Cpu.Execute.{execute_instruction}

-- the opcodes whose case does not end the program
abbrev pub is_implemented : Opcode → Bool
is_implemented Opcode.an2 = false
is_implemented Opcode.ane = false
is_implemented Opcode.las = false
is_implemented Opcode.lxa = false
is_implemented Opcode.sha = false
is_implemented Opcode.tas = false
is_implemented Opcode.ubc = false
is_implemented Opcode.jam = false
is_implemented _ = true

-- The other opcodes end the program.
pub execute_instruction-exited :
    (o : Opcode) (mode : AddressMode) (e : Emulator)
    → is_implemented o ≡ false
    → execute_instruction o mode e ≡ exited
unfolding execute_instruction exit_failure
execute_instruction-exited Opcode.an2 mode e h = refl
execute_instruction-exited Opcode.ane mode e h = refl
execute_instruction-exited Opcode.las mode e h = refl
execute_instruction-exited Opcode.lxa mode e h = refl
execute_instruction-exited Opcode.sha mode e h = refl
execute_instruction-exited Opcode.tas mode e h = refl
execute_instruction-exited Opcode.ubc mode e h = refl
execute_instruction-exited Opcode.jam mode e h = refl
execute_instruction-exited _ mode e h = absurd (ground arith)

abbrev takes_cycles : ℕ → Bool
takes_cycles byte =
    if is_implemented (instruction_lookup byte).opcode
    then leb 2 (cycle_lookup byte) && leb (cycle_lookup byte) 8
    else true

cycles_table : all_below 256 takes_cycles ≡ true
unfolding all_below instruction_lookup cycle_lookup
cycles_table = refl

-- An opcode byte whose instruction does not end the program takes from two to eight cycles by the
-- table.
pub cycle_lookup-bounds :
    (byte : ℕ)
    → byte < 256
    → is_implemented (instruction_lookup byte).opcode ≡ true
    → (2 ≤ cycle_lookup byte) × (cycle_lookup byte ≤ 8)
cycle_lookup-bounds byte h implemented =
    let entry = rw implemented at (all_below_sound 256 takes_cycles byte cycles_table h) in
    (ground arith, ground arith)
