-- ===== src/Tests/Registers.antt =====
-- The arithmetic of the CPU and its stack at a concrete machine.
use nes_emulator.Prelude.{
  ◌+◌, ◌*◌, ◌/◌, ◌%◌, ◌-◌, ◌≡◌, refl, ◌≤◌, arith, not, leb, ◌==◌, bool_to_int, u16, add_size,
}
use nes_emulator.Outcome.{done, ◌>>◌}
use nes_emulator.Mem.Stack.Laws.{with_word}
use nes_emulator.Cpu.Flags.{carry, zero, negative, overflw, get_flag}
use nes_emulator.Cpu.Arith.{add_with_carry, subtract_with_carry, compare_with}
use nes_emulator.Cpu.Arith.Laws.{
  IsResult, fits_sum, fits_difference, add_with_carry_lem, subtract_with_carry_lem,
  compare_with_lem,
}
use nes_emulator.Cpu.Shift.{shift_left, shift_right, rotate_left, rotate_right}
use nes_emulator.Cpu.Shift.Laws.{IsShifted, shifts_lem}
use nes_emulator.Cpu.StackOps.{run_jsr, run_rts}
use nes_emulator.Cpu.StackOps.Laws.{rts-jsr}
use nes_emulator.Opcodes.{instruction_lookup, cycle_lookup}
use nes_emulator.Cpu.Execute.Laws.{cycle_lookup-bounds}
use nes_emulator.State.{Emulator, nmi, none}
use nes_emulator.Cpu.StackOps.{run_rti}
use nes_emulator.Cpu.Interrupt.{handle_nes_interrupt}
use nes_emulator.Cpu.Interrupt.Laws.{interrupted, rti-nmi}
use nes_emulator.Tests.Machine.{machine}

add_with_carry_lem_example :
    let c' = add_with_carry 0x7F 0x01 machine.cpu in
    (c'.ac + 256 * get_flag carry c' ≡ 0x7F + 0x01 + get_flag carry machine.cpu)
    × (get_flag overflw c' ≡ bool_to_int (not (fits_sum 0x7F 0x01 (get_flag carry machine.cpu))))
    × IsResult c'
add_with_carry_lem_example = add_with_carry_lem 0x7F 0x01 machine.cpu (omega arith) (omega arith)

subtract_with_carry_lem_example :
    let c' = subtract_with_carry 0x50 0xB0 machine.cpu in
    (c'.ac + 0xB0 + 1 + 256 * get_flag carry c' ≡ 0x50 + 256 + get_flag carry machine.cpu)
    × (get_flag overflw c'
        ≡ bool_to_int (not (fits_difference 0x50 0xB0 (get_flag carry machine.cpu))))
    × IsResult c'
subtract_with_carry_lem_example =
    subtract_with_carry_lem 0x50 0xB0 machine.cpu (omega arith) (omega arith)

compare_with_lem_example :
    let c' = compare_with 0x10 0x20 machine.cpu in
    (get_flag carry c' ≡ bool_to_int (leb 0x20 0x10))
    × (get_flag zero c' ≡ bool_to_int (0x10 == 0x20))
    × (get_flag negative c' ≡ (0x10 + 256 - 0x20) % 256 / 128)
    × (get_flag overflw c' ≡ get_flag overflw machine.cpu)
compare_with_lem_example = compare_with_lem 0x10 0x20 machine.cpu (omega arith) (omega arith)

rts-jsr_example :
    (run_jsr >> run_rts) machine ≡ done (tt, with_word (u16 (machine.cpu.pc + 65535)) machine)
rts-jsr_example = rts-jsr machine (omega arith) (omega arith)

cycle_lookup-bounds_example : (2 ≤ cycle_lookup 0xFE) × (cycle_lookup 0xFE ≤ 8)
unfolding instruction_lookup
cycle_lookup-bounds_example = cycle_lookup-bounds 0xFE (omega arith) refl

shifts_lem_example :
    (let (r, c') = shift_left 0x81 machine.cpu in
      (r + 256 * get_flag carry c' ≡ 2 * 0x81) × IsShifted r c')
    × (let (r, c') = shift_right 0x81 machine.cpu in
        (2 * r + get_flag carry c' ≡ 0x81) × IsShifted r c')
    × (let (r, c') = rotate_left 0x81 machine.cpu in
        (r + 256 * get_flag carry c' ≡ 2 * 0x81 + get_flag carry machine.cpu) × IsShifted r c')
    × (let (r, c') = rotate_right 0x81 machine.cpu in
        (2 * r + get_flag carry c' ≡ 0x81 + 256 * get_flag carry machine.cpu) × IsShifted r c')
shifts_lem_example = shifts_lem 0x81 machine.cpu (omega arith)

abbrev interrupted_machine : Emulator
interrupted_machine = record machine { cpu = record machine.cpu { pending_interrupt = nmi } }

rti-nmi_example :
    (handle_nes_interrupt >> run_rti) interrupted_machine
    ≡ done (
      tt,
      record (interrupted interrupted_machine) {
        cpu = record interrupted_machine.cpu {
          cycles = add_size interrupted_machine.cpu.cycles 7;
          pending_interrupt = none;
        };
      },
    )
rti-nmi_example =
    rti-nmi interrupted_machine (omega arith) (omega arith) (omega arith) refl
      (record { one = refl; fits = omega arith })
