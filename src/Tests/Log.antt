-- ===== src/Tests/Log.antt =====
-- The log, the addressing modes and the program's arguments at concrete states.
use nes_emulator.Prelude.{ℕ, ◌+◌, ◌≡◌, refl, inl, arith, true, List, [], ◌∷◌, ◌++◌, length}
use nes_emulator.State.{Emulator, Cpu}
use nes_emulator.State.Valid.{IsValid}
use nes_emulator.Outcome.{done, ◌>>◌, modify_cpu}
use nes_emulator.Outcome.Ensures.{Holds, Any}
use nes_emulator.Mem.Rom.{HasBanks}
use nes_emulator.Opcodes.{Opcode, AddressMode, instruction_lookup}
use nes_emulator.Cpu.Cycle.{cpu_run_cycle}
use nes_emulator.Cpu.Cycle.Decode.{
  IsBetween, opcode_at, ready_to_execute, execute, count_down, with_operand, cpu_run_cycle_lem,
}
use nes_emulator.Cpu.Address.{set_address}
use nes_emulator.Cpu.Effective.{in_bank, IsReadable, seen, addressed}
use nes_emulator.Cpu.Effective.Laws.{set_address_lem}
use nes_emulator.Debug.Log.{Operand, log_mode}
use nes_emulator.Debug.Log.Addresses.{
  shows_address, address_digits, EndsIn, fetched, log_address-set_address,
}
use nes_emulator.Debug.Line.{log_state, debug_log_instruction}
use nes_emulator.Debug.Line.Laws.{debug_log_instruction_lem}
use nes_emulator.Driver.Main.{HostFile, main}
use nes_emulator.Driver.Main.Laws.{main-Holds}
use nes_emulator.Window.Session.{
  SdlHost, Resource, sdl_session_init, sdl_instance_destroy, no_session,
}
use nes_emulator.Window.Session.Releases.{
  released, obtained, is_doubled, one_if, released-sdl_instance_destroy,
}
use nes_emulator.Prelude.{false}
use nes_emulator.Tests.Machine.{
  machine, machine-IsValid, machine-FitsTypes, small_rom, small_rom-IsBytes, one_frame,
}

machine-HasBanks : HasBanks machine
machine-HasBanks = record { banks = inl refl; fits = omega arith }

-- `JMP ($EAEA)`
machine-IsReadable : IsReadable AddressMode.ind machine
unfolding seen
machine-IsReadable = record {
  valid = machine-IsValid;
  banks = machine-HasBanks;
  low = in_bank (omega arith) (omega arith);
  high = in_bank (omega arith) (omega arith);
  pointer = λ _. (in_bank (omega arith) (omega arith), in_bank (omega arith) (omega arith));
}

set_address_lem_example :
    set_address Opcode.jmp AddressMode.ind machine
    ≡ done (
      tt,
      record machine { cpu = addressed Opcode.jmp AddressMode.ind (seen machine) machine.cpu },
    )
set_address_lem_example = set_address_lem Opcode.jmp AddressMode.ind machine machine-IsReadable

-- `NOP`
machine-IsBetween : IsBetween machine
machine-IsBetween = record { no_dma = refl; no_cycle = refl; no_interrupt = refl }

nop-IsReadable :
    IsReadable (instruction_lookup (opcode_at machine)).address_mode (ready_to_execute machine)
unfolding seen
nop-IsReadable = record {
  valid = record {
    cpu = ground arith;
    ppu = machine-IsValid.ppu;
    mem = machine-IsValid.mem;
    mapper = machine-IsValid.mapper;
    rom = machine-IsValid.rom;
  };
  banks = record { banks = inl refl; fits = omega arith };
  low = in_bank (omega arith) (omega arith);
  high = in_bank (omega arith) (omega arith);
  pointer = λ _. (in_bank (omega arith) (omega arith), in_bank (omega arith) (omega arith));
}

cpu_run_cycle_lem_example :
    cpu_run_cycle machine
    ≡ (execute (instruction_lookup (opcode_at machine)) >> modify_cpu count_down)
        (with_operand machine)
cpu_run_cycle_lem_example =
    cpu_run_cycle_lem machine machine-IsBetween (in_bank (omega arith) (omega arith)) nop-IsReadable

-- the opcode before `machine`'s program counter
abbrev unfetched : Emulator
unfetched = record machine { cpu = record machine.cpu { pc = 0x7FFF } }

log_address-set_address_example :
    (shown : Operand) × (c : Cpu) × (log_mode AddressMode.ind unfetched ≡ done (shown, unfetched))
    × (set_address Opcode.jmp AddressMode.ind (fetched unfetched)
        ≡ done (tt, record unfetched { cpu = c }))
    × (shown.address ≡ c.address)
    × EndsIn (address_digits AddressMode.ind) c.address shown.printed
unfolding shows_address
log_address-set_address_example =
    log_address-set_address Opcode.jmp AddressMode.ind unfetched refl machine-IsReadable

debug_log_instruction_lem_example :
    Holds
      (λ e'. e' ≡ machine)
      (λ text.
        (front : List ℕ) × (length front ≡ 48)
        × (text ≡ front ++ log_state machine.cpu machine.ppu))
      (debug_log_instruction machine)
debug_log_instruction_lem_example = debug_log_instruction_lem machine

abbrev whole_file : HostFile
whole_file = record {
  opened = true;
  bytes = small_rom.bytes;
  expected_size = 0x4010;
  actual_size = 0x4010;
}

-- `emulator game.nes`
abbrev two_arguments : List (List ℕ)
two_arguments = (b'e' ∷ []) ∷ (b'g' ∷ []) ∷ []

main-Holds_example : Holds IsValid Any (main two_arguments whole_file 9 one_frame machine)
main-Holds_example =
    main-Holds two_arguments whole_file 9 one_frame machine small_rom-IsBytes machine-FitsTypes

-- no renderer
abbrev poor_host : SdlHost
poor_host = record {
  started = true;
  has_window = true;
  has_renderer = false;
  has_texture = true;
  has_memory = true;
}

released-sdl_instance_destroy_example :
    released Resource.window (sdl_instance_destroy (sdl_session_init poor_host no_session).1).calls
    ≡ one_if (obtained Resource.window poor_host) + one_if (is_doubled Resource.window poor_host)
released-sdl_instance_destroy_example = released-sdl_instance_destroy poor_host Resource.window
