-- ===== src/Cpu/Cycle/Decode.antt =====
-- A cycle of the CPU in which an instruction starts: interrupt, fetch, decode, address, execute.
use nes_emulator.Prelude.{
  ℕ, ◌+◌, ◌≡◌, refl, ◌∙◌, arith, bit_or, u16, ltb, ◌==◌, true, false, add_size, sub_size,
}
use nes_emulator.State.{Emulator, Cpu, none}
use nes_emulator.Outcome.{Run, done, ◌>>=◌, ◌>>◌, get_cpu, modify_cpu}
use nes_emulator.Mem.Rom.{HasBanks}
use nes_emulator.Opcodes.{Instruction, instruction_lookup, cycle_lookup}
use nes_emulator.Cpu.Flags.{set_flag}
use nes_emulator.Cpu.Interrupt.{handle_nes_interrupt, dispatch_interrupt}
use nes_emulator.Cpu.Execute.{execute_instruction}
use nes_emulator.Cpu.Cycle.{fetch, run_instruction, cpu_run_cycle}
use nes_emulator.Cpu.Effective.{IsPlain, IsReadable, seen, addressed, read-seen}
use nes_emulator.Cpu.Effective.Laws.{set_address_lem}

-- the CPU once the opcode is fetched, its cycles are added and the unused flag is set
abbrev pub decoded : ℕ → Cpu → Cpu
decoded byte c = record c {
  pc = u16 (c.pc + 1);
  cycles = add_size c.cycles (cycle_lookup byte);
  sr = bit_or c.sr 0x20;
}

-- what follows the instruction
abbrev pub add_cycles : Cpu → Cpu
add_cycles c = record c { total_cycles = add_size c.total_cycles c.cycles }

abbrev pub count_down : Cpu → Cpu
count_down c = record c { cycles = sub_size c.cycles 1 }

abbrev pub opcode_at : Emulator → ℕ
opcode_at e = seen e e.cpu.pc

abbrev pub ready_to_execute : Emulator → Emulator
ready_to_execute e = record e { cpu = decoded (opcode_at e) e.cpu }

-- no interrupt, no copy to the object memory and no cycle left of an instruction before
pub record IsBetween (e : Emulator) : Type 0 where
  pub no_dma : e.cpu.dma_cycles ≡ 0
  pub no_cycle : e.cpu.cycles ≡ 0
  pub no_interrupt : e.cpu.pending_interrupt ≡ none

no_interrupt-done : (e : Emulator) → IsBetween e → handle_nes_interrupt e ≡ done (tt, e)
unfolding handle_nes_interrupt ◌>>=◌ dispatch_interrupt
no_interrupt-done e h = rw (handle_nes_interrupt, get_cpu, ◌>>=◌, h.no_interrupt) refl

fetch-done :
    (e : Emulator)
    → HasBanks e
    → IsPlain e.cpu.pc
    → fetch e ≡ done (opcode_at e, record e { cpu = record e.cpu { pc = u16 (e.cpu.pc + 1) } })
unfolding fetch ◌>>=◌ seen
fetch-done e b h =
    let e' = record e { cpu = record e.cpu { pc = u16 (e.cpu.pc + 1) } } in
    rw
      (
        fetch,
        get_cpu,
        modify_cpu,
        ◌>>=◌,
        read-seen e.cpu.pc e' (record { banks = b.banks; fits = b.fits }) h,
      )
      refl

-- the instruction and what is left of `run_instruction` and of `cpu_run_cycle`
abbrev pub execute : Instruction → Run (Unit {0})
execute i = execute_instruction i.opcode i.address_mode >> modify_cpu add_cycles

same_start : (m n k : Run (Unit {0})) (e e' : Emulator) → m e ≡ n e' → (m >> k) e ≡ (n >> k) e'
unfolding ◌>>=◌
same_start m n k e e' h = rw (◌>>=◌, h) refl

module _ (e : Emulator) where
  abbrev instruction : Instruction
  instruction = instruction_lookup (opcode_at e)

  abbrev pub with_operand : Emulator
  with_operand = record e {
    cpu =
        addressed instruction.opcode instruction.address_mode (seen (ready_to_execute e))
          (ready_to_execute e).cpu;
  }

  module _ (h : IsBetween e) (p : IsPlain e.cpu.pc)
      (r : IsReadable instruction.address_mode (ready_to_execute e)) where
    run_instruction-done : run_instruction e ≡ execute instruction with_operand
    unfolding run_instruction ◌>>=◌ set_flag
    run_instruction-done =
        rw
          (
            run_instruction,
            ◌>>=◌,
            modify_cpu,
            no_interrupt-done e h,
            fetch-done e (record { banks = r.banks.banks; fits = r.banks.fits }) p,
            set_address_lem instruction.opcode instruction.address_mode (ready_to_execute e) r,
          )
          refl

    starts : (e.cpu.cycles == 0) ≡ true
    starts = ground (arith, h.no_cycle)

    runs : ltb 0 e.cpu.dma_cycles ≡ false
    runs = ground (arith, h.no_dma)

    first-done : cpu_run_cycle e ≡ (run_instruction >> modify_cpu count_down) e
    unfolding cpu_run_cycle ◌>>=◌
    first-done = rw (cpu_run_cycle, get_cpu, ◌>>=◌, starts, runs) refl

    cycle-done : cpu_run_cycle e ≡ (execute instruction >> modify_cpu count_down) with_operand
    cycle-done =
        first-done
        ∙ same_start run_instruction (execute instruction) (modify_cpu count_down) e with_operand
            run_instruction-done

-- Between two instructions, with no interrupt pending and no copy to the object memory going on,
-- and with the program counter, the operand and an indirect jump's pointer in RAM or in a bank of
-- the cartridge: a cycle of the CPU is the instruction of the byte at the program counter, run
-- with the address that its mode describes and the program counter past its operand, and then the
-- counting of its cycles.
pub cpu_run_cycle_lem :
    (e : Emulator)
    → IsBetween e
    → IsPlain e.cpu.pc
    → IsReadable (instruction_lookup (opcode_at e)).address_mode (ready_to_execute e)
    → cpu_run_cycle e
      ≡ (execute (instruction_lookup (opcode_at e)) >> modify_cpu count_down) (with_operand e)
cpu_run_cycle_lem e h p r = cycle-done e h p r
