-- ===== src/Beam/Cycle.antt =====
-- Interrupts and a cycle of the CPU leave the counters of the picture alone.
use nes_emulator.Prelude.{ℕ, Bool}
use nes_emulator.State.{Interrupt, none, nmi, irq, rsi}
use nes_emulator.Outcome.Ensures.{Ensures, Any, any, Ensures-pure}
use nes_emulator.Beam.{Course, AtBeam, beam_rules}
use nes_emulator.Beam.Memory.{mem_read_8-AtBeam, mem_write_8-AtBeam, mem_read_16-AtBeam}
use nes_emulator.Cpu.Interrupt.{
  enter_interrupt, drop_interrupt, dispatch_interrupt, handle_nes_interrupt,
}
use nes_emulator.Cpu.Cycle.{fetch, run_instruction, cpu_run_cycle}
use nes_emulator.Beam.Operands.{
  mem_push_stack_8-AtBeam, mem_pop_stack_8-AtBeam, mem_push_stack_16-AtBeam, pop_stack_16-AtBeam,
}
use nes_emulator.Beam.Execute.{execute_instruction-AtBeam, set_address-AtBeam}

module _ {b : Course} where
  pub enter_interrupt-AtBeam : (address : ℕ) → Ensures (AtBeam b) Any (enter_interrupt address)
  unfolding enter_interrupt
  enter_interrupt-AtBeam address =
      search
        (
          beam_rules, mem_push_stack_8-AtBeam, mem_push_stack_16-AtBeam, mem_pop_stack_8-AtBeam,
          pop_stack_16-AtBeam, mem_read_16-AtBeam,
        )
        depth 18

  pub drop_interrupt-AtBeam : Ensures (AtBeam b) Any drop_interrupt
  unfolding drop_interrupt
  drop_interrupt-AtBeam = search (beam_rules) depth 12

  pub dispatch_interrupt-AtBeam :
      (i : Interrupt) (masked : Bool) → Ensures (AtBeam b) Any (dispatch_interrupt i masked)
  unfolding dispatch_interrupt
  dispatch_interrupt-AtBeam none masked = Ensures-pure tt any
  dispatch_interrupt-AtBeam nmi masked = enter_interrupt-AtBeam _
  dispatch_interrupt-AtBeam irq masked =
      search (beam_rules, drop_interrupt-AtBeam, enter_interrupt-AtBeam)
  dispatch_interrupt-AtBeam rsi masked = search (beam_rules, drop_interrupt-AtBeam)

  pub handle_nes_interrupt-AtBeam : Ensures (AtBeam b) Any handle_nes_interrupt
  unfolding handle_nes_interrupt
  handle_nes_interrupt-AtBeam = search (beam_rules, dispatch_interrupt-AtBeam) depth 12

  pub fetch-AtBeam : Ensures (AtBeam b) Any fetch
  unfolding fetch
  fetch-AtBeam = search (beam_rules, mem_read_8-AtBeam, mem_write_8-AtBeam) depth 12

  pub run_instruction-AtBeam : Ensures (AtBeam b) Any run_instruction
  unfolding run_instruction
  run_instruction-AtBeam =
      search
        (
          beam_rules, handle_nes_interrupt-AtBeam, fetch-AtBeam, set_address-AtBeam,
          execute_instruction-AtBeam,
        )
        depth 20

  pub cpu_run_cycle-AtBeam : Ensures (AtBeam b) Any cpu_run_cycle
  unfolding cpu_run_cycle
  cpu_run_cycle-AtBeam = search (beam_rules, run_instruction-AtBeam) depth 12
