-- ===== src/Beam/Operands.antt =====
-- Operands, the stack and the shifts leave the counters of the picture alone.
use nes_emulator.Prelude.{ℕ}
use nes_emulator.State.{Cpu}
use nes_emulator.Outcome.Ensures.{Ensures, Any, any}
use nes_emulator.Beam.{Course, AtBeam, beam_rules}
use nes_emulator.Beam.Memory.{mem_read_8-AtBeam, mem_write_8-AtBeam}
use nes_emulator.Mem.Stack.{mem_push_stack_8, mem_pop_stack_8, mem_push_stack_16, pop_stack_16}
use nes_emulator.Cpu.ReadOps.{operand}
use nes_emulator.Cpu.WriteOps.{run_cpu, write_operand, shift_ac, shift_memory}

module _ {b : Course} where
  pub mem_push_stack_8-AtBeam : (value : ℕ) → Ensures (AtBeam b) Any (mem_push_stack_8 value)
  unfolding mem_push_stack_8
  mem_push_stack_8-AtBeam value =
      search (beam_rules, mem_read_8-AtBeam, mem_write_8-AtBeam) depth 12

  pub mem_pop_stack_8-AtBeam : Ensures (AtBeam b) Any mem_pop_stack_8
  unfolding mem_pop_stack_8
  mem_pop_stack_8-AtBeam = search (beam_rules, mem_read_8-AtBeam, mem_write_8-AtBeam) depth 12

  pub mem_push_stack_16-AtBeam : (value : ℕ) → Ensures (AtBeam b) Any (mem_push_stack_16 value)
  unfolding mem_push_stack_16
  mem_push_stack_16-AtBeam value = search (beam_rules, mem_push_stack_8-AtBeam) depth 12

  pub pop_stack_16-AtBeam : Ensures (AtBeam b) Any pop_stack_16
  unfolding pop_stack_16
  pop_stack_16-AtBeam = search (beam_rules, mem_pop_stack_8-AtBeam) depth 12

  pub operand-AtBeam : Ensures (AtBeam b) Any operand
  unfolding operand
  operand-AtBeam = search (beam_rules, mem_read_8-AtBeam, mem_write_8-AtBeam) depth 12

  pub run_cpu-AtBeam : (f : Cpu → ℕ × Cpu) → Ensures (AtBeam b) Any (run_cpu f)
  run_cpu-AtBeam f = record { at = λ e h. (any, h) }

  pub write_operand-AtBeam : (value : ℕ) → Ensures (AtBeam b) Any (write_operand value)
  unfolding write_operand
  write_operand-AtBeam value = search (beam_rules, mem_read_8-AtBeam, mem_write_8-AtBeam) depth 12

  pub shift_ac-AtBeam : (f : ℕ → Cpu → ℕ × Cpu) → Ensures (AtBeam b) Any (shift_ac f)
  unfolding shift_ac
  shift_ac-AtBeam f = search (beam_rules, run_cpu-AtBeam) depth 12

  pub shift_memory-AtBeam : (f : ℕ → Cpu → ℕ × Cpu) → Ensures (AtBeam b) Any (shift_memory f)
  unfolding shift_memory
  shift_memory-AtBeam f =
      search (beam_rules, run_cpu-AtBeam, operand-AtBeam, write_operand-AtBeam) depth 12
