-- ===== src/Beam/Instructions.antt =====
-- The instructions leave the counters of the picture alone.
use nes_emulator.Outcome.Ensures.{Ensures, Any}
use nes_emulator.Beam.{Course, AtBeam, beam_rules}
use nes_emulator.Beam.Memory.{mem_read_16-AtBeam}
use nes_emulator.Opcodes.{AddressMode, acc}
use nes_emulator.Cpu.Shift.{shift_left, shift_right, rotate_left, rotate_right}
use nes_emulator.Cpu.ReadOps.{
  run_adc, run_sbc, run_and, run_eor, run_ora, run_bit, run_cmp, run_cpx, run_cpy, run_lda, run_ldx,
  run_ldy,
}
use nes_emulator.Cpu.WriteOps.{
  run_asl, run_lsr, run_rol, run_ror, run_dec, run_inc, run_sta, run_stx, run_sty,
}
use nes_emulator.Cpu.StackOps.{
  run_brk, run_jsr, run_pha, run_php, run_pla, run_plp, run_rti, run_rts,
}
use nes_emulator.Beam.Operands.{
  mem_push_stack_8-AtBeam, mem_pop_stack_8-AtBeam, mem_push_stack_16-AtBeam, pop_stack_16-AtBeam,
  operand-AtBeam, run_cpu-AtBeam, write_operand-AtBeam, shift_ac-AtBeam, shift_memory-AtBeam,
}

module _ {b : Course} where
  pub run_adc-AtBeam : Ensures (AtBeam b) Any run_adc
  unfolding run_adc
  run_adc-AtBeam =
      search (beam_rules, operand-AtBeam, write_operand-AtBeam, run_cpu-AtBeam) depth 12

  pub run_sbc-AtBeam : Ensures (AtBeam b) Any run_sbc
  unfolding run_sbc
  run_sbc-AtBeam =
      search (beam_rules, operand-AtBeam, write_operand-AtBeam, run_cpu-AtBeam) depth 12

  pub run_and-AtBeam : Ensures (AtBeam b) Any run_and
  unfolding run_and
  run_and-AtBeam =
      search (beam_rules, operand-AtBeam, write_operand-AtBeam, run_cpu-AtBeam) depth 12

  pub run_eor-AtBeam : Ensures (AtBeam b) Any run_eor
  unfolding run_eor
  run_eor-AtBeam =
      search (beam_rules, operand-AtBeam, write_operand-AtBeam, run_cpu-AtBeam) depth 12

  pub run_ora-AtBeam : Ensures (AtBeam b) Any run_ora
  unfolding run_ora
  run_ora-AtBeam =
      search (beam_rules, operand-AtBeam, write_operand-AtBeam, run_cpu-AtBeam) depth 12

  pub run_bit-AtBeam : Ensures (AtBeam b) Any run_bit
  unfolding run_bit
  run_bit-AtBeam =
      search (beam_rules, operand-AtBeam, write_operand-AtBeam, run_cpu-AtBeam) depth 12

  pub run_cmp-AtBeam : Ensures (AtBeam b) Any run_cmp
  unfolding run_cmp
  run_cmp-AtBeam =
      search (beam_rules, operand-AtBeam, write_operand-AtBeam, run_cpu-AtBeam) depth 12

  pub run_cpx-AtBeam : Ensures (AtBeam b) Any run_cpx
  unfolding run_cpx
  run_cpx-AtBeam =
      search (beam_rules, operand-AtBeam, write_operand-AtBeam, run_cpu-AtBeam) depth 12

  pub run_cpy-AtBeam : Ensures (AtBeam b) Any run_cpy
  unfolding run_cpy
  run_cpy-AtBeam =
      search (beam_rules, operand-AtBeam, write_operand-AtBeam, run_cpu-AtBeam) depth 12

  pub run_lda-AtBeam : Ensures (AtBeam b) Any run_lda
  unfolding run_lda
  run_lda-AtBeam =
      search (beam_rules, operand-AtBeam, write_operand-AtBeam, run_cpu-AtBeam) depth 12

  pub run_ldx-AtBeam : Ensures (AtBeam b) Any run_ldx
  unfolding run_ldx
  run_ldx-AtBeam =
      search (beam_rules, operand-AtBeam, write_operand-AtBeam, run_cpu-AtBeam) depth 12

  pub run_ldy-AtBeam : Ensures (AtBeam b) Any run_ldy
  unfolding run_ldy
  run_ldy-AtBeam =
      search (beam_rules, operand-AtBeam, write_operand-AtBeam, run_cpu-AtBeam) depth 12

  pub run_dec-AtBeam : Ensures (AtBeam b) Any run_dec
  unfolding run_dec
  run_dec-AtBeam =
      search (beam_rules, operand-AtBeam, write_operand-AtBeam, run_cpu-AtBeam) depth 12

  pub run_inc-AtBeam : Ensures (AtBeam b) Any run_inc
  unfolding run_inc
  run_inc-AtBeam =
      search (beam_rules, operand-AtBeam, write_operand-AtBeam, run_cpu-AtBeam) depth 12

  pub run_sta-AtBeam : Ensures (AtBeam b) Any run_sta
  unfolding run_sta
  run_sta-AtBeam =
      search (beam_rules, operand-AtBeam, write_operand-AtBeam, run_cpu-AtBeam) depth 12

  pub run_stx-AtBeam : Ensures (AtBeam b) Any run_stx
  unfolding run_stx
  run_stx-AtBeam =
      search (beam_rules, operand-AtBeam, write_operand-AtBeam, run_cpu-AtBeam) depth 12

  pub run_sty-AtBeam : Ensures (AtBeam b) Any run_sty
  unfolding run_sty
  run_sty-AtBeam =
      search (beam_rules, operand-AtBeam, write_operand-AtBeam, run_cpu-AtBeam) depth 12

  pub run_asl-AtBeam : (mode : AddressMode) → Ensures (AtBeam b) Any (run_asl mode)
  unfolding run_asl
  run_asl-AtBeam acc = shift_ac-AtBeam shift_left
  run_asl-AtBeam _ = search (beam_rules, operand-AtBeam, write_operand-AtBeam, run_cpu-AtBeam)

  pub run_lsr-AtBeam : (mode : AddressMode) → Ensures (AtBeam b) Any (run_lsr mode)
  unfolding run_lsr
  run_lsr-AtBeam acc = shift_ac-AtBeam shift_right
  run_lsr-AtBeam _ = shift_memory-AtBeam shift_right

  pub run_rol-AtBeam : (mode : AddressMode) → Ensures (AtBeam b) Any (run_rol mode)
  unfolding run_rol
  run_rol-AtBeam acc = shift_ac-AtBeam rotate_left
  run_rol-AtBeam _ = shift_memory-AtBeam rotate_left

  pub run_ror-AtBeam : (mode : AddressMode) → Ensures (AtBeam b) Any (run_ror mode)
  unfolding run_ror
  run_ror-AtBeam acc = shift_ac-AtBeam rotate_right
  run_ror-AtBeam _ = shift_memory-AtBeam rotate_right

  pub run_brk-AtBeam : Ensures (AtBeam b) Any run_brk
  unfolding run_brk
  run_brk-AtBeam =
      search
        (
          beam_rules, mem_push_stack_8-AtBeam, mem_push_stack_16-AtBeam, mem_pop_stack_8-AtBeam,
          pop_stack_16-AtBeam, mem_read_16-AtBeam,
        )
        depth 16

  pub run_jsr-AtBeam : Ensures (AtBeam b) Any run_jsr
  unfolding run_jsr
  run_jsr-AtBeam =
      search
        (
          beam_rules, mem_push_stack_8-AtBeam, mem_push_stack_16-AtBeam, mem_pop_stack_8-AtBeam,
          pop_stack_16-AtBeam, mem_read_16-AtBeam,
        )
        depth 16

  pub run_pha-AtBeam : Ensures (AtBeam b) Any run_pha
  unfolding run_pha
  run_pha-AtBeam =
      search
        (
          beam_rules, mem_push_stack_8-AtBeam, mem_push_stack_16-AtBeam, mem_pop_stack_8-AtBeam,
          pop_stack_16-AtBeam, mem_read_16-AtBeam,
        )
        depth 16

  pub run_php-AtBeam : Ensures (AtBeam b) Any run_php
  unfolding run_php
  run_php-AtBeam =
      search
        (
          beam_rules, mem_push_stack_8-AtBeam, mem_push_stack_16-AtBeam, mem_pop_stack_8-AtBeam,
          pop_stack_16-AtBeam, mem_read_16-AtBeam,
        )
        depth 16

  pub run_pla-AtBeam : Ensures (AtBeam b) Any run_pla
  unfolding run_pla
  run_pla-AtBeam =
      search
        (
          beam_rules, mem_push_stack_8-AtBeam, mem_push_stack_16-AtBeam, mem_pop_stack_8-AtBeam,
          pop_stack_16-AtBeam, mem_read_16-AtBeam,
        )
        depth 16

  pub run_plp-AtBeam : Ensures (AtBeam b) Any run_plp
  unfolding run_plp
  run_plp-AtBeam =
      search
        (
          beam_rules, mem_push_stack_8-AtBeam, mem_push_stack_16-AtBeam, mem_pop_stack_8-AtBeam,
          pop_stack_16-AtBeam, mem_read_16-AtBeam,
        )
        depth 16

  pub run_rti-AtBeam : Ensures (AtBeam b) Any run_rti
  unfolding run_rti
  run_rti-AtBeam =
      search
        (
          beam_rules, mem_push_stack_8-AtBeam, mem_push_stack_16-AtBeam, mem_pop_stack_8-AtBeam,
          pop_stack_16-AtBeam, mem_read_16-AtBeam,
        )
        depth 16

  pub run_rts-AtBeam : Ensures (AtBeam b) Any run_rts
  unfolding run_rts
  run_rts-AtBeam =
      search
        (
          beam_rules, mem_push_stack_8-AtBeam, mem_push_stack_16-AtBeam, mem_pop_stack_8-AtBeam,
          pop_stack_16-AtBeam, mem_read_16-AtBeam,
        )
        depth 16
