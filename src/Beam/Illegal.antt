-- ===== src/Beam/Illegal.antt =====
-- The illegal instructions leave the counters of the picture alone.
use nes_emulator.Prelude.{ℕ}
use nes_emulator.Outcome.Ensures.{Ensures, Any}
use nes_emulator.Beam.{Course, AtBeam, beam_rules}
use nes_emulator.Beam.Memory.{mem_read_8-AtBeam, mem_write_8-AtBeam}
use nes_emulator.Cpu.IllegalOps.{
  store_high_anded, run_alr, run_anc, run_arr, run_dcp, run_isb, run_lax, run_rla, run_rra, run_sax,
  run_sbx, run_shx, run_shy, run_slo, run_sre,
}
use nes_emulator.Beam.Operands.{
  operand-AtBeam, run_cpu-AtBeam, write_operand-AtBeam, shift_ac-AtBeam,
}

module _ {b : Course} where
  pub store_high_anded-AtBeam :
      (register : ℕ) (address : ℕ) → Ensures (AtBeam b) Any (store_high_anded register address)
  unfolding store_high_anded
  store_high_anded-AtBeam register address =
      search (beam_rules, mem_read_8-AtBeam, mem_write_8-AtBeam) depth 12

  pub run_alr-AtBeam : Ensures (AtBeam b) Any run_alr
  unfolding run_alr
  run_alr-AtBeam =
      search
        (
          beam_rules, operand-AtBeam, write_operand-AtBeam, run_cpu-AtBeam, shift_ac-AtBeam,
          store_high_anded-AtBeam,
        )
        depth 16

  pub run_anc-AtBeam : Ensures (AtBeam b) Any run_anc
  unfolding run_anc
  run_anc-AtBeam =
      search
        (
          beam_rules, operand-AtBeam, write_operand-AtBeam, run_cpu-AtBeam, shift_ac-AtBeam,
          store_high_anded-AtBeam,
        )
        depth 16

  pub run_arr-AtBeam : Ensures (AtBeam b) Any run_arr
  unfolding run_arr
  run_arr-AtBeam =
      search
        (
          beam_rules, operand-AtBeam, write_operand-AtBeam, run_cpu-AtBeam, shift_ac-AtBeam,
          store_high_anded-AtBeam,
        )
        depth 16

  pub run_dcp-AtBeam : Ensures (AtBeam b) Any run_dcp
  unfolding run_dcp
  run_dcp-AtBeam =
      search
        (
          beam_rules, operand-AtBeam, write_operand-AtBeam, run_cpu-AtBeam, shift_ac-AtBeam,
          store_high_anded-AtBeam,
        )
        depth 16

  pub run_isb-AtBeam : Ensures (AtBeam b) Any run_isb
  unfolding run_isb
  run_isb-AtBeam =
      search
        (
          beam_rules, operand-AtBeam, write_operand-AtBeam, run_cpu-AtBeam, shift_ac-AtBeam,
          store_high_anded-AtBeam,
        )
        depth 16

  pub run_lax-AtBeam : Ensures (AtBeam b) Any run_lax
  unfolding run_lax
  run_lax-AtBeam =
      search
        (
          beam_rules, operand-AtBeam, write_operand-AtBeam, run_cpu-AtBeam, shift_ac-AtBeam,
          store_high_anded-AtBeam,
        )
        depth 16

  pub run_rla-AtBeam : Ensures (AtBeam b) Any run_rla
  unfolding run_rla
  run_rla-AtBeam =
      search
        (
          beam_rules, operand-AtBeam, write_operand-AtBeam, run_cpu-AtBeam, shift_ac-AtBeam,
          store_high_anded-AtBeam,
        )
        depth 16

  pub run_rra-AtBeam : Ensures (AtBeam b) Any run_rra
  unfolding run_rra
  run_rra-AtBeam =
      search
        (
          beam_rules, operand-AtBeam, write_operand-AtBeam, run_cpu-AtBeam, shift_ac-AtBeam,
          store_high_anded-AtBeam,
        )
        depth 16

  pub run_sax-AtBeam : Ensures (AtBeam b) Any run_sax
  unfolding run_sax
  run_sax-AtBeam =
      search
        (
          beam_rules, operand-AtBeam, write_operand-AtBeam, run_cpu-AtBeam, shift_ac-AtBeam,
          store_high_anded-AtBeam,
        )
        depth 16

  pub run_sbx-AtBeam : Ensures (AtBeam b) Any run_sbx
  unfolding run_sbx
  run_sbx-AtBeam =
      search
        (
          beam_rules, operand-AtBeam, write_operand-AtBeam, run_cpu-AtBeam, shift_ac-AtBeam,
          store_high_anded-AtBeam,
        )
        depth 16

  pub run_shx-AtBeam : Ensures (AtBeam b) Any run_shx
  unfolding run_shx
  run_shx-AtBeam =
      search
        (
          beam_rules, operand-AtBeam, write_operand-AtBeam, run_cpu-AtBeam, shift_ac-AtBeam,
          store_high_anded-AtBeam,
        )
        depth 16

  pub run_shy-AtBeam : Ensures (AtBeam b) Any run_shy
  unfolding run_shy
  run_shy-AtBeam =
      search
        (
          beam_rules, operand-AtBeam, write_operand-AtBeam, run_cpu-AtBeam, shift_ac-AtBeam,
          store_high_anded-AtBeam,
        )
        depth 16

  pub run_slo-AtBeam : Ensures (AtBeam b) Any run_slo
  unfolding run_slo
  run_slo-AtBeam =
      search
        (
          beam_rules, operand-AtBeam, write_operand-AtBeam, run_cpu-AtBeam, shift_ac-AtBeam,
          store_high_anded-AtBeam,
        )
        depth 16

  pub run_sre-AtBeam : Ensures (AtBeam b) Any run_sre
  unfolding run_sre
  run_sre-AtBeam =
      search
        (
          beam_rules, operand-AtBeam, write_operand-AtBeam, run_cpu-AtBeam, shift_ac-AtBeam,
          store_high_anded-AtBeam,
        )
        depth 16
