-- ===== src/Beam/Execute.antt =====
-- The addressing modes and the switch on the opcode leave the counters of the picture alone.
use nes_emulator.Prelude.{ℕ}
use nes_emulator.Outcome.Ensures.{Ensures, Any, any, Ensures-pure, Ensures-exit}
use nes_emulator.Beam.{Course, AtBeam, beam_rules, modify_cpu-AtBeam}
use nes_emulator.Beam.Memory.{mem_read_8-AtBeam, mem_write_8-AtBeam, mem_read_16-AtBeam}
use nes_emulator.Opcodes.{
  Opcode, AddressMode, acc, abs, abx, aby, imm, imp, ind, xin, yin, rel, zp0, zpx, zpy, unk,
}
use nes_emulator.Cpu.Address.{set_address, read_zero_page_16}
use nes_emulator.Cpu.Execute.{branch_if_set, branch_if_clear, execute_instruction}
use nes_emulator.Beam.Instructions.{
  run_adc-AtBeam, run_sbc-AtBeam, run_and-AtBeam, run_eor-AtBeam, run_ora-AtBeam, run_bit-AtBeam,
  run_cmp-AtBeam, run_cpx-AtBeam, run_cpy-AtBeam, run_lda-AtBeam, run_ldx-AtBeam, run_ldy-AtBeam,
  run_asl-AtBeam, run_lsr-AtBeam, run_rol-AtBeam, run_ror-AtBeam, run_dec-AtBeam, run_inc-AtBeam,
  run_sta-AtBeam, run_stx-AtBeam, run_sty-AtBeam, run_brk-AtBeam, run_jsr-AtBeam, run_pha-AtBeam,
  run_php-AtBeam, run_pla-AtBeam, run_plp-AtBeam, run_rti-AtBeam, run_rts-AtBeam,
}
use nes_emulator.Beam.Illegal.{
  run_alr-AtBeam, run_anc-AtBeam, run_arr-AtBeam, run_dcp-AtBeam, run_isb-AtBeam, run_lax-AtBeam,
  run_rla-AtBeam, run_rra-AtBeam, run_sax-AtBeam, run_sbx-AtBeam, run_shx-AtBeam, run_shy-AtBeam,
  run_slo-AtBeam, run_sre-AtBeam,
}

module _ {b : Course} where
  pub execute_instruction-AtBeam :
      (o : Opcode) (mode : AddressMode) → Ensures (AtBeam b) Any (execute_instruction o mode)
  unfolding execute_instruction branch_if_set branch_if_clear
  execute_instruction-AtBeam Opcode.adc mode = run_adc-AtBeam
  execute_instruction-AtBeam Opcode.and mode = run_and-AtBeam
  execute_instruction-AtBeam Opcode.asl mode = run_asl-AtBeam mode
  execute_instruction-AtBeam Opcode.bcc mode = modify_cpu-AtBeam _
  execute_instruction-AtBeam Opcode.bcs mode = modify_cpu-AtBeam _
  execute_instruction-AtBeam Opcode.beq mode = modify_cpu-AtBeam _
  execute_instruction-AtBeam Opcode.bit mode = run_bit-AtBeam
  execute_instruction-AtBeam Opcode.bmi mode = modify_cpu-AtBeam _
  execute_instruction-AtBeam Opcode.bne mode = modify_cpu-AtBeam _
  execute_instruction-AtBeam Opcode.bpl mode = modify_cpu-AtBeam _
  execute_instruction-AtBeam Opcode.brk mode = run_brk-AtBeam
  execute_instruction-AtBeam Opcode.bvc mode = modify_cpu-AtBeam _
  execute_instruction-AtBeam Opcode.bvs mode = modify_cpu-AtBeam _
  execute_instruction-AtBeam Opcode.clc mode = modify_cpu-AtBeam _
  execute_instruction-AtBeam Opcode.cld mode = modify_cpu-AtBeam _
  execute_instruction-AtBeam Opcode.cli mode = modify_cpu-AtBeam _
  execute_instruction-AtBeam Opcode.clv mode = modify_cpu-AtBeam _
  execute_instruction-AtBeam Opcode.cmp mode = run_cmp-AtBeam
  execute_instruction-AtBeam Opcode.cpx mode = run_cpx-AtBeam
  execute_instruction-AtBeam Opcode.cpy mode = run_cpy-AtBeam
  execute_instruction-AtBeam Opcode.dec mode = run_dec-AtBeam
  execute_instruction-AtBeam Opcode.dex mode = modify_cpu-AtBeam _
  execute_instruction-AtBeam Opcode.dey mode = modify_cpu-AtBeam _
  execute_instruction-AtBeam Opcode.eor mode = run_eor-AtBeam
  execute_instruction-AtBeam Opcode.inc mode = run_inc-AtBeam
  execute_instruction-AtBeam Opcode.inx mode = modify_cpu-AtBeam _
  execute_instruction-AtBeam Opcode.iny mode = modify_cpu-AtBeam _
  execute_instruction-AtBeam Opcode.jmp mode = modify_cpu-AtBeam _
  execute_instruction-AtBeam Opcode.jsr mode = run_jsr-AtBeam
  execute_instruction-AtBeam Opcode.lda mode = run_lda-AtBeam
  execute_instruction-AtBeam Opcode.ldx mode = run_ldx-AtBeam
  execute_instruction-AtBeam Opcode.ldy mode = run_ldy-AtBeam
  execute_instruction-AtBeam Opcode.lsr mode = run_lsr-AtBeam mode
  execute_instruction-AtBeam Opcode.nop mode = Ensures-pure tt any
  execute_instruction-AtBeam Opcode.ora mode = run_ora-AtBeam
  execute_instruction-AtBeam Opcode.pha mode = run_pha-AtBeam
  execute_instruction-AtBeam Opcode.php mode = run_php-AtBeam
  execute_instruction-AtBeam Opcode.pla mode = run_pla-AtBeam
  execute_instruction-AtBeam Opcode.plp mode = run_plp-AtBeam
  execute_instruction-AtBeam Opcode.rol mode = run_rol-AtBeam mode
  execute_instruction-AtBeam Opcode.ror mode = run_ror-AtBeam mode
  execute_instruction-AtBeam Opcode.rti mode = run_rti-AtBeam
  execute_instruction-AtBeam Opcode.rts mode = run_rts-AtBeam
  execute_instruction-AtBeam Opcode.sbc mode = run_sbc-AtBeam
  execute_instruction-AtBeam Opcode.sec mode = modify_cpu-AtBeam _
  execute_instruction-AtBeam Opcode.sed mode = modify_cpu-AtBeam _
  execute_instruction-AtBeam Opcode.sei mode = modify_cpu-AtBeam _
  execute_instruction-AtBeam Opcode.sta mode = run_sta-AtBeam
  execute_instruction-AtBeam Opcode.stx mode = run_stx-AtBeam
  execute_instruction-AtBeam Opcode.sty mode = run_sty-AtBeam
  execute_instruction-AtBeam Opcode.tax mode = modify_cpu-AtBeam _
  execute_instruction-AtBeam Opcode.tay mode = modify_cpu-AtBeam _
  execute_instruction-AtBeam Opcode.tsx mode = modify_cpu-AtBeam _
  execute_instruction-AtBeam Opcode.txa mode = modify_cpu-AtBeam _
  execute_instruction-AtBeam Opcode.txs mode = modify_cpu-AtBeam _
  execute_instruction-AtBeam Opcode.tya mode = modify_cpu-AtBeam _
  execute_instruction-AtBeam Opcode.alr mode = run_alr-AtBeam
  execute_instruction-AtBeam Opcode.anc mode = run_anc-AtBeam
  execute_instruction-AtBeam Opcode.an2 mode = Ensures-exit
  execute_instruction-AtBeam Opcode.ane mode = Ensures-exit
  execute_instruction-AtBeam Opcode.arr mode = run_arr-AtBeam
  execute_instruction-AtBeam Opcode.dcp mode = run_dcp-AtBeam
  execute_instruction-AtBeam Opcode.isb mode = run_isb-AtBeam
  execute_instruction-AtBeam Opcode.las mode = Ensures-exit
  execute_instruction-AtBeam Opcode.lax mode = run_lax-AtBeam
  execute_instruction-AtBeam Opcode.lxa mode = Ensures-exit
  execute_instruction-AtBeam Opcode.rla mode = run_rla-AtBeam
  execute_instruction-AtBeam Opcode.rra mode = run_rra-AtBeam
  execute_instruction-AtBeam Opcode.sax mode = run_sax-AtBeam
  execute_instruction-AtBeam Opcode.sbx mode = run_sbx-AtBeam
  execute_instruction-AtBeam Opcode.sha mode = Ensures-exit
  execute_instruction-AtBeam Opcode.shx mode = run_shx-AtBeam
  execute_instruction-AtBeam Opcode.shy mode = run_shy-AtBeam
  execute_instruction-AtBeam Opcode.slo mode = run_slo-AtBeam
  execute_instruction-AtBeam Opcode.sre mode = run_sre-AtBeam
  execute_instruction-AtBeam Opcode.tas mode = Ensures-exit
  execute_instruction-AtBeam Opcode.ubc mode = Ensures-exit
  execute_instruction-AtBeam Opcode.jam mode = Ensures-exit

  pub read_zero_page_16-AtBeam : (a : ℕ) → Ensures (AtBeam b) Any (read_zero_page_16 a)
  unfolding read_zero_page_16
  read_zero_page_16-AtBeam a = search (beam_rules, mem_read_8-AtBeam, mem_write_8-AtBeam) depth 12

  pub set_address-AtBeam :
      (o : Opcode) (mode : AddressMode) → Ensures (AtBeam b) Any (set_address o mode)
  unfolding set_address
  set_address-AtBeam o acc =
      search (beam_rules, mem_read_8-AtBeam, mem_read_16-AtBeam, read_zero_page_16-AtBeam) depth 14
  set_address-AtBeam o abs =
      search (beam_rules, mem_read_8-AtBeam, mem_read_16-AtBeam, read_zero_page_16-AtBeam) depth 14
  set_address-AtBeam o abx =
      search (beam_rules, mem_read_8-AtBeam, mem_read_16-AtBeam, read_zero_page_16-AtBeam) depth 14
  set_address-AtBeam o aby =
      search (beam_rules, mem_read_8-AtBeam, mem_read_16-AtBeam, read_zero_page_16-AtBeam) depth 14
  set_address-AtBeam o imm =
      search (beam_rules, mem_read_8-AtBeam, mem_read_16-AtBeam, read_zero_page_16-AtBeam) depth 14
  set_address-AtBeam o imp =
      search (beam_rules, mem_read_8-AtBeam, mem_read_16-AtBeam, read_zero_page_16-AtBeam) depth 14
  set_address-AtBeam o ind =
      search (beam_rules, mem_read_8-AtBeam, mem_read_16-AtBeam, read_zero_page_16-AtBeam) depth 14
  set_address-AtBeam o xin =
      search (beam_rules, mem_read_8-AtBeam, mem_read_16-AtBeam, read_zero_page_16-AtBeam) depth 14
  set_address-AtBeam o yin =
      search (beam_rules, mem_read_8-AtBeam, mem_read_16-AtBeam, read_zero_page_16-AtBeam) depth 14
  set_address-AtBeam o rel =
      search (beam_rules, mem_read_8-AtBeam, mem_read_16-AtBeam, read_zero_page_16-AtBeam) depth 14
  set_address-AtBeam o zp0 =
      search (beam_rules, mem_read_8-AtBeam, mem_read_16-AtBeam, read_zero_page_16-AtBeam) depth 14
  set_address-AtBeam o zpx =
      search (beam_rules, mem_read_8-AtBeam, mem_read_16-AtBeam, read_zero_page_16-AtBeam) depth 14
  set_address-AtBeam o zpy =
      search (beam_rules, mem_read_8-AtBeam, mem_read_16-AtBeam, read_zero_page_16-AtBeam) depth 14
  set_address-AtBeam o unk =
      search (beam_rules, mem_read_8-AtBeam, mem_read_16-AtBeam, read_zero_page_16-AtBeam) depth 14
