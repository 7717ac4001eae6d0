-- ===== src/Cpu/Valid/Execute.antt =====
-- Every instruction, an interrupt and a cycle of the CPU keep the invariant.
use nes_emulator.Prelude.{ℕ, arith, ◌==◌, bool_to_int}
use nes_emulator.State.Valid.{IsValid, modify_cpu-IsValid}
use nes_emulator.Outcome.{modify_cpu}
use nes_emulator.Outcome.Ensures.{Ensures, Any, any, Ensures-pure, Ensures-exit}
use nes_emulator.Opcodes.{Opcode, AddressMode}
use nes_emulator.Cpu.Flags.{CpuFlag, get_flag, set_flag}
use nes_emulator.Cpu.Execute.{branch_if_set, branch_if_clear, execute_instruction}
use nes_emulator.Cpu.Valid.Registers.{
  set_flag-IsValid, with_pc-IsValid, put_ac-IsValid, put_x-IsValid, put_y-IsValid,
  branch_if-IsValid,
}
use nes_emulator.Cpu.Valid.Reads.{
  run_adc-IsValid, run_sbc-IsValid, run_cmp-IsValid, run_cpx-IsValid, run_cpy-IsValid,
  run_and-IsValid, run_eor-IsValid, run_ora-IsValid, run_bit-IsValid, run_lda-IsValid,
  run_ldx-IsValid, run_ldy-IsValid,
}
use nes_emulator.Cpu.Valid.Writes.{
  run_asl-IsValid, run_lsr-IsValid, run_rol-IsValid, run_ror-IsValid, run_dec-IsValid,
  run_inc-IsValid, run_sta-IsValid, run_stx-IsValid, run_sty-IsValid,
}
use nes_emulator.Cpu.Valid.Stack.{
  run_brk-IsValid, run_jsr-IsValid, run_pha-IsValid, run_php-IsValid, run_pla-IsValid,
  run_plp-IsValid, run_rti-IsValid, run_rts-IsValid,
}
use nes_emulator.Cpu.Valid.Illegal.{
  run_alr-IsValid, run_anc-IsValid, run_arr-IsValid, run_dcp-IsValid, run_isb-IsValid,
  run_lax-IsValid, run_rla-IsValid, run_rra-IsValid, run_sax-IsValid, run_sbx-IsValid,
  run_shx-IsValid, run_shy-IsValid, run_slo-IsValid, run_sre-IsValid,
}

branch_if_set-IsValid : (f : CpuFlag) → Ensures IsValid Any (branch_if_set f)
unfolding branch_if_set
branch_if_set-IsValid f = modify_cpu-IsValid _ λ c. branch_if-IsValid (get_flag f c) c

branch_if_clear-IsValid : (f : CpuFlag) → Ensures IsValid Any (branch_if_clear f)
unfolding branch_if_clear
branch_if_clear-IsValid f =
    modify_cpu-IsValid _ λ c. branch_if-IsValid (bool_to_int (get_flag f c == 0)) c

flag-IsValid : (f : CpuFlag) (n : ℕ) → Ensures IsValid Any (modify_cpu (set_flag f n))
flag-IsValid f n = modify_cpu-IsValid _ (set_flag-IsValid f n)

-- Every opcode in every addressing mode.
pub execute_instruction-IsValid :
    (o : Opcode) (mode : AddressMode) → Ensures IsValid Any (execute_instruction o mode)
unfolding execute_instruction
execute_instruction-IsValid Opcode.adc mode = run_adc-IsValid
execute_instruction-IsValid Opcode.and mode = run_and-IsValid
execute_instruction-IsValid Opcode.asl mode = run_asl-IsValid mode
execute_instruction-IsValid Opcode.bcc mode = branch_if_clear-IsValid CpuFlag.carry
execute_instruction-IsValid Opcode.bcs mode = branch_if_set-IsValid CpuFlag.carry
execute_instruction-IsValid Opcode.beq mode = branch_if_set-IsValid CpuFlag.zero
execute_instruction-IsValid Opcode.bit mode = run_bit-IsValid
execute_instruction-IsValid Opcode.bmi mode = branch_if_set-IsValid CpuFlag.negative
execute_instruction-IsValid Opcode.bne mode = branch_if_clear-IsValid CpuFlag.zero
execute_instruction-IsValid Opcode.bpl mode = branch_if_clear-IsValid CpuFlag.negative
execute_instruction-IsValid Opcode.brk mode = run_brk-IsValid
execute_instruction-IsValid Opcode.bvc mode = branch_if_clear-IsValid CpuFlag.overflw
execute_instruction-IsValid Opcode.bvs mode = branch_if_set-IsValid CpuFlag.overflw
execute_instruction-IsValid Opcode.clc mode = flag-IsValid CpuFlag.carry 0
execute_instruction-IsValid Opcode.cld mode = flag-IsValid CpuFlag.decimal 0
execute_instruction-IsValid Opcode.cli mode = flag-IsValid CpuFlag.interrupt 0
execute_instruction-IsValid Opcode.clv mode = flag-IsValid CpuFlag.overflw 0
execute_instruction-IsValid Opcode.cmp mode = run_cmp-IsValid
execute_instruction-IsValid Opcode.cpx mode = run_cpx-IsValid
execute_instruction-IsValid Opcode.cpy mode = run_cpy-IsValid
execute_instruction-IsValid Opcode.dec mode = run_dec-IsValid
execute_instruction-IsValid Opcode.dex mode =
    modify_cpu-IsValid _ λ c. put_x-IsValid _ c (omega arith)
execute_instruction-IsValid Opcode.dey mode =
    modify_cpu-IsValid _ λ c. put_y-IsValid _ c (omega arith)
execute_instruction-IsValid Opcode.eor mode = run_eor-IsValid
execute_instruction-IsValid Opcode.inc mode = run_inc-IsValid
execute_instruction-IsValid Opcode.inx mode =
    modify_cpu-IsValid _ λ c. put_x-IsValid _ c (omega arith)
execute_instruction-IsValid Opcode.iny mode =
    modify_cpu-IsValid _ λ c. put_y-IsValid _ c (omega arith)
execute_instruction-IsValid Opcode.jmp mode =
    modify_cpu-IsValid _ λ c v. with_pc-IsValid _ c v.address v
execute_instruction-IsValid Opcode.jsr mode = run_jsr-IsValid
execute_instruction-IsValid Opcode.lda mode = run_lda-IsValid
execute_instruction-IsValid Opcode.ldx mode = run_ldx-IsValid
execute_instruction-IsValid Opcode.ldy mode = run_ldy-IsValid
execute_instruction-IsValid Opcode.lsr mode = run_lsr-IsValid mode
execute_instruction-IsValid Opcode.nop mode = Ensures-pure tt any
execute_instruction-IsValid Opcode.ora mode = run_ora-IsValid
execute_instruction-IsValid Opcode.pha mode = run_pha-IsValid
execute_instruction-IsValid Opcode.php mode = run_php-IsValid
execute_instruction-IsValid Opcode.pla mode = run_pla-IsValid
execute_instruction-IsValid Opcode.plp mode = run_plp-IsValid
execute_instruction-IsValid Opcode.rol mode = run_rol-IsValid mode
execute_instruction-IsValid Opcode.ror mode = run_ror-IsValid mode
execute_instruction-IsValid Opcode.rti mode = run_rti-IsValid
execute_instruction-IsValid Opcode.rts mode = run_rts-IsValid
execute_instruction-IsValid Opcode.sbc mode = run_sbc-IsValid
execute_instruction-IsValid Opcode.sec mode = flag-IsValid CpuFlag.carry 1
execute_instruction-IsValid Opcode.sed mode = flag-IsValid CpuFlag.decimal 1
execute_instruction-IsValid Opcode.sei mode = flag-IsValid CpuFlag.interrupt 1
execute_instruction-IsValid Opcode.sta mode = run_sta-IsValid
execute_instruction-IsValid Opcode.stx mode = run_stx-IsValid
execute_instruction-IsValid Opcode.sty mode = run_sty-IsValid
execute_instruction-IsValid Opcode.tax mode = modify_cpu-IsValid _ λ c v. put_x-IsValid _ c v.ac v
execute_instruction-IsValid Opcode.tay mode = modify_cpu-IsValid _ λ c v. put_y-IsValid _ c v.ac v
execute_instruction-IsValid Opcode.tsx mode = modify_cpu-IsValid _ λ c v. put_x-IsValid _ c v.sp v
execute_instruction-IsValid Opcode.txa mode = modify_cpu-IsValid _ λ c v. put_ac-IsValid _ c v.x v
execute_instruction-IsValid Opcode.txs mode = modify_cpu-IsValid _ λ c v. ground arith
execute_instruction-IsValid Opcode.tya mode = modify_cpu-IsValid _ λ c v. put_ac-IsValid _ c v.y v
execute_instruction-IsValid Opcode.alr mode = run_alr-IsValid
execute_instruction-IsValid Opcode.anc mode = run_anc-IsValid
execute_instruction-IsValid Opcode.an2 mode = Ensures-exit
execute_instruction-IsValid Opcode.ane mode = Ensures-exit
execute_instruction-IsValid Opcode.arr mode = run_arr-IsValid
execute_instruction-IsValid Opcode.dcp mode = run_dcp-IsValid
execute_instruction-IsValid Opcode.isb mode = run_isb-IsValid
execute_instruction-IsValid Opcode.las mode = Ensures-exit
execute_instruction-IsValid Opcode.lax mode = run_lax-IsValid
execute_instruction-IsValid Opcode.lxa mode = Ensures-exit
execute_instruction-IsValid Opcode.rla mode = run_rla-IsValid
execute_instruction-IsValid Opcode.rra mode = run_rra-IsValid
execute_instruction-IsValid Opcode.sax mode = run_sax-IsValid
execute_instruction-IsValid Opcode.sbx mode = run_sbx-IsValid
execute_instruction-IsValid Opcode.sha mode = Ensures-exit
execute_instruction-IsValid Opcode.shx mode = run_shx-IsValid
execute_instruction-IsValid Opcode.shy mode = run_shy-IsValid
execute_instruction-IsValid Opcode.slo mode = run_slo-IsValid
execute_instruction-IsValid Opcode.sre mode = run_sre-IsValid
execute_instruction-IsValid Opcode.tas mode = Ensures-exit
execute_instruction-IsValid Opcode.ubc mode = Ensures-exit
execute_instruction-IsValid Opcode.jam mode = Ensures-exit
