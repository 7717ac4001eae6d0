-- ===== src/Cpu/Execute.antt =====
-- `execute_instruction` of emulator/cpu.c: the `switch` on the opcode.
pub mod Laws
use nes_emulator.Prelude.{◌+◌, ◌==◌, bool_to_int, u8}
use nes_emulator.Outcome.{Run, pure, exit_failure, modify_cpu}
use nes_emulator.Opcodes.{Opcode, AddressMode}
use nes_emulator.Cpu.Flags.{CpuFlag, get_flag, set_flag}
use nes_emulator.Cpu.Branch.{branch_if}
use nes_emulator.Cpu.ReadOps.{
  run_adc, run_sbc, run_and, run_eor, run_ora, run_bit, run_cmp, run_cpx, run_cpy, run_lda, run_ldx,
  run_ldy, put_ac, put_x, put_y,
}
use nes_emulator.Cpu.WriteOps.{
  run_asl, run_lsr, run_rol, run_ror, run_dec, run_inc, run_sta, run_stx, run_sty,
}
use nes_emulator.Cpu.StackOps.{
  run_brk, run_jsr, run_pha, run_php, run_pla, run_plp, run_rti, run_rts,
}
use nes_emulator.Cpu.IllegalOps.{
  run_alr, run_anc, run_arr, run_dcp, run_isb, run_lax, run_rla, run_rra, run_sax, run_sbx, run_shx,
  run_shy, run_slo, run_sre,
}

-- a branch on a flag that is set, and on one that is clear
unfoldable pub branch_if_set : CpuFlag → Run (Unit {0})
branch_if_set flag = modify_cpu (λ c. branch_if (get_flag flag c) c)

unfoldable pub branch_if_clear : CpuFlag → Run (Unit {0})
branch_if_clear flag = modify_cpu (λ c. branch_if (bool_to_int (get_flag flag c == 0)) c)

unfoldable pub execute_instruction : Opcode → AddressMode → Run (Unit {0})
execute_instruction Opcode.adc mode = run_adc
execute_instruction Opcode.and mode = run_and
execute_instruction Opcode.asl mode = run_asl mode
execute_instruction Opcode.bcc mode = branch_if_clear CpuFlag.carry
execute_instruction Opcode.bcs mode = branch_if_set CpuFlag.carry
execute_instruction Opcode.beq mode = branch_if_set CpuFlag.zero
execute_instruction Opcode.bit mode = run_bit
execute_instruction Opcode.bmi mode = branch_if_set CpuFlag.negative
execute_instruction Opcode.bne mode = branch_if_clear CpuFlag.zero
execute_instruction Opcode.bpl mode = branch_if_clear CpuFlag.negative
execute_instruction Opcode.brk mode = run_brk
execute_instruction Opcode.bvc mode = branch_if_clear CpuFlag.overflw
execute_instruction Opcode.bvs mode = branch_if_set CpuFlag.overflw
execute_instruction Opcode.clc mode = modify_cpu (set_flag CpuFlag.carry 0)
execute_instruction Opcode.cld mode = modify_cpu (set_flag CpuFlag.decimal 0)
execute_instruction Opcode.cli mode = modify_cpu (set_flag CpuFlag.interrupt 0)
execute_instruction Opcode.clv mode = modify_cpu (set_flag CpuFlag.overflw 0)
execute_instruction Opcode.cmp mode = run_cmp
execute_instruction Opcode.cpx mode = run_cpx
execute_instruction Opcode.cpy mode = run_cpy
execute_instruction Opcode.dec mode = run_dec
execute_instruction Opcode.dex mode = modify_cpu (λ c. put_x (u8 (c.x + 255)) c)
execute_instruction Opcode.dey mode = modify_cpu (λ c. put_y (u8 (c.y + 255)) c)
execute_instruction Opcode.eor mode = run_eor
execute_instruction Opcode.inc mode = run_inc
execute_instruction Opcode.inx mode = modify_cpu (λ c. put_x (u8 (c.x + 1)) c)
execute_instruction Opcode.iny mode = modify_cpu (λ c. put_y (u8 (c.y + 1)) c)
execute_instruction Opcode.jmp mode = modify_cpu (λ c. record c { pc = c.address })
execute_instruction Opcode.jsr mode = run_jsr
execute_instruction Opcode.lda mode = run_lda
execute_instruction Opcode.ldx mode = run_ldx
execute_instruction Opcode.ldy mode = run_ldy
execute_instruction Opcode.lsr mode = run_lsr mode
execute_instruction Opcode.nop mode = pure tt
execute_instruction Opcode.ora mode = run_ora
execute_instruction Opcode.pha mode = run_pha
execute_instruction Opcode.php mode = run_php
execute_instruction Opcode.pla mode = run_pla
execute_instruction Opcode.plp mode = run_plp
execute_instruction Opcode.rol mode = run_rol mode
execute_instruction Opcode.ror mode = run_ror mode
execute_instruction Opcode.rti mode = run_rti
execute_instruction Opcode.rts mode = run_rts
execute_instruction Opcode.sbc mode = run_sbc
execute_instruction Opcode.sec mode = modify_cpu (set_flag CpuFlag.carry 1)
execute_instruction Opcode.sed mode = modify_cpu (set_flag CpuFlag.decimal 1)
execute_instruction Opcode.sei mode = modify_cpu (set_flag CpuFlag.interrupt 1)
execute_instruction Opcode.sta mode = run_sta
execute_instruction Opcode.stx mode = run_stx
execute_instruction Opcode.sty mode = run_sty
execute_instruction Opcode.tax mode = modify_cpu (λ c. put_x c.ac c)
execute_instruction Opcode.tay mode = modify_cpu (λ c. put_y c.ac c)
execute_instruction Opcode.tsx mode = modify_cpu (λ c. put_x c.sp c)
execute_instruction Opcode.txa mode = modify_cpu (λ c. put_ac c.x c)
execute_instruction Opcode.txs mode = modify_cpu (λ c. record c { sp = c.x })
execute_instruction Opcode.tya mode = modify_cpu (λ c. put_ac c.y c)
execute_instruction Opcode.alr mode = run_alr
execute_instruction Opcode.anc mode = run_anc
execute_instruction Opcode.an2 mode = exit_failure
execute_instruction Opcode.ane mode = exit_failure
execute_instruction Opcode.arr mode = run_arr
execute_instruction Opcode.dcp mode = run_dcp
execute_instruction Opcode.isb mode = run_isb
execute_instruction Opcode.las mode = exit_failure
execute_instruction Opcode.lax mode = run_lax
execute_instruction Opcode.lxa mode = exit_failure
execute_instruction Opcode.rla mode = run_rla
execute_instruction Opcode.rra mode = run_rra
execute_instruction Opcode.sax mode = run_sax
execute_instruction Opcode.sbx mode = run_sbx
execute_instruction Opcode.sha mode = exit_failure
execute_instruction Opcode.shx mode = run_shx
execute_instruction Opcode.shy mode = run_shy
execute_instruction Opcode.slo mode = run_slo
execute_instruction Opcode.sre mode = run_sre
execute_instruction Opcode.tas mode = exit_failure
execute_instruction Opcode.ubc mode = exit_failure
execute_instruction Opcode.jam mode = exit_failure
