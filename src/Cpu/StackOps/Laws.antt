-- ===== src/Cpu/StackOps/Laws.antt =====
-- Pairs of instructions that use the stack undo one another.
use nes_emulator.Prelude.{
  ℕ, ◌+◌, ◌<◌, ◌≡◌, refl, true, bit_and, bit_or, bit_not, arith, u8, u16, ◌==◌, all_below,
  all_below_sound, eqb→eq, update_self,
}
use nes_emulator.State.{Emulator, Cpu}
use nes_emulator.Outcome.{done, ◌>>=◌, ◌>>◌}
use nes_emulator.Mem.{put_ram}
use nes_emulator.Mem.Ram.{with_ram}
use nes_emulator.Mem.Stack.Laws.{
  with_word, push_16_lem, pop_16-with_word, pushed, push_lem, pop_lem, round_trip,
}
use nes_emulator.Cpu.StackOps.{
  break_unused, pushed_status, pulled_status, run_jsr, run_rts, run_php, run_plp,
}

abbrev jumped : Emulator → Cpu
jumped e = record e.cpu { sp = u8 (e.cpu.sp + 254); pc = e.cpu.address }

abbrev return_address : Emulator → ℕ
return_address e = u16 (e.cpu.pc + 65535)

run_jsr_lem :
    (e : Emulator)
    → e.cpu.sp < 256
    → run_jsr e ≡ done (tt, record (with_word (return_address e) e) { cpu = jumped e })
unfolding run_jsr ◌>>=◌
run_jsr_lem e h = rw (push_16_lem (return_address e) e h, ◌>>=◌)

next : (n : ℕ) → n < 65536 → u16 (u16 (n + 65535) + 1) ≡ n
next n h = omega arith

-- With registers in range, RTS after JSR goes back to the instruction after the JSR, with all
-- registers as before it; memory has the return address below the stack pointer.
pub rts-jsr :
    (e : Emulator)
    → e.cpu.sp < 256
    → e.cpu.pc < 65536
    → (run_jsr >> run_rts) e ≡ done (tt, with_word (u16 (e.cpu.pc + 65535)) e)
unfolding run_rts ◌>>=◌
rts-jsr e h hp = rw (
  run_jsr_lem e h,
  ◌>>=◌,
  pop_16-with_word (return_address e) e (jumped e) h (omega arith) refl,
  ◌>>=◌,
  next e.cpu.pc hp,
)

status_table :
    all_below 256
      (λ s. bit_or (bit_and s break_unused) (bit_and (pushed_status s) (bit_not break_unused)) == s)
    ≡ true
unfolding all_below
status_table = refl

status_round :
    (s : ℕ)
    → s < 256
    → bit_or (bit_and s break_unused) (bit_and (pushed_status s) (bit_not break_unused)) ≡ s
status_round s h = eqb→eq _ _ (all_below_sound 256 _ s status_table h)

-- With registers in range, PLP after PHP leaves all registers as they were, the status too,
-- though PHP pushes it with the BREAK and UNUSED bits set.
pub plp-php :
    (e : Emulator)
    → e.cpu.sp < 256
    → e.cpu.sr < 256
    → (run_php >> run_plp) e ≡ done (tt, with_ram (0x0100 + e.cpu.sp) (pushed_status e.cpu.sr) e)
unfolding run_php run_plp pulled_status put_ram ◌>>=◌
plp-php e h hs = rw (
  push_lem (pushed_status e.cpu.sr) e h,
  ◌>>=◌,
  pop_lem (pushed (pushed_status e.cpu.sr) e),
  ◌>>=◌,
  round_trip e.cpu.sp h,
  update_self e.mem.ram (0x0100 + e.cpu.sp) (pushed_status e.cpu.sr),
  status_round e.cpu.sr hs,
)
