-- ===== src/Cpu/Valid/Stack.antt =====
-- The stack and the instructions that use it keep the invariant.
use nes_emulator.Prelude.{ℕ, ◌<◌, ◌<<<◌, ◌>>>◌, arith}
use nes_emulator.Prelude.Bits.{bit_and-le_right, bit_or-lt}
use nes_emulator.State.Valid.{IsValid, get_cpu-IsValid, modify_cpu-IsValid, bind_cpu}
use nes_emulator.Outcome.{modify_cpu}
use nes_emulator.Outcome.Ensures.{
  Ensures, Any, IsByte, IsWord, Ensures-pure, bind-Any, bind_byte, bind_word,
}
use nes_emulator.Mem.Stack.{mem_push_stack_8, mem_pop_stack_8, mem_push_stack_16, pop_stack_16}
use nes_emulator.Mem.Valid.{mem_read_8-IsByte, mem_read_16-IsWord, mem_write_8-IsValid}
use nes_emulator.Cpu.StackOps.{
  pushed_status, run_brk, run_jsr, run_pha, run_php, run_pla, run_plp, run_rti, run_rts,
}
use nes_emulator.Cpu.Valid.Registers.{
  set_flag-IsValid, put_ac-IsValid, pulled_status-IsValid, with_pc-IsValid,
}

pub mem_push_stack_8-IsValid :
    (value : ℕ) → value < 256 → Ensures IsValid Any (mem_push_stack_8 value)
unfolding mem_push_stack_8
mem_push_stack_8-IsValid value h =
    bind_cpu _ _ get_cpu-IsValid
      λ c _. bind-Any _ _ (mem_write_8-IsValid _ _ h) λ _. modify_cpu-IsValid _ λ c v. ground arith

pub mem_pop_stack_8-IsByte : Ensures IsValid IsByte mem_pop_stack_8
unfolding mem_pop_stack_8
mem_pop_stack_8-IsByte =
    bind-Any _ _ (modify_cpu-IsValid _ λ c v. ground arith)
      λ _. bind_cpu _ _ get_cpu-IsValid λ c _. mem_read_8-IsByte _

pub mem_push_stack_16-IsValid : (value : ℕ) → Ensures IsValid Any (mem_push_stack_16 value)
unfolding mem_push_stack_16
mem_push_stack_16-IsValid value =
    bind-Any _ _ (mem_push_stack_8-IsValid _ (omega (arith, bit_and-le_right (value >>> 8) 0xFF)))
      λ _. mem_push_stack_8-IsValid _ (omega (arith, bit_and-le_right value 0xFF))

pub pop_stack_16-IsWord : Ensures IsValid IsWord pop_stack_16
unfolding pop_stack_16
pop_stack_16-IsWord = bind_byte _ _ mem_pop_stack_8-IsByte λ low l.
    bind_byte _ _ mem_pop_stack_8-IsByte
      λ high h. Ensures-pure _ (bit_or-lt 16 (high <<< 8) low (omega arith) (omega arith))

pushed_status-lt : (sr : ℕ) → sr < 256 → pushed_status sr < 256
pushed_status-lt sr h = bit_or-lt 8 _ _ (bit_or-lt 8 sr 16 h (omega arith)) (omega arith)

pub jump-IsValid : (a : ℕ) → a < 65536 → Ensures IsValid Any (modify_cpu (λ c. record c { pc = a }))
jump-IsValid a h = modify_cpu-IsValid _ λ c. with_pc-IsValid a c h

pub run_brk-IsValid : Ensures IsValid Any run_brk
unfolding run_brk
run_brk-IsValid = bind-Any _ _ (modify_cpu-IsValid _ λ c. with_pc-IsValid _ c (omega arith)) λ _.
    bind_cpu _ _ get_cpu-IsValid λ c _. bind-Any _ _ (mem_push_stack_16-IsValid c.pc) λ _.
      bind_cpu _ _ get_cpu-IsValid λ d v.
        bind-Any _ _ (mem_push_stack_8-IsValid _ (pushed_status-lt d.sr v.sr)) λ _.
          bind_word _ _ (mem_read_16-IsWord _)
            λ a h. modify_cpu-IsValid _ λ c v. set_flag-IsValid _ _ _ (with_pc-IsValid a c h v)

pub run_jsr-IsValid : Ensures IsValid Any run_jsr
unfolding run_jsr
run_jsr-IsValid = bind_cpu _ _ get_cpu-IsValid λ c _.
    bind-Any _ _ (mem_push_stack_16-IsValid _)
      λ _. modify_cpu-IsValid _ λ c v. with_pc-IsValid _ c v.address v

pub run_pha-IsValid : Ensures IsValid Any run_pha
unfolding run_pha
run_pha-IsValid = bind_cpu _ _ get_cpu-IsValid λ c v. mem_push_stack_8-IsValid c.ac v.ac

pub run_php-IsValid : Ensures IsValid Any run_php
unfolding run_php
run_php-IsValid =
    bind_cpu _ _ get_cpu-IsValid λ c v. mem_push_stack_8-IsValid _ (pushed_status-lt c.sr v.sr)

pub run_pla-IsValid : Ensures IsValid Any run_pla
unfolding run_pla
run_pla-IsValid =
    bind_byte _ _ mem_pop_stack_8-IsByte λ m h. modify_cpu-IsValid _ λ c. put_ac-IsValid m c h

pub run_plp-IsValid : Ensures IsValid Any run_plp
unfolding run_plp
run_plp-IsValid =
    bind_byte _ _ mem_pop_stack_8-IsByte
      λ m h. modify_cpu-IsValid _ λ c. pulled_status-IsValid m c h

pub run_rti-IsValid : Ensures IsValid Any run_rti
unfolding run_rti
run_rti-IsValid = bind_byte _ _ mem_pop_stack_8-IsByte λ m h.
    bind-Any _ _ (modify_cpu-IsValid _ λ c. pulled_status-IsValid m c h)
      λ _. bind_word _ _ pop_stack_16-IsWord λ a k. jump-IsValid a k

pub run_rts-IsValid : Ensures IsValid Any run_rts
unfolding run_rts
run_rts-IsValid = bind_word _ _ pop_stack_16-IsWord λ a _. jump-IsValid _ (omega arith)
