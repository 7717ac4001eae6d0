-- ===== src/Cpu/Valid/Cycle.antt =====
-- An interrupt and a cycle of the CPU keep the invariant.
use nes_emulator.Prelude.{ℕ, ◌-◌, arith, sub_size, Bool, true, false}
use nes_emulator.State.{Interrupt, none, nmi, irq, rsi}
use nes_emulator.State.Valid.{IsValid, get_cpu-IsValid, modify_cpu-IsValid, bind_cpu, valid_rules}
use nes_emulator.Outcome.{pure, modify_cpu}
use nes_emulator.Outcome.Ensures.{
  Ensures, Any, any, IsByte, Ensures-pure, Ensures-exit, bind-Any, bind_byte, bind_word,
}
use nes_emulator.Mem.Valid.{mem_read_8-IsByte, mem_read_16-IsWord}
use nes_emulator.Cpu.Interrupt.{
  enter_interrupt, drop_interrupt, dispatch_interrupt, handle_nes_interrupt,
}
use nes_emulator.Cpu.Cycle.{cpu_init, fetch, run_instruction, cpu_run_cycle}
use nes_emulator.Cpu.Valid.Registers.{set_flag-IsValid, with_pc-IsValid}
use nes_emulator.Cpu.Valid.Reads.{set_address-IsValid}
use nes_emulator.Cpu.Valid.Stack.{mem_push_stack_8-IsValid, mem_push_stack_16-IsValid}
use nes_emulator.Cpu.Valid.Execute.{execute_instruction-IsValid}

enter_interrupt-IsValid : (a : ℕ) → Ensures IsValid Any (enter_interrupt a)
unfolding enter_interrupt
enter_interrupt-IsValid a = bind_cpu _ _ get_cpu-IsValid λ c _.
    bind-Any _ _ (mem_push_stack_16-IsValid _) λ _. bind_cpu _ _ get_cpu-IsValid λ c v.
      bind-Any _ _ (mem_push_stack_8-IsValid c.sr v.sr) λ _.
        bind-Any _ _ (modify_cpu-IsValid _ (set_flag-IsValid _ _))
          λ _. bind_word _ _ (mem_read_16-IsWord a) λ pc h. modify_cpu-IsValid _ λ c v. ground arith

drop_interrupt-IsValid : Ensures IsValid Any drop_interrupt
unfolding drop_interrupt
drop_interrupt-IsValid = modify_cpu-IsValid _ λ c v. ground arith

dispatch_interrupt-IsValid :
    (i : Interrupt) (masked : Bool) → Ensures IsValid Any (dispatch_interrupt i masked)
unfolding dispatch_interrupt
dispatch_interrupt-IsValid none masked = Ensures-pure tt any
dispatch_interrupt-IsValid nmi masked = enter_interrupt-IsValid _
dispatch_interrupt-IsValid irq true = drop_interrupt-IsValid
dispatch_interrupt-IsValid irq false = enter_interrupt-IsValid _
dispatch_interrupt-IsValid rsi true = drop_interrupt-IsValid
dispatch_interrupt-IsValid rsi false = Ensures-exit

pub handle_nes_interrupt-IsValid : Ensures IsValid Any handle_nes_interrupt
unfolding handle_nes_interrupt
handle_nes_interrupt-IsValid = bind_cpu _ _ get_cpu-IsValid λ c _. dispatch_interrupt-IsValid _ _

-- `cpu_init` keeps the ranges of the state that it is given.
pub cpu_init-IsValid : Ensures IsValid Any cpu_init
unfolding cpu_init
cpu_init-IsValid =
    bind-Any _ _ (modify_cpu-IsValid _ λ c v. ground arith)
      λ _. bind_word _ _ (mem_read_16-IsWord _) λ pc h. modify_cpu-IsValid _ λ c v. ground arith

fetch-IsByte : Ensures IsValid IsByte fetch
unfolding fetch
fetch-IsByte = bind_cpu _ _ get_cpu-IsValid λ c _.
    bind-Any _ _ (modify_cpu-IsValid _ λ c. with_pc-IsValid _ c (omega arith))
      λ _. mem_read_8-IsByte _

pub run_instruction-IsValid : Ensures IsValid Any run_instruction
unfolding run_instruction
run_instruction-IsValid = bind-Any _ _ handle_nes_interrupt-IsValid λ _.
    bind_byte _ _ fetch-IsByte λ byte _.
      bind-Any _ _ (modify_cpu-IsValid _ λ c v. ground arith) λ _.
        bind-Any _ _ (modify_cpu-IsValid _ (set_flag-IsValid _ _)) λ _.
          bind-Any _ _ (set_address-IsValid _ _) λ _.
            bind-Any _ _ (execute_instruction-IsValid _ _)
              λ _. modify_cpu-IsValid _ λ c v. ground arith

wait_dma-IsValid :
    Ensures IsValid Any (modify_cpu (λ c. record c { dma_cycles = c.dma_cycles - 1 }))
wait_dma-IsValid = modify_cpu-IsValid _ λ c v. ground arith

count_cycle-IsValid :
    Ensures IsValid Any (modify_cpu (λ c. record c { cycles = sub_size c.cycles 1 }))
count_cycle-IsValid = modify_cpu-IsValid _ λ c v. ground arith

idle-IsValid : Ensures IsValid Any (pure tt)
idle-IsValid = Ensures-pure tt any

pub cpu_run_cycle-IsValid : Ensures IsValid Any cpu_run_cycle
unfolding cpu_run_cycle
cpu_run_cycle-IsValid =
    search
      (valid_rules, wait_dma-IsValid, count_cycle-IsValid, run_instruction-IsValid, idle-IsValid)
      depth 8
