-- ===== src/Cpu/Valid/Writes.antt =====
-- The instructions of the CPU that write memory keep the invariant.
use nes_emulator.Prelude.{ℕ, ◌+◌, ◌<◌, u8, arith}
use nes_emulator.State.{Cpu}
use nes_emulator.State.Valid.{IsValid, CpuIsValid, get_cpu-IsValid, modify_cpu-IsValid, bind_cpu}
use nes_emulator.Outcome.Ensures.{Ensures, Any, IsByte, bind-Any, bind_byte}
use nes_emulator.Mem.Valid.{mem_write_8-IsValid}
use nes_emulator.Opcodes.{AddressMode, acc, abs}
use nes_emulator.Cpu.Shift.{shift_left, shift_right, rotate_left, rotate_right}
use nes_emulator.Cpu.WriteOps.{
  run_cpu, write_operand, shift_ac, shift_memory, run_asl, run_lsr, run_rol, run_ror, run_dec,
  run_inc, run_sta, run_stx, run_sty,
}
use nes_emulator.Cpu.Valid.Registers.{
  IsByteAndValid, shift_left-IsValid, shift_right-IsValid, rotate_left-IsValid,
  rotate_right-IsValid, set_zn_flags-IsValid, with_ac-IsValid,
}
use nes_emulator.Cpu.Valid.Reads.{operand-IsByte}

-- `f` takes a byte to a byte and keeps the ranges of the registers.
abbrev pub KeepsByte : (ℕ → Cpu → ℕ × Cpu) → Type 0
KeepsByte f = (m : ℕ) → m < 256 → (c : Cpu) → CpuIsValid c → IsByteAndValid (f m c)

pub run_cpu-IsByte :
    (f : Cpu → ℕ × Cpu)
    → ((c : Cpu) → CpuIsValid c → IsByteAndValid (f c))
    → Ensures IsValid IsByte (run_cpu f)
run_cpu-IsByte f keep = record {
  at = λ e v. (
    (keep e.cpu v.cpu).byte,
    record {
      cpu = (keep e.cpu v.cpu).valid;
      ppu = v.ppu;
      mem = v.mem;
      mapper = v.mapper;
      rom = v.rom;
    },
  );
}

pub write_operand-IsValid : (value : ℕ) → value < 256 → Ensures IsValid Any (write_operand value)
unfolding write_operand
write_operand-IsValid value h = bind_cpu _ _ get_cpu-IsValid λ c _. mem_write_8-IsValid _ _ h

module _ (f : ℕ → Cpu → ℕ × Cpu) (keep : KeepsByte f) where
  pub shift_ac-IsValid : Ensures IsValid Any (shift_ac f)
  unfolding shift_ac
  shift_ac-IsValid = bind_cpu _ _ get_cpu-IsValid λ c v.
      bind_byte _ _ (run_cpu-IsByte (f c.ac) (keep c.ac v.ac))
        λ m h. modify_cpu-IsValid _ λ c. with_ac-IsValid m c h

  shift_memory-IsValid : Ensures IsValid Any (shift_memory f)
  unfolding shift_memory
  shift_memory-IsValid =
      bind_byte _ _ operand-IsByte
        λ m h. bind_byte _ _ (run_cpu-IsByte (f m) (keep m h)) λ r k. write_operand-IsValid r k

pub run_asl-IsValid : (mode : AddressMode) → Ensures IsValid Any (run_asl mode)
unfolding run_asl
run_asl-IsValid acc = shift_ac-IsValid shift_left shift_left-IsValid
run_asl-IsValid _ = in_memory
  where
    in_memory : Ensures IsValid Any (run_asl abs)
    in_memory = bind_byte _ _ operand-IsByte λ m h. bind-Any _ _ (write_operand-IsValid m h) λ _.
        bind_byte _ _ (run_cpu-IsByte (shift_left m) (shift_left-IsValid m h))
          λ r k. write_operand-IsValid r k

pub run_lsr-IsValid : (mode : AddressMode) → Ensures IsValid Any (run_lsr mode)
unfolding run_lsr
run_lsr-IsValid acc = shift_ac-IsValid shift_right shift_right-IsValid
run_lsr-IsValid _ = shift_memory-IsValid shift_right shift_right-IsValid

pub run_rol-IsValid : (mode : AddressMode) → Ensures IsValid Any (run_rol mode)
unfolding run_rol
run_rol-IsValid acc = shift_ac-IsValid rotate_left rotate_left-IsValid
run_rol-IsValid _ = shift_memory-IsValid rotate_left rotate_left-IsValid

pub run_ror-IsValid : (mode : AddressMode) → Ensures IsValid Any (run_ror mode)
unfolding run_ror
run_ror-IsValid acc = shift_ac-IsValid rotate_right rotate_right-IsValid
run_ror-IsValid _ = shift_memory-IsValid rotate_right rotate_right-IsValid

pub run_dec-IsValid : Ensures IsValid Any run_dec
unfolding run_dec
run_dec-IsValid = bind_byte _ _ operand-IsByte λ m h.
    bind-Any _ _ (write_operand-IsValid (u8 (m + 255)) (omega arith))
      λ _. modify_cpu-IsValid _ (set_zn_flags-IsValid _)

pub run_inc-IsValid : Ensures IsValid Any run_inc
unfolding run_inc
run_inc-IsValid = bind_byte _ _ operand-IsByte λ m h.
    bind-Any _ _ (write_operand-IsValid (u8 (m + 1)) (omega arith))
      λ _. modify_cpu-IsValid _ (set_zn_flags-IsValid _)

pub run_sta-IsValid : Ensures IsValid Any run_sta
unfolding run_sta
run_sta-IsValid = bind_cpu _ _ get_cpu-IsValid λ c v. write_operand-IsValid c.ac v.ac

pub run_stx-IsValid : Ensures IsValid Any run_stx
unfolding run_stx
run_stx-IsValid = bind_cpu _ _ get_cpu-IsValid λ c v. write_operand-IsValid c.x v.x

pub run_sty-IsValid : Ensures IsValid Any run_sty
unfolding run_sty
run_sty-IsValid = bind_cpu _ _ get_cpu-IsValid λ c v. write_operand-IsValid c.y v.y
