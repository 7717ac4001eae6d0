-- ===== src/Cpu/Valid/Illegal.antt =====
-- The illegal instructions of the CPU keep the invariant.
use nes_emulator.Prelude.{ℕ, ◌+◌, ◌<◌, ◌<<<◌, ◌>>>◌, bit_and, bit_or, u8, arith}
use nes_emulator.Prelude.Bits.{bit_and-le_right, bit_or-lt, bit_xor-lt}
use nes_emulator.State.{Cpu}
use nes_emulator.State.Valid.{IsValid, get_cpu-IsValid, modify_cpu-IsValid, bind_cpu}
use nes_emulator.Outcome.{modify_cpu}
use nes_emulator.Outcome.Ensures.{Ensures, Any, bind-Any, bind_byte}
use nes_emulator.Mem.Valid.{mem_write_8-IsValid}
use nes_emulator.Cpu.Flags.{carry, get_flag, set_flag}
use nes_emulator.Cpu.Shift.{shift_right, rotate_right}
use nes_emulator.Cpu.ReadOps.{put_ac}
use nes_emulator.Cpu.IllegalOps.{
  run_alr, run_anc, run_arr, run_dcp, run_isb, run_lax, run_rla, run_rra, run_sax, run_sbx,
  subtract_from_and, store_high_anded, run_shx, run_shy, run_slo, run_sre,
}
use nes_emulator.Cpu.Valid.Registers.{
  set_flag-IsValid, with_ac-IsValid, put_ac-IsValid, shift_right-IsValid, rotate_right-IsValid,
  add_with_carry-IsValid, subtract_with_carry-IsValid, rotated_flags-IsValid,
  compare_decremented-IsValid, subtract_from_and-IsValid,
}
use nes_emulator.Cpu.Valid.Reads.{operand-IsByte, by_operand}
use nes_emulator.Cpu.Valid.Writes.{run_cpu-IsByte, write_operand-IsValid, shift_ac-IsValid}

and_ac-lt : (c : Cpu) (m : ℕ) → m < 256 → bit_and c.ac m < 256
and_ac-lt c m h = omega (arith, bit_and-le_right c.ac m)

set_carry-IsValid : (n : ℕ) → Ensures IsValid Any (modify_cpu (set_flag carry n))
set_carry-IsValid n = modify_cpu-IsValid _ (set_flag-IsValid carry n)

and_ac-IsValid :
    (m : ℕ) → m < 256 → Ensures IsValid Any (modify_cpu (λ c. put_ac (bit_and c.ac m) c))
and_ac-IsValid m h = modify_cpu-IsValid _ λ c v. put_ac-IsValid _ c (and_ac-lt c m h) v

pub run_alr-IsValid : Ensures IsValid Any run_alr
unfolding run_alr
run_alr-IsValid = bind_byte _ _ operand-IsByte λ m h.
    bind-Any _ _ (modify_cpu-IsValid _ λ c v. with_ac-IsValid _ c (and_ac-lt c m h) v)
      λ _. shift_ac-IsValid shift_right shift_right-IsValid

pub run_anc-IsValid : Ensures IsValid Any run_anc
unfolding run_anc
run_anc-IsValid = bind_byte _ _ operand-IsByte λ m h.
    bind-Any _ _ (and_ac-IsValid m h)
      λ _. modify_cpu-IsValid _ λ c. set_flag-IsValid carry (bit_and c.ac 0x80) c

pub run_arr-IsValid : Ensures IsValid Any run_arr
unfolding run_arr
run_arr-IsValid = bind_cpu _ _ get_cpu-IsValid λ c v. bind_byte _ _ operand-IsByte λ m h.
    bind_byte _ _
      (run_cpu-IsByte (rotate_right (bit_and c.ac m))
        (rotate_right-IsValid (bit_and c.ac m) (and_ac-lt c m h)))
      λ r k. modify_cpu-IsValid _ λ c. rotated_flags-IsValid r c k

pub run_dcp-IsValid : Ensures IsValid Any run_dcp
unfolding run_dcp
run_dcp-IsValid = bind_byte _ _ operand-IsByte λ m h.
    bind-Any _ _ (write_operand-IsValid _ (omega (arith, bit_and-le_right (u8 (m + 255)) 0xFF)))
      λ _. modify_cpu-IsValid _ (compare_decremented-IsValid _)

pub run_isb-IsValid : Ensures IsValid Any run_isb
unfolding run_isb
run_isb-IsValid = bind_cpu _ _ get_cpu-IsValid λ r _. bind_byte _ _ operand-IsByte λ m h.
    bind-Any _ _ (write_operand-IsValid (u8 (m + 1)) (omega arith))
      λ _. modify_cpu-IsValid _ (subtract_with_carry-IsValid r.ac (u8 (m + 1)))

pub run_lax-IsValid : Ensures IsValid Any run_lax
unfolding run_lax
run_lax-IsValid =
    by_operand (λ m c. put_ac m (record c { x = m })) λ m h c v. put_ac-IsValid m _ h (ground arith)

rotated_left-lt : (m : ℕ) (c : Cpu) → u8 (bit_or (m <<< 1) (get_flag carry c)) < 256
rotated_left-lt m c = omega arith

pub run_rla-IsValid : Ensures IsValid Any run_rla
unfolding run_rla
run_rla-IsValid = bind_byte _ _ operand-IsByte λ m h. bind_cpu _ _ get_cpu-IsValid λ c v.
    bind-Any _ _ (set_carry-IsValid _) λ _.
      bind-Any _ _ (write_operand-IsValid _ (rotated_left-lt m c))
        λ _. and_ac-IsValid _ (rotated_left-lt m c)

pub run_rra-IsValid : Ensures IsValid Any run_rra
unfolding run_rra
run_rra-IsValid = bind_byte _ _ operand-IsByte λ m h. bind_cpu _ _ get_cpu-IsValid λ c v.
    bind-Any _ _ (write_operand-IsValid _ (omega arith)) λ _.
      bind-Any _ _ (set_carry-IsValid _)
        λ _. modify_cpu-IsValid _ λ c. add_with_carry-IsValid c.ac _ c

pub run_sax-IsValid : Ensures IsValid Any run_sax
unfolding run_sax
run_sax-IsValid = bind_cpu _ _ get_cpu-IsValid λ c v. write_operand-IsValid _ (and_ac-lt c c.x v.x)

pub run_sbx-IsValid : Ensures IsValid Any run_sbx
unfolding run_sbx
run_sbx-IsValid = by_operand subtract_from_and λ m h. subtract_from_and-IsValid m

store_high_anded-IsValid : (r a : ℕ) → Ensures IsValid Any (store_high_anded r a)
unfolding store_high_anded
store_high_anded-IsValid r a = mem_write_8-IsValid _ _ (omega arith)

pub run_shx-IsValid : Ensures IsValid Any run_shx
unfolding run_shx
run_shx-IsValid = bind_cpu _ _ get_cpu-IsValid λ c v. store_high_anded-IsValid c.x c.address

pub run_shy-IsValid : Ensures IsValid Any run_shy
unfolding run_shy
run_shy-IsValid = bind_cpu _ _ get_cpu-IsValid λ c v. store_high_anded-IsValid c.y c.address

pub run_slo-IsValid : Ensures IsValid Any run_slo
unfolding run_slo
run_slo-IsValid = bind_byte _ _ operand-IsByte λ m h. bind-Any _ _ (set_carry-IsValid _) λ _.
    bind-Any _ _ (write_operand-IsValid _ (omega arith))
      λ _. modify_cpu-IsValid _ λ c v. put_ac-IsValid _ c (bit_or-lt 8 c.ac _ v.ac (omega arith)) v

pub run_sre-IsValid : Ensures IsValid Any run_sre
unfolding run_sre
run_sre-IsValid = bind_byte _ _ operand-IsByte λ m h. bind-Any _ _ (set_carry-IsValid _) λ _.
    bind-Any _ _ (write_operand-IsValid _ (omega arith)) λ _.
      modify_cpu-IsValid _
        λ c v. put_ac-IsValid _ c (bit_xor-lt 8 c.ac (m >>> 1) v.ac (omega arith)) v
