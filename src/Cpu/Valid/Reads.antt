-- ===== src/Cpu/Valid/Reads.antt =====
-- The instructions of the CPU that read memory, and the addressing modes, keep the invariant.
use nes_emulator.Prelude.{ℕ, ◌+◌, ◌<◌, bit_and, bit_or, bit_xor, u16, arith}
use nes_emulator.Prelude.Bits.{bit_and-le_right, bit_or-lt, bit_xor-lt}
use nes_emulator.State.{Cpu}
use nes_emulator.State.Valid.{IsValid, CpuIsValid, get_cpu-IsValid, modify_cpu-IsValid, bind_cpu}
use nes_emulator.Outcome.{◌>>=◌, get_cpu, modify_cpu}
use nes_emulator.Outcome.Ensures.{
  Ensures, Any, any, IsByte, Ensures-pure, bind-Any, bind_byte, bind_word,
}
use nes_emulator.Mem.Valid.{mem_read_8-IsByte, mem_read_16-IsWord}
use nes_emulator.Opcodes.{
  Opcode, AddressMode, acc, abs, abx, aby, imm, imp, ind, xin, yin, rel, zp0, zpx, zpy, unk,
}
use nes_emulator.Cpu.Address.{set_address, put_address, put_indexed, read_zero_page_16, sign_extend}
use nes_emulator.Cpu.Arith.{add_with_carry, subtract_with_carry, compare_with}
use nes_emulator.Cpu.ReadOps.{
  operand, run_adc, run_sbc, put_ac, put_x, put_y, run_and, run_eor, run_ora, test_bits, run_bit,
  run_cmp, run_cpx, run_cpy, run_lda, run_ldx, run_ldy,
}
use nes_emulator.Cpu.Valid.Registers.{
  put_ac-IsValid, put_x-IsValid, put_y-IsValid, add_with_carry-IsValid, subtract_with_carry-IsValid,
  compare_with-IsValid, test_bits-IsValid, put_address-IsValid, put_indexed-IsValid,
}

pub operand-IsByte : Ensures IsValid IsByte operand
unfolding operand
operand-IsByte = bind_cpu _ _ get_cpu-IsValid λ c _. mem_read_8-IsByte c.address

-- An operand that changes the registers.
pub by_operand :
    (f : ℕ → Cpu → Cpu)
    → ((m : ℕ) → m < 256 → (c : Cpu) → CpuIsValid c → CpuIsValid (f m c))
    → Ensures IsValid Any (do m ← operand; modify_cpu (f m))
by_operand f keep = bind_byte _ _ operand-IsByte λ m h. modify_cpu-IsValid _ (keep m h)

-- The same after a look at the registers.
pub by_cpu_operand :
    (f : Cpu → ℕ → Cpu → Cpu)
    → ((r : Cpu) (m : ℕ) → m < 256 → (c : Cpu) → CpuIsValid c → CpuIsValid (f r m c))
    → Ensures IsValid Any (do c ← get_cpu; m ← operand; modify_cpu (f c m))
by_cpu_operand f keep = bind_cpu _ _ get_cpu-IsValid λ r _. by_operand (f r) (keep r)

pub run_adc-IsValid : Ensures IsValid Any run_adc
unfolding run_adc
run_adc-IsValid = by_cpu_operand (λ r. add_with_carry r.ac) λ r m h. add_with_carry-IsValid r.ac m

pub run_sbc-IsValid : Ensures IsValid Any run_sbc
unfolding run_sbc
run_sbc-IsValid =
    by_cpu_operand (λ r. subtract_with_carry r.ac) λ r m h. subtract_with_carry-IsValid r.ac m

pub run_cmp-IsValid : Ensures IsValid Any run_cmp
unfolding run_cmp
run_cmp-IsValid = by_cpu_operand (λ r. compare_with r.ac) λ r m h. compare_with-IsValid r.ac m

pub run_cpx-IsValid : Ensures IsValid Any run_cpx
unfolding run_cpx
run_cpx-IsValid = by_cpu_operand (λ r. compare_with r.x) λ r m h. compare_with-IsValid r.x m

pub run_cpy-IsValid : Ensures IsValid Any run_cpy
unfolding run_cpy
run_cpy-IsValid = by_cpu_operand (λ r. compare_with r.y) λ r m h. compare_with-IsValid r.y m

pub run_and-IsValid : Ensures IsValid Any run_and
unfolding run_and
run_and-IsValid =
    by_operand (λ m c. put_ac (bit_and c.ac m) c)
      λ m h c v. put_ac-IsValid _ c (omega (arith, bit_and-le_right c.ac m)) v

pub run_eor-IsValid : Ensures IsValid Any run_eor
unfolding run_eor
run_eor-IsValid =
    by_operand (λ m c. put_ac (bit_xor c.ac m) c)
      λ m h c v. put_ac-IsValid _ c (bit_xor-lt 8 _ _ v.ac h) v

pub run_ora-IsValid : Ensures IsValid Any run_ora
unfolding run_ora
run_ora-IsValid =
    by_operand (λ m c. put_ac (bit_or c.ac m) c)
      λ m h c v. put_ac-IsValid _ c (bit_or-lt 8 _ _ v.ac h) v

pub run_bit-IsValid : Ensures IsValid Any run_bit
unfolding run_bit
run_bit-IsValid = by_operand test_bits λ m h. test_bits-IsValid m

pub run_lda-IsValid : Ensures IsValid Any run_lda
unfolding run_lda
run_lda-IsValid = by_operand put_ac λ m h c. put_ac-IsValid m c h

pub run_ldx-IsValid : Ensures IsValid Any run_ldx
unfolding run_ldx
run_ldx-IsValid = by_operand put_x λ m h c. put_x-IsValid m c h

pub run_ldy-IsValid : Ensures IsValid Any run_ldy
unfolding run_ldy
run_ldy-IsValid = by_operand put_y λ m h c. put_y-IsValid m c h

put_address-keeps : (address n : ℕ) → Ensures IsValid Any (modify_cpu (put_address address n))
put_address-keeps address n = modify_cpu-IsValid _ (put_address-IsValid address n)

put_indexed-keeps :
    (base index n : ℕ) (o : Opcode) → Ensures IsValid Any (modify_cpu (put_indexed base index n o))
put_indexed-keeps base index n o = modify_cpu-IsValid _ (put_indexed-IsValid base index n o)

read_zero_page_16-IsValid : (a : ℕ) → Ensures IsValid Any (read_zero_page_16 a)
unfolding read_zero_page_16
read_zero_page_16-IsValid a =
    bind_byte _ _ (mem_read_8-IsByte _)
      λ low _. bind_byte _ _ (mem_read_8-IsByte _) λ high _. Ensures-pure _ any

-- The address of the operand, by addressing mode.
pub set_address-IsValid :
    (o : Opcode) (mode : AddressMode) → Ensures IsValid Any (set_address o mode)
unfolding set_address
set_address-IsValid o acc = Ensures-pure tt any
set_address-IsValid o abs =
    bind_cpu _ _ get_cpu-IsValid
      λ c _. bind_word _ _ (mem_read_16-IsWord _) λ a _. put_address-keeps _ _
set_address-IsValid o abx =
    bind_cpu _ _ get_cpu-IsValid
      λ c _. bind_word _ _ (mem_read_16-IsWord _) λ a _. put_indexed-keeps _ _ _ _
set_address-IsValid o aby =
    bind_cpu _ _ get_cpu-IsValid
      λ c _. bind_word _ _ (mem_read_16-IsWord _) λ a _. put_indexed-keeps _ _ _ _
set_address-IsValid o imm = modify_cpu-IsValid _ λ c. put_address-IsValid c.pc 1 c
set_address-IsValid o imp = Ensures-pure tt any
set_address-IsValid o ind = bind_cpu _ _ get_cpu-IsValid λ c _.
    bind_word _ _ (mem_read_16-IsWord _) λ t _.
      bind_byte _ _ (mem_read_8-IsByte _)
        λ low _. bind_byte _ _ (mem_read_8-IsByte _) λ high _. put_address-keeps _ _
set_address-IsValid o xin = bind_cpu _ _ get_cpu-IsValid λ c _.
    bind_byte _ _ (mem_read_8-IsByte _)
      λ m _. bind-Any _ _ (read_zero_page_16-IsValid _) λ a. put_address-keeps _ _
set_address-IsValid o yin = bind_cpu _ _ get_cpu-IsValid λ c _.
    bind_byte _ _ (mem_read_8-IsByte _)
      λ m _. bind-Any _ _ (read_zero_page_16-IsValid _) λ a. put_indexed-keeps _ _ _ _
set_address-IsValid o rel = bind_cpu _ _ get_cpu-IsValid λ _ _.
    bind_byte _ _ (mem_read_8-IsByte _)
      λ m _. modify_cpu-IsValid _ λ c. put_address-IsValid (u16 (c.pc + 1) + sign_extend m) 1 c
set_address-IsValid o zp0 =
    bind_cpu _ _ get_cpu-IsValid
      λ c _. bind_byte _ _ (mem_read_8-IsByte _) λ m _. put_address-keeps _ _
set_address-IsValid o zpx =
    bind_cpu _ _ get_cpu-IsValid
      λ c _. bind_byte _ _ (mem_read_8-IsByte _) λ m _. put_address-keeps _ _
set_address-IsValid o zpy =
    bind_cpu _ _ get_cpu-IsValid
      λ c _. bind_byte _ _ (mem_read_8-IsByte _) λ m _. put_address-keeps _ _
set_address-IsValid o unk = Ensures-pure tt any
