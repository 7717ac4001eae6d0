-- ===== src/Cpu/Valid/Registers.antt =====
-- The functions of the CPU on its registers keep their ranges.
use nes_emulator.Prelude.{ℕ, ◌+◌, ◌<◌, bit_and, bit_not, arith}
use nes_emulator.Prelude.Bits.{bit_and-le_left, bit_and-le_right, bit_or-lt, bit_and_mask}
use nes_emulator.State.{Cpu}
use nes_emulator.State.Valid.{CpuIsValid}
use nes_emulator.Opcodes.{Opcode}
use nes_emulator.Cpu.Flags.{CpuFlag, flag_bit, set_flag, set_zn_flags, carry}
use nes_emulator.Cpu.Shift.{shift_left, shift_right, rotate_left, rotate_right}
use nes_emulator.Cpu.Arith.{put_sum, add_with_carry, subtract_with_carry, compare_with}
use nes_emulator.Cpu.Address.{put_address, put_indexed}
use nes_emulator.Cpu.Branch.{branch_if}
use nes_emulator.Cpu.ReadOps.{put_ac, put_x, put_y, test_bits}
use nes_emulator.Cpu.StackOps.{pulled_status, break_unused}
use nes_emulator.Cpu.IllegalOps.{rotated_flags, compare_decremented, subtract_from_and}

flag_bit-lt : (f : CpuFlag) → flag_bit f < 256
flag_bit-lt carry = omega arith
flag_bit-lt _ = omega arith

pub set_flag-IsValid :
    (f : CpuFlag) (value : ℕ) (c : Cpu) → CpuIsValid c → CpuIsValid (set_flag f value c)
unfolding set_flag
set_flag-IsValid f value c v = ground (
  arith,
  bit_or-lt 8 c.sr (flag_bit f),
  flag_bit-lt f,
  bit_and-le_left c.sr (bit_not (flag_bit f)),
)

pub set_zn_flags-IsValid : (value : ℕ) (c : Cpu) → CpuIsValid c → CpuIsValid (set_zn_flags value c)
unfolding set_zn_flags
set_zn_flags-IsValid value c v = set_flag-IsValid _ _ _ (set_flag-IsValid _ _ c v)

pub with_ac-IsValid :
    (value : ℕ) (c : Cpu) → value < 256 → CpuIsValid c → CpuIsValid (record c { ac = value })
with_ac-IsValid value c h v = ground arith

pub with_pc-IsValid :
    (value : ℕ) (c : Cpu) → value < 65536 → CpuIsValid c → CpuIsValid (record c { pc = value })
with_pc-IsValid value c h v = ground arith

pub put_ac-IsValid :
    (value : ℕ) (c : Cpu) → value < 256 → CpuIsValid c → CpuIsValid (put_ac value c)
unfolding put_ac
put_ac-IsValid value c h v = set_zn_flags-IsValid value _ (with_ac-IsValid value c h v)

pub put_x-IsValid : (value : ℕ) (c : Cpu) → value < 256 → CpuIsValid c → CpuIsValid (put_x value c)
unfolding put_x
put_x-IsValid value c h v = set_zn_flags-IsValid value _ (ground arith)

pub put_y-IsValid : (value : ℕ) (c : Cpu) → value < 256 → CpuIsValid c → CpuIsValid (put_y value c)
unfolding put_y
put_y-IsValid value c h v = set_zn_flags-IsValid value _ (ground arith)

pub put_sum-IsValid : (r v : ℕ) (c : Cpu) → CpuIsValid c → CpuIsValid (put_sum r v c)
unfolding put_sum
put_sum-IsValid r v c k = set_zn_flags-IsValid _ _ (
    set_flag-IsValid _ _ _
      (set_flag-IsValid _ _ _ (with_ac-IsValid _ c (omega (arith, bit_and_mask 8 r)) k)))

pub add_with_carry-IsValid : (a m : ℕ) (c : Cpu) → CpuIsValid c → CpuIsValid (add_with_carry a m c)
unfolding add_with_carry
add_with_carry-IsValid a m c v = put_sum-IsValid _ _ c v

pub subtract_with_carry-IsValid :
    (a m : ℕ) (c : Cpu) → CpuIsValid c → CpuIsValid (subtract_with_carry a m c)
unfolding subtract_with_carry
subtract_with_carry-IsValid a m c v = put_sum-IsValid _ _ c v

pub compare_with-IsValid : (r m : ℕ) (c : Cpu) → CpuIsValid c → CpuIsValid (compare_with r m c)
unfolding compare_with
compare_with-IsValid r m c v = set_flag-IsValid _ _ _ (set_zn_flags-IsValid _ c v)

pub test_bits-IsValid : (op : ℕ) (c : Cpu) → CpuIsValid c → CpuIsValid (test_bits op c)
unfolding test_bits
test_bits-IsValid op c v =
    set_flag-IsValid _ _ _ (set_flag-IsValid _ _ _ (set_flag-IsValid _ _ c v))

pub put_address-IsValid :
    (address n : ℕ) (c : Cpu) → CpuIsValid c → CpuIsValid (put_address address n c)
unfolding put_address
put_address-IsValid address n c v = ground arith

pub put_indexed-IsValid :
    (base index n : ℕ) (o : Opcode) (c : Cpu)
    → CpuIsValid c
    → CpuIsValid (put_indexed base index n o c)
unfolding put_indexed
put_indexed-IsValid base index n o c v = ground (arith, put_address-IsValid (base + index) n c v)

pub branch_if-IsValid : (b : ℕ) (c : Cpu) → CpuIsValid c → CpuIsValid (branch_if b c)
unfolding branch_if
branch_if-IsValid b c v = ground arith

-- A function that returns a byte beside registers in range.
pub record IsByteAndValid (r : ℕ × Cpu) : Type 0 where
  pub byte : r.0 < 256
  pub valid : CpuIsValid r.1

module _ (val : ℕ) (h : val < 256) (c : Cpu) (v : CpuIsValid c) where
  pub shift_left-IsValid : IsByteAndValid (shift_left val c)
  unfolding shift_left
  shift_left-IsValid = record {
    byte = omega arith;
    valid = set_zn_flags-IsValid _ _ (set_flag-IsValid _ _ c v);
  }

  pub shift_right-IsValid : IsByteAndValid (shift_right val c)
  unfolding shift_right
  shift_right-IsValid = record {
    byte = omega arith;
    valid = set_zn_flags-IsValid _ _ (set_flag-IsValid _ _ c v);
  }

  pub rotate_left-IsValid : IsByteAndValid (rotate_left val c)
  unfolding rotate_left
  rotate_left-IsValid = record {
    byte = bit_or-lt 8 _ _ (omega arith) (omega (arith, bit_and-le_right c.sr 1));
    valid = set_zn_flags-IsValid _ _ (set_flag-IsValid _ _ c v);
  }

  pub rotate_right-IsValid : IsByteAndValid (rotate_right val c)
  unfolding rotate_right
  rotate_right-IsValid = record {
    byte = bit_or-lt 8 _ _ (omega arith) (omega (arith, bit_and-le_right c.sr 1));
    valid = set_zn_flags-IsValid _ _ (set_flag-IsValid _ _ c v);
  }

pub pulled_status-IsValid :
    (popped : ℕ) (c : Cpu) → popped < 256 → CpuIsValid c → CpuIsValid (pulled_status popped c)
unfolding pulled_status
pulled_status-IsValid popped c h v = ground (
  arith,
  bit_or-lt 8 (bit_and c.sr break_unused) (bit_and popped (bit_not break_unused)),
  bit_and-le_left c.sr break_unused,
  bit_and-le_left popped (bit_not break_unused),
)

pub rotated_flags-IsValid :
    (r : ℕ) (c : Cpu) → r < 256 → CpuIsValid c → CpuIsValid (rotated_flags r c)
unfolding rotated_flags
rotated_flags-IsValid r c h v =
    with_ac-IsValid r _ h (set_flag-IsValid _ _ _ (set_flag-IsValid _ _ c v))

pub compare_decremented-IsValid :
    (m : ℕ) (c : Cpu) → CpuIsValid c → CpuIsValid (compare_decremented m c)
unfolding compare_decremented
compare_decremented-IsValid m c v = set_zn_flags-IsValid _ _ (set_flag-IsValid _ _ c v)

pub subtract_from_and-IsValid :
    (m : ℕ) (c : Cpu) → CpuIsValid c → CpuIsValid (subtract_from_and m c)
unfolding subtract_from_and
subtract_from_and-IsValid m c v = set_flag-IsValid _ _ _ (put_x-IsValid _ c (omega arith) v)
