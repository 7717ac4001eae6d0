-- ===== src/Cpu/Flags.antt =====
-- `CPUFlag` of emulator/cpu.h, and `get_flag`, `set_flag`, `set_ZN_flags` of emulator/cpu.c.
pub mod Laws
use nes_emulator.Prelude.{ℕ, ◌<◌, bit_and, bit_or, bit_not, ◌==◌, truth, bool_to_int, if◌then◌else◌}
use nes_emulator.State.{Cpu}

pub data CpuFlag : Type 0 where
  carry zero interrupt decimal break unused overflw negative : CpuFlag

-- The value of the enumerator is one bit; this is its place.
abbrev pub flag_place : CpuFlag → ℕ
flag_place carry = 0
flag_place zero = 1
flag_place interrupt = 2
flag_place decimal = 3
flag_place break = 4
flag_place unused = 5
flag_place overflw = 6
flag_place negative = 7

abbrev pub flag_bit : CpuFlag → ℕ
flag_bit carry = 1
flag_bit zero = 2
flag_bit interrupt = 4
flag_bit decimal = 8
flag_bit break = 16
flag_bit unused = 32
flag_bit overflw = 64
flag_bit negative = 128

unfoldable pub get_flag : CpuFlag → Cpu → ℕ
get_flag flag c = if truth (bit_and c.sr (flag_bit flag)) then 1 else 0

-- `value` is a C condition.
unfoldable pub set_flag : CpuFlag → ℕ → Cpu → Cpu
set_flag flag value c =
    if truth value
    then record c { sr = bit_or c.sr (flag_bit flag) }
    else record c { sr = bit_and c.sr (bit_not (flag_bit flag)) }

unfoldable pub set_zn_flags : ℕ → Cpu → Cpu
set_zn_flags value c =
    set_flag negative (bit_and value 0x80) (set_flag zero (bool_to_int (value == 0)) c)
