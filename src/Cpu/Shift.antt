-- ===== src/Cpu/Shift.antt =====
-- `shift_left`, `shift_right`, `rotate_left` and `rotate_right` of emulator/cpu.c.
pub mod Laws
use nes_emulator.Prelude.{ℕ, bit_and, bit_or, u8, ◌<<<◌, ◌>>>◌}
use nes_emulator.State.{Cpu}
use nes_emulator.Cpu.Flags.{carry, set_flag, set_zn_flags}

unfoldable pub shift_left : ℕ → Cpu → ℕ × Cpu
shift_left val c =
    let shifted = u8 (val <<< 1) in
    (shifted, set_zn_flags shifted (set_flag carry (bit_and val 0x80) c))

unfoldable pub shift_right : ℕ → Cpu → ℕ × Cpu
shift_right val c =
    let shifted = val >>> 1 in (shifted, set_zn_flags shifted (set_flag carry (bit_and val 0x01) c))

unfoldable pub rotate_left : ℕ → Cpu → ℕ × Cpu
rotate_left val c =
    let rotated = bit_or (u8 (val <<< 1)) (bit_and c.sr 1) in
    (rotated, set_zn_flags rotated (set_flag carry (bit_and val 0x80) c))

unfoldable pub rotate_right : ℕ → Cpu → ℕ × Cpu
rotate_right val c =
    let rotated = bit_or (val >>> 1) (bit_and c.sr 1 <<< 7) in
    (rotated, set_zn_flags rotated (set_flag carry (bit_and val 0x01) c))
