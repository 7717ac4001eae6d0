-- ===== src/Cpu/WriteOps.antt =====
-- The instructions of `execute_instruction` that write memory: read, modify and write, and stores.
use nes_emulator.Prelude.{ℕ, ◌+◌, u8}
use nes_emulator.State.{Cpu}
use nes_emulator.Outcome.{done, Run, ◌>>=◌, ◌>>◌, get_cpu, modify_cpu}
use nes_emulator.Mem.{mem_write_8}
use nes_emulator.Opcodes.{AddressMode, acc}
use nes_emulator.Cpu.Flags.{set_zn_flags}
use nes_emulator.Cpu.Shift.{shift_left, shift_right, rotate_left, rotate_right}
use nes_emulator.Cpu.ReadOps.{operand}

-- a function that changes the registers and returns a value
abbrev pub run_cpu : (Cpu → ℕ × Cpu) → Run ℕ
run_cpu f e = let (v, c) = f e.cpu in done (v, record e { cpu = c })

-- `mem_write_8(mem, cpu->address, value)`
unfoldable pub write_operand : ℕ → Run (Unit {0})
write_operand value = do c ← get_cpu; mem_write_8 c.address value

-- a shift or a rotation of the accumulator
unfoldable pub shift_ac : (ℕ → Cpu → ℕ × Cpu) → Run (Unit {0})
shift_ac f = do c ← get_cpu; v ← run_cpu (f c.ac); modify_cpu (λ c. record c { ac = v })

-- of memory
unfoldable pub shift_memory : (ℕ → Cpu → ℕ × Cpu) → Run (Unit {0})
shift_memory f = do m ← operand; v ← run_cpu (f m); write_operand v

-- ASL writes the old value first.
unfoldable pub run_asl : AddressMode → Run (Unit {0})
run_asl acc = shift_ac shift_left
run_asl mode = do m ← operand; write_operand m; v ← run_cpu (shift_left m); write_operand v

unfoldable pub run_lsr : AddressMode → Run (Unit {0})
run_lsr acc = shift_ac shift_right
run_lsr mode = shift_memory shift_right

unfoldable pub run_rol : AddressMode → Run (Unit {0})
run_rol acc = shift_ac rotate_left
run_rol mode = shift_memory rotate_left

unfoldable pub run_ror : AddressMode → Run (Unit {0})
run_ror acc = shift_ac rotate_right
run_ror mode = shift_memory rotate_right

unfoldable pub run_dec : Run (Unit {0})
run_dec = do m ← operand; write_operand (u8 (m + 255)); modify_cpu (set_zn_flags (u8 (m + 255)))

unfoldable pub run_inc : Run (Unit {0})
run_inc = do m ← operand; write_operand (u8 (m + 1)); modify_cpu (set_zn_flags (u8 (m + 1)))

unfoldable pub run_sta : Run (Unit {0})
run_sta = do c ← get_cpu; write_operand c.ac

unfoldable pub run_stx : Run (Unit {0})
run_stx = do c ← get_cpu; write_operand c.x

unfoldable pub run_sty : Run (Unit {0})
run_sty = do c ← get_cpu; write_operand c.y
