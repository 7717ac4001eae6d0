-- ===== src/Cpu/Address.antt =====
-- `set_address` of emulator/cpu.c: the operand's address by addressing mode.
use nes_emulator.Prelude.{
  ℕ, ◌+◌, bit_and, bit_or, Bool, false, not, ltb, ◌==◌, if◌then◌else◌, u16, ◌<<<◌, add_size,
}
use nes_emulator.State.{Cpu}
use nes_emulator.Outcome.{Run, pure, ◌>>=◌, get_cpu, modify_cpu}
use nes_emulator.Mem.{mem_read_8, mem_read_16}
use nes_emulator.Opcodes.{
  Opcode, sta, asl, dec, inc, lsr, rol, ror, slo, rla, sre, rra, dcp, isb, shy, AddressMode, acc,
  abs, abx, aby, imm, imp, ind, xin, yin, rel, zp0, zpx, zpy, unk,
}

unfoldable pub crosses_page_borders : ℕ → ℕ → Bool
crosses_page_borders address_1 address_2 =
    not (bit_and address_1 0xFF00 == bit_and address_2 0xFF00)

-- `crosses_page_borders_`, which some opcodes are excluded from
unfoldable pub crosses_page_borders_by_opcode : ℕ → ℕ → Opcode → Bool
crosses_page_borders_by_opcode address_1 address_2 sta = false
crosses_page_borders_by_opcode address_1 address_2 asl = false
crosses_page_borders_by_opcode address_1 address_2 dec = false
crosses_page_borders_by_opcode address_1 address_2 inc = false
crosses_page_borders_by_opcode address_1 address_2 lsr = false
crosses_page_borders_by_opcode address_1 address_2 rol = false
crosses_page_borders_by_opcode address_1 address_2 ror = false
crosses_page_borders_by_opcode address_1 address_2 slo = false
crosses_page_borders_by_opcode address_1 address_2 rla = false
crosses_page_borders_by_opcode address_1 address_2 sre = false
crosses_page_borders_by_opcode address_1 address_2 rra = false
crosses_page_borders_by_opcode address_1 address_2 dcp = false
crosses_page_borders_by_opcode address_1 address_2 isb = false
crosses_page_borders_by_opcode address_1 address_2 shy = false
crosses_page_borders_by_opcode address_1 address_2 opcode =
    not (bit_and address_1 0xFF00 == bit_and address_2 0xFF00)

-- `cpu->address = address; cpu->pc += n`
unfoldable pub put_address : ℕ → ℕ → Cpu → Cpu
put_address address n c = record c { address = u16 address; pc = u16 (c.pc + n) }

-- an indexed mode: the index is added to the base, and a crossed page takes a cycle
unfoldable pub put_indexed : ℕ → ℕ → ℕ → Opcode → Cpu → Cpu
put_indexed base_address index n opcode c =
    let c' = put_address (base_address + index) n c in
    if crosses_page_borders_by_opcode base_address c'.address opcode
    then record c' { cycles = add_size c'.cycles 1 }
    else c'

-- two bytes from the zero page, going round at its end
unfoldable pub read_zero_page_16 : ℕ → Run ℕ
read_zero_page_16 zp_address = do
  low ← mem_read_8 zp_address
  high ← mem_read_8 (bit_and (zp_address + 1) 0xFF)
  pure (bit_or low (high <<< 8))

-- `(int8_t)m` as a 16-bit pattern
abbrev pub sign_extend : ℕ → ℕ
sign_extend m = if ltb m 0x80 then m else m + 0xFF00

unfoldable pub set_address : Opcode → AddressMode → Run (Unit {0})
set_address opcode acc = pure tt
set_address opcode abs = do
  c ← get_cpu
  address ← mem_read_16 c.pc
  modify_cpu (put_address address 2)
set_address opcode abx = do
  c ← get_cpu
  base_address ← mem_read_16 c.pc
  modify_cpu (put_indexed base_address c.x 2 opcode)
set_address opcode aby = do
  c ← get_cpu
  base_address ← mem_read_16 c.pc
  modify_cpu (put_indexed base_address c.y 2 opcode)
set_address opcode imm = modify_cpu (λ c. put_address c.pc 1 c)
set_address opcode imp = pure tt
set_address opcode ind = do
  c ← get_cpu
  temp ← mem_read_16 c.pc
  low ← mem_read_8 temp
  high ← mem_read_8 (bit_or (bit_and temp 0xFF00) (bit_and (temp + 1) 0xFF))
  modify_cpu (put_address (bit_or low (high <<< 8)) 2)
set_address opcode xin = do
  c ← get_cpu
  operand ← mem_read_8 c.pc
  base_address ← read_zero_page_16 (bit_and (operand + c.x) 0xFF)
  modify_cpu (put_address base_address 1)
set_address opcode yin = do
  c ← get_cpu
  zp_address ← mem_read_8 c.pc
  base_address ← read_zero_page_16 zp_address
  modify_cpu (put_indexed base_address c.y 1 opcode)
set_address opcode rel = do
  c ← get_cpu
  offset ← mem_read_8 c.pc
  modify_cpu (λ c. put_address (u16 (c.pc + 1) + sign_extend offset) 1 c)
set_address opcode zp0 = do
  c ← get_cpu
  address ← mem_read_8 c.pc
  modify_cpu (put_address address 1)
set_address opcode zpx = do
  c ← get_cpu
  operand ← mem_read_8 c.pc
  modify_cpu (put_address (bit_and (u16 (operand + c.x)) 0xFF) 1)
set_address opcode zpy = do
  c ← get_cpu
  operand ← mem_read_8 c.pc
  modify_cpu (put_address (bit_and (u16 (operand + c.y)) 0xFF) 1)
set_address opcode unk = pure tt
