-- ===== src/Ppu/Vram.antt =====
-- The PPU's own address space: `calculate_vram_index`, `ppu_write_vram_data`,
-- `ppu_read_vram_data` and `ppu_const_read_vram_data` of emulator/ppu.c.
pub mod Valid
use nes_emulator.Prelude.{
  ℕ, ◌+◌, ◌-◌, ◌/◌, ◌%◌, bit_and, bit_xor, ◌&&◌, ◌||◌, update, ltb, leb, ◌==◌, truth, if◌then◌else◌,
  u16,
}
use nes_emulator.State.{Emulator, Ppu}
use nes_emulator.Outcome.{Run, pure, ◌>>=◌, ◌>>◌, gets, modify_ppu, load, store}
use nes_emulator.Mapper.{nrom_read_chr, nrom_write_chr_ram}
use nes_emulator.Ppu.Fields.Ctrl

unfoldable pub calculate_vram_index : ℕ → Run ℕ
calculate_vram_index address = if ltb address 0x2000 || ltb 0x3FFF address then pure 0 else do
  let address' = if ltb 0x3000 address then address - 0x1000 else address
  let nametable_index = (address' - 0x2000) / 0x0400
  map ← gets (λ e. e.mapper.nametable_map)
  base_address ← load 4 map nametable_index
  let offset = (address' - 0x2000) % 0x03FF
  pure (u16 (base_address + offset))

-- `vram_addr.reg += ctrl.increment ? 32 : 1`
unfoldable pub increment_vram_addr : Ppu → Ppu
increment_vram_addr p = record p {
  vram_addr = u16 (p.vram_addr + (if truth (Ctrl.increment p.ctrl) then 32 else 1));
}

-- A multiple of 4 is written to both of its places.
unfoldable pub write_palette : ℕ → ℕ → Ppu → Ppu
write_palette address value p =
    if address % 4 == 0
    then record p { palette = update (update p.palette address value) (bit_xor address 0x10) value }
    else record p { palette = update p.palette address value }

unfoldable pub put_vram : ℕ → ℕ → Ppu → Ppu
put_vram i value p = record p { vram = update p.vram i value }

-- the write itself, before the address moves on
unfoldable pub store_vram_data : ℕ → ℕ → Run (Unit {0})
store_vram_data address value =
    if ltb address 0x2000
    then nrom_write_chr_ram address value
    else if ltb address 0x3F00
    then (do
      vram_index ← calculate_vram_index address
      store 0x2000 vram_index (modify_ppu (put_vram vram_index value)))
    else if ltb address 0x4000
    then store 0x20 (bit_and address 0x1F) (modify_ppu (write_palette (bit_and address 0x1F) value))
    else pure tt

unfoldable pub ppu_write_vram_data : ℕ → Run (Unit {0})
ppu_write_vram_data value = do
  p ← gets (λ e. e.ppu)
  store_vram_data (bit_and p.vram_addr 0x3FFF) value
  modify_ppu increment_vram_addr

-- what a read puts into `data_read_buffer`
unfoldable pub fill_read_buffer : ℕ → Run (Unit {0})
fill_read_buffer address =
    if ltb address 0x2000
    then (do value ← nrom_read_chr address; modify_ppu (λ p. record p { data_read_buffer = value }))
    else if ltb address 0x4000
    then (do
      vram_index ← calculate_vram_index address
      p ← gets (λ e. e.ppu)
      value ← load 0x2000 p.vram vram_index
      modify_ppu (λ p. record p { data_read_buffer = value }))
    else pure tt

-- A read of the palette returns before the address moves on.
unfoldable pub ppu_read_vram_data : Run ℕ
ppu_read_vram_data = do
  p ← gets (λ e. e.ppu)
  let address = bit_and p.vram_addr 0x3FFF
  let prev_buffer = p.data_read_buffer
  fill_read_buffer address
  if leb 0x3F00 address && ltb address 0x4000
      then load 0x20 p.palette (bit_and address 0x1F)
      else modify_ppu increment_vram_addr >> pure prev_buffer

unfoldable pub ppu_const_read_vram_data : ℕ → Run ℕ
ppu_const_read_vram_data address' = do
  let address = bit_and address' 0x3FFF
  p ← gets (λ e. e.ppu)
  if ltb address 0x2000
      then nrom_read_chr address
      else if ltb address 0x3F00
      then (do vram_index ← calculate_vram_index address; load 0x2000 p.vram vram_index)
      else if ltb address 0x4000
      then load 0x20 p.palette (bit_and address 0x1F)
      else pure 0
