-- ===== src/Mem.antt =====
-- emulator/mem.c: the CPU's address space, and `sdl_poll_events` of dev/sdl-instance.c, the source
-- of the controller's byte. An `address` is a `uint16_t`: callers pass a value below 0x10000.
pub mod Controller
pub mod Exits
pub mod Stack
pub mod Ram
pub mod Rom
pub mod Valid
use nes_emulator.Prelude.{
  ℕ, ◌+◌, ◌-◌, ◌*◌, ◌%◌, bit_and, bit_or, ◌&&◌, not, Bool, Bytes, update, fill, ltb, ◌==◌, truth,
  bool_to_int, if◌then◌else◌, u8, u16, ◌<<<◌, ◌>>>◌,
}
use nes_emulator.State.{Emulator, Keyboard, Ppu, Mem}
use nes_emulator.Outcome.{
  Run, pure, exit_failure, out_of_bounds, ◌>>=◌, ◌>>◌, gets, modify, modify_ppu, modify_mem, load,
  store,
}
use nes_emulator.Mapper.{nrom_read_prg}
use nes_emulator.Ppu.Registers.{ppu_set_ctrl, ppu_read_status, ppu_set_scroll, ppu_set_vram_addr}
use nes_emulator.Ppu.Vram.{ppu_read_vram_data, ppu_write_vram_data, ppu_const_read_vram_data}
use nes_emulator.Ppu.Dma.{ppu_dma}

abbrev pub ram_end : ℕ
ram_end = 0x0800

abbrev pub ram_mirror_end : ℕ
ram_mirror_end = 0x2000

abbrev pub ppu_mirror_end : ℕ
ppu_mirror_end = 0x4000

abbrev pub apu_io_register_end : ℕ
apu_io_register_end = 0x4020

abbrev pub prg_ram_end : ℕ
prg_ram_end = 0x8000

abbrev pub prg_ram_size : ℕ
prg_ram_size = 0x8000 - 0x4020

-- `apu_io_reg` keeps what it held.
unfoldable pub init_cpu_mem : Run (Unit {0})
init_cpu_mem =
    modify_mem
      (λ m. record m { controller_shift_register = 0; ram = fill 0; cartridge_ram = fill 0 })

abbrev pub or_if : Bool → ℕ → ℕ → ℕ
or_if key button event = if key then bit_or event button else event

-- the body of `sdl_poll_events`, from the state of the keys on
unfoldable pub controller_byte : Keyboard → ℕ
controller_byte k = or_if k.key_right 1 (
    or_if k.key_left 2 (
      or_if k.key_down 4 (
        or_if k.key_up 8 (
          or_if k.key_return 16 (or_if k.key_rshift 32 (or_if k.key_z 64 (or_if k.key_x 128 0)))))))

unfoldable pub sdl_poll_events : Run ℕ
sdl_poll_events = do
  keyboard ← gets (λ e. e.keyboard e.polls)
  modify (λ e. record e { polls = e.polls + 1 })
  pure (controller_byte keyboard)

-- a write to 0x4016
unfoldable pub poll_controller : Run (Unit {0})
poll_controller = do
  byte ← sdl_poll_events
  modify_mem (λ m. record m { controller_shift_register = byte })

unfoldable pub put_ram : ℕ → ℕ → Mem → Mem
put_ram i value m = record m { ram = update m.ram i value }

unfoldable pub write_ram : ℕ → ℕ → Run (Unit {0})
write_ram address value =
    store ram_end (bit_and address 0x07FF) (modify_mem (put_ram (bit_and address 0x07FF) value))

-- a write to OAM_DATA
unfoldable pub write_oam_data : ℕ → Ppu → Ppu
write_oam_data value p = record p {
  oam = update p.oam p.oam_addr value;
  oam_addr = u8 (p.oam_addr + 1);
}

-- the first `switch` of `mem_write_8`
unfoldable pub write_ppu_register : ℕ → ℕ → Run (Unit {0})
write_ppu_register address value =
    if address == 0x2000
    then modify_ppu (ppu_set_ctrl value)
    else if address == 0x2001
    then modify_ppu (λ p. record p { mask = value })
    else if address == 0x2003
    then modify_ppu (λ p. record p { oam_addr = value })
    else if address == 0x2004
    then (do p ← gets (λ e. e.ppu); store 0x100 p.oam_addr (modify_ppu (write_oam_data value)))
    else if address == 0x2005
    then modify_ppu (ppu_set_scroll value)
    else if address == 0x2006
    then modify_ppu (ppu_set_vram_addr value)
    else if address == 0x2007
    then ppu_write_vram_data value
    else pure tt

-- the second `switch`; its first case falls through to the second
unfoldable pub write_io_register : ℕ → ℕ → Run (Unit {0})
write_io_register address value =
    if address == 0x4014
    then ppu_dma value >> poll_controller
    else if address == 0x4016
    then poll_controller
    else pure tt

unfoldable pub put_cartridge_ram : ℕ → ℕ → Mem → Mem
put_cartridge_ram i value m = record m { cartridge_ram = update m.cartridge_ram i value }

unfoldable pub write_cartridge_ram : ℕ → ℕ → Run (Unit {0})
write_cartridge_ram address value =
    store prg_ram_size (address - apu_io_register_end)
      (modify_mem (put_cartridge_ram (address - apu_io_register_end) value))

-- After the PPU's registers the address is below 0x2008: the second `switch` does nothing.
unfoldable pub mem_write_8 : ℕ → ℕ → Run (Unit {0})
mem_write_8 address value =
    if ltb address ram_mirror_end
    then write_ram address value
    else if ltb address ppu_mirror_end
    then write_ppu_register (bit_and address 0x0007 + 0x2000) value
    else if ltb address apu_io_register_end
    then write_io_register address value
    else if ltb address prg_ram_end
    then write_cartridge_ram address value
    else exit_failure

-- the first `switch` of `mem_read_8`
unfoldable pub read_ppu_register : ℕ → Run ℕ
read_ppu_register address = do
  p ← gets (λ e. e.ppu)
  if address == 0x2002
      then (do let (status, p') = ppu_read_status p; modify_ppu (λ _. p'); pure status)
      else if address == 0x2004
      then load 0x100 p.oam p.oam_addr
      else if address == 0x2007
      then ppu_read_vram_data
      else pure 0x00

-- a read of 0x4016: the controller's next button
unfoldable pub read_controller : Run ℕ
read_controller = do
  m ← gets (λ e. e.mem)
  modify_mem (λ m. record m { controller_shift_register = u8 (m.controller_shift_register <<< 1) })
  pure (bool_to_int (ltb 0 (bit_and m.controller_shift_register 0x80)))

-- `cartridge_ram[address - APU_IO_REGISTER_END]`, where a lower address is before the array
unfoldable pub read_cartridge_ram : ℕ → Run ℕ
read_cartridge_ram address = do
  m ← gets (λ e. e.mem)
  if ltb address apu_io_register_end
      then out_of_bounds
      else load prg_ram_size m.cartridge_ram (address - apu_io_register_end)

-- All of the I/O registers but 0x4016 go on to the test for the cartridge's RAM.
unfoldable pub mem_read_8 : ℕ → Run ℕ
mem_read_8 address = do
  m ← gets (λ e. e.mem)
  if ltb address ram_mirror_end
      then load ram_end m.ram (bit_and address 0x07FF)
      else if ltb address ppu_mirror_end
      then read_ppu_register (bit_and address 0x0007 + 0x2000)
      else if ltb address apu_io_register_end && address == 0x4016
      then read_controller
      else if ltb address prg_ram_end
      then read_cartridge_ram address
      else nrom_read_prg address

unfoldable pub mem_write_16 : ℕ → ℕ → Run (Unit {0})
mem_write_16 address value = do
  mem_write_8 (u16 (address + 1)) (u8 (value >>> 8))
  mem_write_8 address (u8 value)

-- C leaves open which of the two bytes is read first: here it is the high one.
unfoldable pub mem_read_16 : ℕ → Run ℕ
mem_read_16 address = do
  high ← mem_read_8 (u16 (address + 1))
  low ← mem_read_8 address
  pure (u16 (bit_or (high <<< 8) low))

-- `mem_const_read_8`: the same map with no effect. Here the I/O registers have an array.
unfoldable pub mem_const_read_8 : ℕ → Run ℕ
mem_const_read_8 address = do
  m ← gets (λ e. e.mem)
  p ← gets (λ e. e.ppu)
  if ltb address ram_mirror_end
      then load ram_end m.ram (bit_and address 0x07FF)
      else if ltb address ppu_mirror_end
      then (let address' = bit_and address 0x0007 + 0x2000 in
          if address' == 0x2002
          then pure p.status
          else if address' == 0x2004
          then load 0x100 p.oam p.oam_addr
          else if address' == 0x2007
          then ppu_const_read_vram_data address'
          else pure 0x00)
      else if ltb address apu_io_register_end
      then load 0x20 m.apu_io_reg (address - ppu_mirror_end)
      else if ltb address prg_ram_end
      then read_cartridge_ram address
      else nrom_read_prg address
