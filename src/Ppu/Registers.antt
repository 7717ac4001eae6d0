-- ===== src/Ppu/Registers.antt =====
-- The PPU's registers as the CPU writes and reads them: `ppu_reset`, `ppu_set_ctrl`,
-- `ppu_read_status`, `ppu_set_scroll` and `ppu_set_vram_addr` of emulator/ppu.c.
pub mod Valid
use nes_emulator.Prelude.{ℕ, bit_and, fill, ◌==◌, if◌then◌else◌, ◌>>>◌}
use nes_emulator.State.{Ppu}
use nes_emulator.Ppu.Fields.Ctrl
use nes_emulator.Ppu.Fields.Status
use nes_emulator.Ppu.Fields.VramAddr

-- `shifter_pattern_hi` and the shifters of the sprites keep what they held.
unfoldable pub ppu_reset : Ppu → Ppu
ppu_reset p = record p {
  ctrl = 0x00;
  mask = 0x00;
  status = 0x00;
  oam_addr = 0x00;
  vram_addr = 0x0000;
  temp_addr = 0x0000;
  write_latch = 0x00;
  data_read_buffer = 0x00;
  fine_x = 0x00;
  cur_scanline = 0;
  cur_dot = 0;
  frame_complete = 0;
  next_tile_id = 0x00;
  next_tile_attr = 0x00;
  next_tile_lsb = 0x00;
  next_tile_msb = 0x00;
  shifter_pattern_lo = 0x0000;
  shifter_attr_hi = 0x0000;
  shifter_attr_lo = 0x0000;
  cycle_counter = 0;
  sprite_count = 0;
  sprite_zero_hit_possible = 0;
  sprite_zero_hit_rendering = 0;
  vram = fill 0;
  palette = fill 0;
  oam = fill 0;
  sprite_scanline = fill 0;
}

unfoldable pub ppu_set_ctrl : ℕ → Ppu → Ppu
ppu_set_ctrl value p = record p {
  ctrl = value;
  temp_addr =
      VramAddr.set_nametable_y (Ctrl.nametable_y value)
        (VramAddr.set_nametable_x (Ctrl.nametable_x value) p.temp_addr);
}

unfoldable pub ppu_read_status : Ppu → ℕ × Ppu
ppu_read_status p =
    (p.status, record p { write_latch = 0x00; status = Status.set_vblank 0 p.status })

unfoldable pub ppu_set_scroll : ℕ → Ppu → Ppu
ppu_set_scroll value p =
    if p.write_latch == 0
    then record p {
      fine_x = bit_and value 0x07;
      temp_addr = VramAddr.set_coarse_x (value >>> 3) p.temp_addr;
      write_latch = 1;
    }
    else record p {
      temp_addr =
          VramAddr.set_coarse_y (value >>> 3)
            (VramAddr.set_fine_y (bit_and value 0x07) p.temp_addr);
      write_latch = 0;
    }

unfoldable pub ppu_set_vram_addr : ℕ → Ppu → Ppu
ppu_set_vram_addr half_address p =
    if p.write_latch == 0
    then record p {
      temp_addr = VramAddr.set_high (bit_and half_address 0x3F) p.temp_addr;
      write_latch = 1;
    }
    else let temp_addr = VramAddr.set_low half_address p.temp_addr in
      record p { temp_addr = temp_addr; vram_addr = temp_addr; write_latch = 0 }
