-- ===== src/State.antt =====
-- The devices of emulator/cpu.h, mem.h, ppu.h, mapper.h and emulator.h as records. A struct that a
-- function of the program mutates through a pointer is a value that the function returns anew;
-- the back pointers `emulator` are the enclosing record.
pub mod Valid
use nes_emulator.Prelude.{ℕ, Bool, Bytes, List}

-- `Interrupt` of cpu.h
pub data Interrupt : Type 0 where
  none nmi irq rsi : Interrupt

-- `CPU` of cpu.h. Each register holds its bit pattern.
pub record Cpu : Type 0 where
  pub pc : ℕ
  pub address : ℕ
  pub ac : ℕ
  pub x : ℕ
  pub y : ℕ
  pub sr : ℕ
  pub sp : ℕ
  pub total_cycles : ℕ
  pub cycles : ℕ
  pub dma_cycles : ℕ
  pub pending_interrupt : Interrupt
  pub is_logging : ℕ

-- `PPU` of ppu.h. The unions are their `reg`; `Ppu.Registers` has the bit fields.
pub record Ppu : Type 0 where
  pub ctrl : ℕ
  pub mask : ℕ
  pub status : ℕ
  pub oam_addr : ℕ
  pub vram_addr : ℕ
  pub temp_addr : ℕ
  pub write_latch : ℕ
  pub data_read_buffer : ℕ
  pub fine_x : ℕ
  pub cur_scanline : ℕ
  pub cur_dot : ℕ
  pub frame_complete : ℕ
  pub next_tile_id : ℕ
  pub next_tile_attr : ℕ
  pub next_tile_lsb : ℕ
  pub next_tile_msb : ℕ
  pub shifter_pattern_lo : ℕ
  pub shifter_pattern_hi : ℕ
  pub shifter_attr_lo : ℕ
  pub shifter_attr_hi : ℕ
  pub cycle_counter : ℕ
  pub vram : Bytes
  pub palette : Bytes
  pub oam : Bytes
  pub sprite_scanline : Bytes
  pub sprite_count : ℕ
  pub sprite_shifter_pattern_lo : Bytes
  pub sprite_shifter_pattern_hi : Bytes
  pub sprite_zero_hit_possible : ℕ
  pub sprite_zero_hit_rendering : ℕ

-- `MEM` of mem.h
pub record Mem : Type 0 where
  pub ram : Bytes
  pub apu_io_reg : Bytes
  pub cartridge_ram : Bytes
  pub controller_shift_register : ℕ

-- `Mirroring` of mapper.h
pub data Mirroring : Type 0 where
  vertical horizontal single_screen_lower single_screen_upper four_screen : Mirroring

-- What the pointer `chr_rom` of mapper.h points at: the buffer of the rom from an offset on, or
-- the array `chr_ram` of the same struct.
pub data ChrPointer : Type 0 where
  in_rom : ℕ → ChrPointer
  in_chr_ram : ChrPointer

-- `Mapper` of mapper.h. `prg_rom` is an offset into the buffer of the rom. The function pointers
-- have one value each, the functions of NROM.
pub record Mapper : Type 0 where
  pub prg_rom : ℕ
  pub chr_rom : ChrPointer
  pub prg_rom_size : ℕ
  pub prg_ram_size : ℕ
  pub chr_rom_size : ℕ
  pub nametable_map : Bytes
  pub mirroring : Mirroring
  pub has_battery_backed_ram : ℕ
  pub has_trainer : ℕ
  pub chr_ram : Bytes

-- The buffer that holds the rom file, with its size.
pub record Rom : Type 0 where
  pub bytes : Bytes
  pub size : ℕ

-- The keys that `sdl_poll_events` looks at, as SDL reports them.
pub record Keyboard : Type 0 where
  pub key_x : Bool
  pub key_z : Bool
  pub key_rshift : Bool
  pub key_return : Bool
  pub key_up : Bool
  pub key_down : Bool
  pub key_left : Bool
  pub key_right : Bool

-- A call of `sdl_put_pixel_nes_screen`.
pub record Pixel : Type 0 where
  pub x : ℕ
  pub y : ℕ
  pub color : ℕ

-- `Emulator` of emulator.h, with the host: `keyboard n` is what SDL reports at poll number `n`,
-- `polls` counts the polls made, and
-- `drawn` lists the pixels drawn, the last one first.
pub record Emulator : Type 0 where
  pub rom : Rom
  pub cpu : Cpu
  pub ppu : Ppu
  pub mem : Mem
  pub mapper : Mapper
  pub controller_input : ℕ
  pub is_running : ℕ
  pub event : ℕ
  pub cur_frame : ℕ
  pub time_point_start : ℕ
  pub frame_times : Bytes
  pub keyboard : ℕ → Keyboard
  pub polls : ℕ
  pub drawn : List Pixel
