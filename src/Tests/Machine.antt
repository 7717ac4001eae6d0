-- ===== src/Tests/Machine.antt =====
-- A machine with one bank of NOP instructions, on the last visible line before the sprites.
use nes_emulator.Driver.{HostFrame}
use nes_emulator.Driver.Start.{FitsTypes}
use nes_emulator.Prelude.{◌%◌, ◌∷◌, get_or, List, true, [], Bytes, IsBytes, arith, false}
use nes_emulator.State.{Keyboard, Emulator, Rom, none, horizontal, in_chr_ram}
use nes_emulator.State.Valid.{IsValid, CpuIsValid, PpuIsValid, MemIsValid, MapperIsValid}

abbrev zeros : Bytes
zeros j = 0

abbrev nops : Bytes
nops j = 0xEA

abbrev idle_keyboard : Keyboard
idle_keyboard = record {
  key_x = false;
  key_z = false;
  key_rshift = false;
  key_return = false;
  key_up = false;
  key_down = false;
  key_left = false;
  key_right = false;
}

abbrev pub machine : Emulator
machine = record {
  rom = record { bytes = nops; size = 0x4010 };
  cpu = record {
    pc = 0x8000;
    address = 0xC123;
    ac = 0x7F;
    x = 1;
    y = 2;
    sr = 0x24;
    sp = 0x00;
    total_cycles = 0;
    cycles = 0;
    dma_cycles = 0;
    pending_interrupt = none;
    is_logging = 0;
  };
  ppu = record {
    ctrl = 0;
    mask = 0;
    status = 0;
    oam_addr = 0;
    vram_addr = 0x7BFF;
    temp_addr = 0x1234;
    write_latch = 0;
    data_read_buffer = 0;
    fine_x = 0;
    cur_scanline = 261;
    cur_dot = 340;
    frame_complete = 0;
    next_tile_id = 0;
    next_tile_attr = 0;
    next_tile_lsb = 0;
    next_tile_msb = 0;
    shifter_pattern_lo = 0;
    shifter_pattern_hi = 0;
    shifter_attr_lo = 0;
    shifter_attr_hi = 0;
    cycle_counter = 0;
    vram = zeros;
    palette = zeros;
    oam = zeros;
    sprite_scanline = zeros;
    sprite_count = 0;
    sprite_shifter_pattern_lo = zeros;
    sprite_shifter_pattern_hi = zeros;
    sprite_zero_hit_possible = 0;
    sprite_zero_hit_rendering = 0;
  };
  mem = record {
    ram = zeros;
    apu_io_reg = zeros;
    cartridge_ram = zeros;
    controller_shift_register = 0;
  };
  mapper = record {
    prg_rom = 16;
    chr_rom = in_chr_ram;
    prg_rom_size = 1;
    prg_ram_size = 0;
    chr_rom_size = 0;
    nametable_map = zeros;
    mirroring = horizontal;
    has_battery_backed_ram = 0;
    has_trainer = 0;
    chr_ram = zeros;
  };
  controller_input = 0;
  is_running = 0;
  event = 0;
  cur_frame = 0;
  time_point_start = 0;
  frame_times = zeros;
  keyboard = λ _. idle_keyboard;
  polls = 0;
  drawn = [];
}

zeros-IsBytes : IsBytes zeros
zeros-IsBytes = record { at = λ j. omega arith }

nops-IsBytes : IsBytes nops
nops-IsBytes = record { at = λ j. omega arith }

cpu-IsValid : CpuIsValid machine.cpu
cpu-IsValid = ground arith

pub ppu-IsValid : PpuIsValid machine.ppu
ppu-IsValid = ground (arith, zeros-IsBytes)

mem-IsValid : MemIsValid machine.mem
mem-IsValid = ground (arith, zeros-IsBytes)

mapper-IsValid : MapperIsValid machine.mapper
mapper-IsValid = record { chr_ram = zeros-IsBytes; nametables = λ j h. omega arith }

pub machine-IsValid : IsValid machine
machine-IsValid = record {
  cpu = cpu-IsValid;
  ppu = ppu-IsValid;
  mem = mem-IsValid;
  mapper = mapper-IsValid;
  rom = nops-IsBytes;
}

pub machine-FitsTypes : FitsTypes machine
machine-FitsTypes = record {
  cpu = machine-IsValid.cpu;
  apu_io_reg = machine-IsValid.mem.apu_io_reg;
  chr_ram = machine-IsValid.mapper.chr_ram;
  pattern_lo = ppu-IsValid.sprite_shifter_pattern_lo;
  pattern_hi = ppu-IsValid.sprite_shifter_pattern_hi;
}

-- a header of one bank, then code
abbrev pub small_rom : Rom
small_rom = record {
  bytes = λ i. get_or (b'N' ∷ b'E' ∷ b'S' ∷ 0x1A ∷ 1 ∷ 0 ∷ 0 ∷ 0 ∷ []) i 0 % 256;
  size = 0x4010;
}

pub small_rom-IsBytes : IsBytes small_rom.bytes
small_rom-IsBytes = record { at = λ i. omega arith }

abbrev pub one_frame : List HostFrame
one_frame = record { start = 0; window_quit = true; elapsed_us = 16000 } ∷ []
