-- ===== src/State/Valid.antt =====
-- The invariant of the emulator: each value fits its C type, the counters of the PPU stay on the
-- picture, at most eight sprites are held, the palette's mirrored entries agree, and the name
-- tables lie inside the video memory.
use nes_emulator.Prelude.{ℕ, ◌≤◌, ◌<◌, ◌≡◌, Bytes, IsBytes}
use nes_emulator.State.{Cpu, Ppu, Mem, Mapper, Emulator}
use nes_emulator.Outcome.{Run, ◌>>=◌, gets, get_cpu, modify_cpu, modify_ppu, modify_mem}
use nes_emulator.Outcome.Ensures.{Ensures, Any, any, Ensures-bind, ensures_rules}

pub record CpuIsValid (c : Cpu) : Type 0 where
  pub pc : c.pc < 65536
  pub address : c.address < 65536
  pub ac : c.ac < 256
  pub x : c.x < 256
  pub y : c.y < 256
  pub sr : c.sr < 256
  pub sp : c.sp < 256

-- Entries 0x10, 0x14, 0x18 and 0x1C of the palette mirror the entries 0x10 below them.
pub record IsMirrored (palette : Bytes) : Type 0 where
  pub backdrop : palette 0x10 ≡ palette 0x00
  pub first : palette 0x14 ≡ palette 0x04
  pub second : palette 0x18 ≡ palette 0x08
  pub third : palette 0x1C ≡ palette 0x0C

pub record PpuIsValid (p : Ppu) : Type 0 where
  pub ctrl : p.ctrl < 256
  pub mask : p.mask < 256
  pub status : p.status < 256
  pub oam_addr : p.oam_addr < 256
  pub vram_addr : p.vram_addr < 65536
  pub temp_addr : p.temp_addr < 65536
  pub write_latch : p.write_latch ≤ 1
  pub data_read_buffer : p.data_read_buffer < 256
  pub fine_x : p.fine_x < 8
  pub cur_scanline : p.cur_scanline < 262
  pub cur_dot : p.cur_dot < 341
  pub next_tile_id : p.next_tile_id < 256
  pub next_tile_attr : p.next_tile_attr < 4
  pub next_tile_lsb : p.next_tile_lsb < 256
  pub next_tile_msb : p.next_tile_msb < 256
  pub vram : IsBytes p.vram
  pub palette : IsBytes p.palette
  pub mirrored : IsMirrored p.palette
  pub oam : IsBytes p.oam
  pub sprite_scanline : IsBytes p.sprite_scanline
  pub sprite_count : p.sprite_count ≤ 8
  pub sprite_shifter_pattern_lo : IsBytes p.sprite_shifter_pattern_lo
  pub sprite_shifter_pattern_hi : IsBytes p.sprite_shifter_pattern_hi

pub record MemIsValid (m : Mem) : Type 0 where
  pub ram : IsBytes m.ram
  pub apu_io_reg : IsBytes m.apu_io_reg
  pub cartridge_ram : IsBytes m.cartridge_ram
  pub controller_shift_register : m.controller_shift_register < 256

pub record MapperIsValid (m : Mapper) : Type 0 where
  pub chr_ram : IsBytes m.chr_ram
  pub nametables : (j : ℕ) → j < 4 → m.nametable_map j ≤ 0x0C00

pub record IsValid (e : Emulator) : Type 0 where
  pub cpu : CpuIsValid e.cpu
  pub ppu : PpuIsValid e.ppu
  pub mem : MemIsValid e.mem
  pub mapper : MapperIsValid e.mapper
  pub rom : IsBytes e.rom.bytes

pub get_cpu-IsValid : Ensures IsValid CpuIsValid get_cpu
unfolding get_cpu
get_cpu-IsValid = record { at = λ e v. (v.cpu, v) }

pub get_ppu-IsValid : Ensures IsValid PpuIsValid (gets (λ e. e.ppu))
unfolding gets
get_ppu-IsValid = record { at = λ e v. (v.ppu, v) }

pub get_mem-IsValid : Ensures IsValid MemIsValid (gets (λ e. e.mem))
unfolding gets
get_mem-IsValid = record { at = λ e v. (v.mem, v) }

pub get_mapper-IsValid : Ensures IsValid MapperIsValid (gets (λ e. e.mapper))
unfolding gets
get_mapper-IsValid = record { at = λ e v. (v.mapper, v) }

pub modify_cpu-IsValid :
    (f : Cpu → Cpu)
    → ((c : Cpu) → CpuIsValid c → CpuIsValid (f c))
    → Ensures IsValid Any (modify_cpu f)
unfolding modify_cpu
modify_cpu-IsValid f keep = record {
  at = λ e v. (
    any,
    record { cpu = keep e.cpu v.cpu; ppu = v.ppu; mem = v.mem; mapper = v.mapper; rom = v.rom },
  );
}

pub modify_ppu-IsValid :
    (f : Ppu → Ppu)
    → ((p : Ppu) → PpuIsValid p → PpuIsValid (f p))
    → Ensures IsValid Any (modify_ppu f)
unfolding modify_ppu
modify_ppu-IsValid f keep = record {
  at = λ e v. (
    any,
    record { cpu = v.cpu; ppu = keep e.ppu v.ppu; mem = v.mem; mapper = v.mapper; rom = v.rom },
  );
}

pub modify_mem-IsValid :
    (f : Mem → Mem)
    → ((m : Mem) → MemIsValid m → MemIsValid (f m))
    → Ensures IsValid Any (modify_mem f)
unfolding modify_mem
modify_mem-IsValid f keep = record {
  at = λ e v. (
    any,
    record { cpu = v.cpu; ppu = v.ppu; mem = keep e.mem v.mem; mapper = v.mapper; rom = v.rom },
  );
}

module _ {B : Type 0} {R : B → Type 0} where
  pub bind_cpu :
      (m : Run Cpu) (f : Cpu → Run B)
      → Ensures IsValid CpuIsValid m
      → ((c : Cpu) → CpuIsValid c → Ensures IsValid R (f c))
      → Ensures IsValid R (m >>= f)
  bind_cpu = Ensures-bind

  pub bind_ppu :
      (m : Run Ppu) (f : Ppu → Run B)
      → Ensures IsValid PpuIsValid m
      → ((p : Ppu) → PpuIsValid p → Ensures IsValid R (f p))
      → Ensures IsValid R (m >>= f)
  bind_ppu = Ensures-bind

  pub bind_mem :
      (m : Run Mem) (f : Mem → Run B)
      → Ensures IsValid MemIsValid m
      → ((x : Mem) → MemIsValid x → Ensures IsValid R (f x))
      → Ensures IsValid R (m >>= f)
  bind_mem = Ensures-bind

  pub bind_mapper :
      (m : Run Mapper) (f : Mapper → Run B)
      → Ensures IsValid MapperIsValid m
      → ((x : Mapper) → MapperIsValid x → Ensures IsValid R (f x))
      → Ensures IsValid R (m >>= f)
  bind_mapper = Ensures-bind

-- The rules for code that keeps the invariant.
pub ruleset valid_rules = (
  ensures_rules, bind_cpu, bind_ppu, bind_mem, bind_mapper, get_cpu-IsValid, get_ppu-IsValid,
  get_mem-IsValid, get_mapper-IsValid,
)
