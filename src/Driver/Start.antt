-- ===== src/Driver/Start.antt =====
-- `emulator_init` establishes the invariant, whatever the memory of the `Emulator` held.
use nes_emulator.Prelude.{ℕ, zero, suc, ◌+◌, IsBytes, fill, fill-IsBytes, update, [], ◌∷◌, arith}
use nes_emulator.State.{Emulator, Mapper, Rom, Mirroring, vertical, horizontal, four_screen}
use nes_emulator.State.Valid.{IsValid, CpuIsValid, PpuIsValid, MemIsValid, MapperIsValid}
use nes_emulator.Outcome.{modify, modify_mem, modify_ppu}
use nes_emulator.Outcome.Ensures.{
  Ensures, Any, any, Ensures-pure, Ensures-exit, Ensures-gets, Ensures-load, Ensures-if, bind-Any,
}
use nes_emulator.Outcome.Leads.{Leads, Leads-bind, Ensures-Leads}
use nes_emulator.Mapper.{
  INesHeader, rom_byte, copy_header, read_ines_header, set_nametable_mapping, set_mirroring,
  header_mirroring, fill_mapper, mapper_init,
}
use nes_emulator.Mem.{init_cpu_mem}
use nes_emulator.Ppu.Registers.{ppu_reset}
use nes_emulator.Cpu.Valid.Cycle.{cpu_init-IsValid}
use nes_emulator.Driver.{ppu_init, emulator_init}
use nes_emulator.Driver.Laws.{ppu_reset-IsValid}

-- What the C types say of the fields that `emulator_init` does not write before it uses them.
pub record FitsTypes (e : Emulator) : Type 0 where
  pub cpu : CpuIsValid e.cpu
  pub apu_io_reg : IsBytes e.mem.apu_io_reg
  pub chr_ram : IsBytes e.mapper.chr_ram
  pub pattern_lo : IsBytes e.ppu.sprite_shifter_pattern_lo
  pub pattern_hi : IsBytes e.ppu.sprite_shifter_pattern_hi

abbrev HasRom : Emulator → Type 0
HasRom e = FitsTypes e × IsBytes e.rom.bytes

abbrev HasPpu : Emulator → Type 0
HasPpu e = HasRom e × PpuIsValid e.ppu

-- all but the mapper
record IsReady (e : Emulator) : Type 0 where
  cpu : CpuIsValid e.cpu
  ppu : PpuIsValid e.ppu
  mem : MemIsValid e.mem
  chr_ram : IsBytes e.mapper.chr_ram
  rom : IsBytes e.rom.bytes

ppu_init-Leads : Leads HasRom Any HasPpu ppu_init
unfolding ppu_init modify_ppu
ppu_init-Leads = record {
  at = λ e h. (
    any,
    (
      (
        record {
          cpu = h.0.cpu;
          apu_io_reg = h.0.apu_io_reg;
          chr_ram = h.0.chr_ram;
          pattern_lo = unfold ppu_reset in h.0.pattern_lo;
          pattern_hi = unfold ppu_reset in h.0.pattern_hi;
        },
        h.1,
      ),
      ppu_reset-IsValid e.ppu h.0.pattern_lo h.0.pattern_hi,
    ),
  );
}

init_cpu_mem-Leads : Leads HasPpu Any IsReady init_cpu_mem
unfolding init_cpu_mem modify_mem
init_cpu_mem-Leads = record {
  at = λ e h. (
    any,
    record {
      cpu = h.0.0.cpu;
      ppu = h.1;
      mem = record {
        ram = fill-IsBytes 0 (omega arith);
        apu_io_reg = h.0.0.apu_io_reg;
        cartridge_ram = fill-IsBytes 0 (omega arith);
        controller_shift_register = omega arith;
      };
      chr_ram = h.0.0.chr_ram;
      rom = h.0.1;
    },
  );
}

module _ {P : Emulator → Type 0} where
  rom_byte-Any : (i : ℕ) → Ensures P Any (rom_byte i)
  unfolding rom_byte
  rom_byte-Any i = bind-Any _ _ (Ensures-gets _ λ e h. any) λ rom. Ensures-load _ _ _ (λ _. any)

  copy_header-Any : (n i : ℕ) → Ensures P Any (copy_header n i)
  unfolding copy_header
  copy_header-Any zero i = Ensures-pure [] any
  copy_header-Any (suc n) i =
      bind-Any _ _ (rom_byte-Any i)
        λ b. bind-Any _ _ (copy_header-Any n (i + 1)) λ bs. Ensures-pure (b ∷ bs) any

  read_ines_header-Any : Ensures P Any read_ines_header
  unfolding read_ines_header
  read_ines_header-Any =
      bind-Any _ _ (copy_header-Any 16 0) λ b. search (Ensures-if, Ensures-exit, Ensures-pure, any)

set_mirroring-IsValid :
    (i : Mirroring) (m : Mapper) → IsBytes m.chr_ram → MapperIsValid (set_mirroring i m)
unfolding set_mirroring set_nametable_mapping update
set_mirroring-IsValid vertical m h = record { chr_ram = h; nametables = λ j hj. ground arith }
set_mirroring-IsValid horizontal m h = record { chr_ram = h; nametables = λ j hj. ground arith }
set_mirroring-IsValid four_screen m h = record { chr_ram = h; nametables = λ j hj. ground arith }
set_mirroring-IsValid _ m h = record { chr_ram = h; nametables = λ j hj. ground arith }

fill_mapper-IsValid :
    (h : INesHeader) (m : Mapper) → IsBytes m.chr_ram → MapperIsValid (fill_mapper h m)
unfolding fill_mapper
fill_mapper-IsValid h m c =
    let v = set_mirroring-IsValid (header_mirroring h) m c in
    record { chr_ram = v.chr_ram; nametables = v.nametables }

fill-Leads :
    (h : INesHeader)
    → Leads IsReady Any IsValid (modify λ e. record e { mapper = fill_mapper h e.mapper })
unfolding modify
fill-Leads h = record {
  at = λ e r. (
    any,
    record {
      cpu = r.cpu;
      ppu = r.ppu;
      mem = r.mem;
      mapper = fill_mapper-IsValid h e.mapper r.chr_ram;
      rom = r.rom;
    },
  );
}

mapper_init-Leads : Leads IsReady Any IsValid mapper_init
unfolding mapper_init
mapper_init-Leads = Leads-bind _ _ (Ensures-Leads _ read_ines_header-Any (λ _ r. r)) λ h _.
    Leads-bind _ _ (fill-Leads h) λ _ _.
      Ensures-Leads {P = IsValid} _ (search (Ensures-if, Ensures-exit, Ensures-pure, any))
        (λ _ v. v)

insert_rom-Leads :
    (rom : Rom)
    → IsBytes rom.bytes
    → Leads FitsTypes Any HasRom (
        modify λ e. record e {
          rom = rom;
          event = 0;
          is_running = 0;
          cur_frame = 0;
          time_point_start = 0;
          frame_times = fill 0;
        })
unfolding modify
insert_rom-Leads rom h = record {
  at = λ e f. (
    any,
    (
      record {
        cpu = f.cpu;
        apu_io_reg = f.apu_io_reg;
        chr_ram = f.chr_ram;
        pattern_lo = f.pattern_lo;
        pattern_hi = f.pattern_hi;
      },
      h,
    ),
  );
}

pub emulator_init-Leads :
    (rom : Rom) → IsBytes rom.bytes → Leads FitsTypes Any IsValid (emulator_init rom)
unfolding emulator_init
emulator_init-Leads rom h = Leads-bind _ _ (insert_rom-Leads rom h) λ _ _.
    Leads-bind _ _ ppu_init-Leads λ _ _.
      Leads-bind _ _ init_cpu_mem-Leads
        λ _ _. Leads-bind _ _ mapper_init-Leads λ _ _. Ensures-Leads _ cpu_init-IsValid (λ _ v. v)
