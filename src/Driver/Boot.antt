-- ===== src/Driver/Boot.antt =====
-- `emulator_init` with a file that the emulator supports.
use nes_emulator.Driver.Image.{header_of, prg_end, IsImage, mapper_init-done}
use nes_emulator.Prelude.{
  ℕ, ◌+◌, ◌-◌, ◌*◌, ◌%◌, ◌≤◌, ◌<◌, ◌≡◌, refl, ap, ◌∙◌, ◌⊎◌, inl, inr, u16, arith, Bytes, fill,
  bit_or, ◌<<<◌,
}
use nes_emulator.Prelude.Bits.{bit_or_fields}
use nes_emulator.State.Valid.{IsValid}
use mathlib.Core.Path.{subst}
use nes_emulator.Outcome.Ensures.{Holds, Any}
use nes_emulator.Driver.Start.{FitsTypes, emulator_init-Leads}
use nes_emulator.State.{Emulator, Rom, Cpu, none}
use nes_emulator.Outcome.{done, ◌>>=◌, pure, modify, modify_cpu, modify_ppu, modify_mem}
use nes_emulator.Mapper.{fill_mapper}
use nes_emulator.Ppu.Registers.{ppu_reset}
use nes_emulator.Ppu.Returns.{ChrFits, IsSound}
use nes_emulator.Driver.{ppu_init, emulator_init}
use nes_emulator.Mem.{init_cpu_mem, mem_read_8, mem_read_16}
use nes_emulator.Mem.Rom.{HasBanks, mem_read_8-rom}
use nes_emulator.Cpu.Cycle.{cpu_init}

-- The word, low byte first, that starts four bytes before the end of the last bank.
abbrev pub reset_vector : Bytes → ℕ
reset_vector bytes = bytes (prg_end bytes - 3) * 256 + bytes (prg_end bytes - 4)

-- what `cpu_init` leaves of the CPU
abbrev started : ℕ → Cpu → Cpu
started pc c = record c {
  pc = pc;
  ac = 0;
  x = 0;
  y = 0;
  sr = 0x24;
  sp = 0xFD;
  total_cycles = 0;
  cycles = 0;
  dma_cycles = 0;
  pending_interrupt = none;
  is_logging = 0;
}

-- the last bytes of the last bank
last_bytes :
    (n start j : ℕ)
    → (n ≡ 1) ⊎ (n ≡ 2)
    → 0x7FF0 ≤ j
    → j < 0x8000
    → start + j % (n * 0x4000) ≡ start + n * 0x4000 - (0x8000 - j)
last_bytes n start j (inl one) h k = rw one (omega arith)
last_bytes n start j (inr two) h k = rw two (omega arith)

-- where the last bank of the mapper ends
abbrev bank_end : Emulator → ℕ
bank_end e = e.mapper.prg_rom + e.mapper.prg_rom_size * 0x4000

read_vector :
    (a : ℕ) (e : Emulator)
    → HasBanks e
    → 0xFFF0 ≤ a
    → a < 0x10000
    → mem_read_8 a e ≡ done (e.rom.bytes (bank_end e - (0x8000 - (a - 0x8000))), e)
read_vector a e b h k =
    mem_read_8-rom a e (omega arith) k b.banks b.fits
    ∙ ap (λ i. done (e.rom.bytes i, e))
        (last_bytes e.mapper.prg_rom_size e.mapper.prg_rom (a - 0x8000) b.banks (omega arith)
          (omega arith))

read_reset :
    (e : Emulator)
    → HasBanks e
    → mem_read_16 0xFFFC e
      ≡ done (u16 (bit_or (e.rom.bytes (bank_end e - 3) <<< 8) (e.rom.bytes (bank_end e - 4))), e)
unfolding mem_read_16 ◌>>=◌
read_reset e b =
    rw
      (
        mem_read_16,
        ◌>>=◌,
        read_vector 0xFFFD e b (omega arith) (omega arith),
        read_vector 0xFFFC e b (omega arith) (omega arith),
        pure,
      )
      refl

cpu_init-done :
    (e : Emulator)
    → HasBanks e
    → cpu_init e
      ≡ done (
        tt,
        record e {
          cpu =
              started
                (u16 (bit_or (e.rom.bytes (bank_end e - 3) <<< 8) (e.rom.bytes (bank_end e - 4))))
                e.cpu;
        },
      )
unfolding cpu_init ◌>>=◌
cpu_init-done e b =
    let e' = record e {
      cpu = record (started 0 e.cpu) { pc = e.cpu.pc; is_logging = e.cpu.is_logging };
    } in
    rw (cpu_init, ◌>>=◌, modify_cpu, read_reset e' (record { banks = b.banks; fits = b.fits })) refl

-- the state in which the mapper is started, and the one in which the CPU is
abbrev inserted : Rom → Emulator → Emulator
inserted rom e = record e {
  rom = rom;
  event = 0;
  is_running = 0;
  cur_frame = 0;
  time_point_start = 0;
  frame_times = fill 0;
  ppu = ppu_reset e.ppu;
  mem = record e.mem { ram = fill 0; cartridge_ram = fill 0; controller_shift_register = 0 };
}

abbrev loaded : Rom → Emulator → Emulator
loaded rom e = record (inserted rom e) { mapper = fill_mapper (header_of rom.bytes) e.mapper }

loaded-HasBanks : (rom : Rom) (e : Emulator) → IsImage rom → HasBanks (loaded rom e)
unfolding fill_mapper
loaded-HasBanks rom e m = record { banks = m.banks; fits = ground (arith, m.code) }

loaded-ChrFits :
    (rom : Rom) (e : Emulator) → IsImage rom → ChrFits (loaded rom e).mapper.chr_rom rom.size
unfolding fill_mapper
loaded-ChrFits rom e m = ground (arith, m.patterns)

init-done :
    (rom : Rom) (e : Emulator)
    → IsImage rom
    → emulator_init rom e
      ≡ done (
        tt,
        record (loaded rom e) {
          cpu =
              started
                (u16 (
                  bit_or
                    (rom.bytes (prg_end rom.bytes - 3) <<< 8)
                    (rom.bytes (prg_end rom.bytes - 4))))
                e.cpu;
        },
      )
unfolding emulator_init ppu_init init_cpu_mem fill_mapper ◌>>=◌
init-done rom e m =
    rw
      (
        emulator_init,
        ppu_init,
        init_cpu_mem,
        modify,
        modify_ppu,
        modify_mem,
        ◌>>=◌,
        mapper_init-done (inserted rom e) m,
        cpu_init-done (loaded rom e) (loaded-HasBanks rom e m),
      )
      refl

word : (high low : ℕ) → high < 256 → low < 256 → u16 (bit_or (high <<< 8) low) ≡ high * 256 + low
word high low h k = omega (arith, bit_or_fields 8 high low k)

-- For each file of an NROM cartridge with one or two banks of code, and any contents of the memory
-- of the emulator that fit its types, the initialisation returns: the invariant holds, the patterns of the cartridge
-- lie in their array, and the program counter is the reset vector of the last bank.
pub emulator_init-done :
    (rom : Rom) (e : Emulator)
    → IsImage rom
    → FitsTypes e
    → (e' : Emulator) × (emulator_init rom e ≡ done (tt, e'))
      × IsSound e'
      × (e'.cpu.pc ≡ reset_vector rom.bytes)
emulator_init-done rom e m f =
    let holds = (emulator_init-Leads rom m.bytes).at e f in
    (
      _,
      init-done rom e m,
      record {
        valid = (subst (Holds IsValid Any) (init-done rom e m) holds).1;
        chr = loaded-ChrFits rom e m;
      },
      word _ _ (m.bytes.at _) (m.bytes.at _),
    )
