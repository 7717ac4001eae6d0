-- ===== src/Tests/Memory.antt =====
-- The address space of the CPU at a concrete machine.
use nes_emulator.Prelude.{
  inr, true, leb, ◌||◌, ◌&&◌, ◌*◌, add_size, ◌+◌, ◌-◌, ◌%◌, ◌≡◌, [], ◌∷◌, refl, arith, ◌==◌,
  if◌then◌else◌, truth,
}
use nes_emulator.State.{horizontal, four_screen}
use nes_emulator.Outcome.{done, ◌>>◌}
use nes_emulator.Mapper.{INesHeader, header_mirroring}
use nes_emulator.Mapper.Laws.{header_mirroring_lem}
use nes_emulator.Mem.{mem_write_8, mem_read_8}
use nes_emulator.Mem.Ram.{with_ram, mem_read_8-mem_write_8}
use nes_emulator.Mem.Rom.{mem_read_8-rom}
use nes_emulator.State.{Emulator}
use nes_emulator.Mem.Controller.{keys, with_register, read_buttons, read_buttons-poll}
use nes_emulator.Mem.Exits.{is_exited-mem_write_8}
use nes_emulator.Outcome.Exits.{is_exited}
use nes_emulator.Ppu.Dma.{ppu_dma}
use nes_emulator.Ppu.Dma.Laws.{oam-ppu_dma}
use nes_emulator.Tests.Machine.{machine}

mem_read_8-mem_write_8_example :
    (mem_write_8 0x0012 0x99 >> mem_read_8 0x1812) machine
    ≡ done (
      if 0x1812 % 0x0800 == 0x0012 % 0x0800 then 0x99 else machine.mem.ram (0x1812 % 0x0800),
      with_ram (0x0012 % 0x0800) 0x99 machine,
    )
mem_read_8-mem_write_8_example =
    mem_read_8-mem_write_8 0x0012 0x1812 0x99 machine (omega arith) (omega arith)

abbrev two_banks : Emulator
two_banks = record machine {
  rom = record { bytes = λ i. i % 256; size = 0x8010 };
  mapper = record machine.mapper { prg_rom_size = 2 };
}

abbrev vertical_header : INesHeader
vertical_header = record {
  magic = b'N' ∷ b'E' ∷ b'S' ∷ 0x1A ∷ [];
  prg_rom_size = 1;
  chr_rom_size = 1;
  flags_6 = 0x01;
  flags_7 = 0;
  prg_ram_size = 0;
  flags_9 = 0;
  flags_10 = 0;
}

header_mirroring_lem_example :
    header_mirroring vertical_header
    ≡ (if truth (vertical_header.flags_6 % 4) then four_screen else horizontal)
header_mirroring_lem_example = header_mirroring_lem vertical_header

mem_read_8-rom_example :
    mem_read_8 0xFFFC two_banks
    ≡ done (
      two_banks.rom.bytes
          (two_banks.mapper.prg_rom + (0xFFFC - 0x8000) % (two_banks.mapper.prg_rom_size * 0x4000)),
      two_banks,
    )
mem_read_8-rom_example =
    mem_read_8-rom 0xFFFC two_banks (omega arith) (omega arith) (inr refl) (omega arith)

abbrev start_pressed : Emulator
start_pressed = record machine { keyboard = λ n. record (machine.keyboard n) { key_return = true } }

read_buttons-poll_example :
    (mem_write_8 0x4016 1 >> read_buttons 8) start_pressed
    ≡ done (
      keys (start_pressed.keyboard start_pressed.polls),
      with_register 0 (record start_pressed { polls = start_pressed.polls + 1 }),
    )
read_buttons-poll_example = read_buttons-poll 1 start_pressed

is_exited-mem_write_8_example :
    is_exited (mem_write_8 0x4014 0x80 machine)
    ≡ (leb 0x8000 0x4014 || 0x4014 == 0x4014 && leb 0x20 0x80)
is_exited-mem_write_8_example = is_exited-mem_write_8 0x4014 0x80 machine

abbrev middle : Emulator
middle = record machine { ppu = record machine.ppu { oam_addr = 0x80 } }

oam-ppu_dma_example :
    (e' : Emulator) × (ppu_dma 0x02 middle ≡ done (tt, e'))
    × (e'.ppu.oam ((middle.ppu.oam_addr + 0x90) % 256)
        ≡ middle.mem.ram ((0x02 * 256 + 0x90) % 0x0800))
    × (e'.cpu.dma_cycles ≡ add_size middle.cpu.dma_cycles (513 + middle.cpu.total_cycles % 2))
    × (e'.mem ≡ middle.mem)
oam-ppu_dma_example = oam-ppu_dma 0x02 0x90 middle (omega arith) (omega arith) (omega arith)
