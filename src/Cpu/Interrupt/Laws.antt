-- ===== src/Cpu/Interrupt/Laws.antt =====
-- An interrupt and the return from it.
use nes_emulator.Prelude.{
  ℕ, ◌+◌, ◌%◌, ◌≤◌, ◌<◌, ◌≡◌, refl, Bool, true, truth, bit_and, bit_or, bit_not, arith, u8, u16,
  ◌==◌, all_below, all_below_sound, eqb→eq, update_self, add_size, ◌<<<◌,
}
use nes_emulator.State.{Emulator, Cpu, Interrupt, nmi, none}
use nes_emulator.Outcome.{done, ◌>>=◌, ◌>>◌}
use nes_emulator.Mem.{mem_read_16, put_ram}
use nes_emulator.Mem.Ram.{with_ram}
use nes_emulator.Mem.Rom.{mem_read_8-one_bank}
use nes_emulator.Mem.Stack.Laws.{
  with_word, push_16_lem, pop_16-with_byte, push_lem, pop_lem, round_trip,
}
use nes_emulator.Cpu.Flags.{interrupt, get_flag, set_flag}
use nes_emulator.Cpu.StackOps.{break_unused, pulled_status, run_rti}
use nes_emulator.Cpu.Interrupt.{
  nmi_vector_offset, enter_interrupt, dispatch_interrupt, handle_nes_interrupt,
}

-- the word at `a` in a cartridge with one bank
abbrev pub rom_word : ℕ → Emulator → ℕ
rom_word a e = u16 (
    bit_or (e.rom.bytes (e.mapper.prg_rom + u16 (a + 1) % 0x4000) <<< 8)
      (e.rom.bytes (e.mapper.prg_rom + a % 0x4000)))

-- a cartridge with one bank, which the file holds
pub record HasOneBank (e : Emulator) : Type 0 where
  pub one : e.mapper.prg_rom_size ≡ 1
  pub fits : e.mapper.prg_rom + 0x4000 ≤ e.rom.size

mem_read_16-one_bank :
    (a : ℕ) (e : Emulator)
    → 0x8000 ≤ a
    → a < 0xFFFF
    → HasOneBank e
    → mem_read_16 a e ≡ done (rom_word a e, e)
unfolding mem_read_16 ◌>>=◌
mem_read_16-one_bank a e h k b =
    rw
      (
        mem_read_8-one_bank (u16 (a + 1)) e (omega arith) b.one b.fits,
        ◌>>=◌,
        mem_read_8-one_bank a e h b.one b.fits,
        ◌>>=◌,
      )
      refl

-- The stack after an interrupt: the return address with the status below it.
abbrev pub interrupted : Emulator → Emulator
interrupted e = with_ram (0x0100 + u8 (e.cpu.sp + 254)) e.cpu.sr (with_word e.cpu.pc e)

abbrev entered : ℕ → Cpu → Cpu
entered pc c = record (set_flag interrupt 1 (record c { sp = u8 (u8 (c.sp + 254) + 255) })) {
  pc = pc;
  cycles = add_size c.cycles 7;
  pending_interrupt = none;
}

abbrev pushing : Emulator → Emulator
pushing e = record (interrupted e) {
  cpu = set_flag interrupt 1 (record e.cpu { sp = u8 (u8 (e.cpu.sp + 254) + 255) });
}

enter_interrupt_lem :
    (a : ℕ) (e : Emulator)
    → e.cpu.sp < 256
    → 0x8000 ≤ a
    → a < 0xFFFF
    → HasOneBank e
    → enter_interrupt a e ≡ done (tt, record (interrupted e) { cpu = entered (rom_word a e) e.cpu })
unfolding enter_interrupt set_flag put_ram ◌>>=◌
enter_interrupt_lem a e h k l b = rw (
  push_16_lem e.cpu.pc e h,
  ◌>>=◌,
  push_lem e.cpu.sr
      (record (with_word e.cpu.pc e) { cpu = record e.cpu { sp = u8 (e.cpu.sp + 254) } })
      (omega arith),
  ◌>>=◌,
  mem_read_16-one_bank a (pushing e) k l (record { one = b.one; fits = b.fits }),
  ◌>>=◌,
)

dispatch-nmi :
    (i : Interrupt) (masked : Bool) (e : Emulator)
    → i ≡ nmi
    → dispatch_interrupt i masked e ≡ enter_interrupt nmi_vector_offset e
unfolding dispatch_interrupt
dispatch-nmi i masked e h = rw h refl

handler_table :
    all_below 256
      (λ s. bit_or (bit_and (bit_or s 4) break_unused) (bit_and s (bit_not break_unused)) == s)
    ≡ true
unfolding all_below
handler_table = refl

handler_status :
    (s : ℕ)
    → s < 256
    → bit_or (bit_and (bit_or s 4) break_unused) (bit_and s (bit_not break_unused)) ≡ s
handler_status s h = eqb→eq _ _ (all_below_sound 256 _ s handler_table h)

-- With registers in range and a cartridge of one bank that the file holds, RTI right after the
-- entry into a pending NMI goes back to the interrupted instruction: the program counter, the
-- status with its masks and the stack pointer are as before, no interrupt is pending, and seven
-- cycles are counted; memory has the return address and the status below the stack pointer.
pub rti-nmi :
    (e : Emulator)
    → e.cpu.sp < 256
    → e.cpu.sr < 256
    → e.cpu.pc < 65536
    → e.cpu.pending_interrupt ≡ nmi
    → HasOneBank e
    → (handle_nes_interrupt >> run_rti) e
      ≡ done (
        tt,
        record (interrupted e) {
          cpu = record e.cpu { cycles = add_size e.cpu.cycles 7; pending_interrupt = none };
        },
      )
unfolding handle_nes_interrupt run_rti pulled_status set_flag put_ram ◌>>=◌
rti-nmi e h hs hp n b = rw (
  dispatch-nmi e.cpu.pending_interrupt (truth (get_flag interrupt e.cpu)) e n,
  enter_interrupt_lem nmi_vector_offset e h (omega arith) (omega arith) b,
  ◌>>=◌,
  pop_lem (record (interrupted e) { cpu = entered (rom_word nmi_vector_offset e) e.cpu }),
  ◌>>=◌,
  round_trip (u8 (e.cpu.sp + 254)) (omega arith),
  update_self (with_word e.cpu.pc e).mem.ram (0x0100 + u8 (e.cpu.sp + 254)) e.cpu.sr,
  handler_status e.cpu.sr hs,
  pop_16-with_byte e.cpu.pc e.cpu.sr e
      (record e.cpu {
        sp = u8 (e.cpu.sp + 254);
        pc = rom_word nmi_vector_offset e;
        cycles = add_size e.cpu.cycles 7;
        pending_interrupt = none;
      })
      h hp refl,
  ◌>>=◌,
)
