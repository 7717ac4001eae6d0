-- ===== src/Lib.antt =====
-- An NES emulator: a 6502 CPU, a picture processing unit (PPU), the CPU's address space with the
-- stack and the controller, and an NROM cartridge. `emulator_run` steps the PPU three times and
-- the CPU once, over and over. The devices share one `Emulator`: the CPU reads and writes the
-- PPU's registers, the RAM and the cartridge through `mem_read_8` and `mem_write_8`; the PPU reads
-- its patterns through the mapper, sets the pending interrupt of the CPU, and takes cycles from it
-- for the copy to the object memory.
--
-- State has the structs of emulator/*.h as records, with the invariant in State/Valid. Code that
-- changes the emulator is a `Run` (Outcome): it returns a value and the new emulator, or ends as
-- `exited` where the source calls exit(EXIT_FAILURE), or as `undefined` where it accesses an array
-- outside of its bounds. Outcome/Ensures has the rules for what such code keeps true if it
-- returns, Outcome/Leads the rules for code that goes from one condition to another,
-- Outcome/Returns those for code that returns, and Outcome/Exits those for code that does not end
-- the program. Registers and bytes are natural numbers, with the wrap-around of the C type written
-- out.
--
-- Opcodes is emulator/opcodes.h. Cpu is emulator/cpu.c: Flags (get_flag, set_flag, set_ZN_flags),
-- Shift (shift_left to rotate_right), Arith (ADC, SBC and the comparisons), Address (set_address),
-- Branch (branch_if), ReadOps, WriteOps, StackOps and IllegalOps (the cases of
-- execute_instruction), Execute (the switch), Interrupt (handle_nes_interrupt) and Cycle
-- (cpu_init, cpu_run_cycle). Mem is emulator/mem.c, with the stack in Mem/Stack, and
-- sdl_poll_events of dev/sdl-instance.c. Mapper is emulator/mapper.c. Ppu is emulator/ppu.c:
-- Fields (the unions of ppu.h), Registers, Vram, Dma, Scroll, Shifters, Background, Sprites, Draw
-- and Cycle (ppu_run_cycle). Driver is emulator/emulator.c, with emulator_run and its frame loop;
-- Driver/Main is emulator/main.c with emulator_nestest, Driver/Steps has the steps of the frame
-- loop in any order as a relation on states, and Driver/Order a run of it in its order. Beam is
-- about the place of the PPU's beam and the cartridge's patterns, and Ppu/Returns about the
-- accesses in a cycle of the PPU. Cpu/Effective describes the addressing modes as arithmetic, and
-- Cpu/Cycle/Decode an instruction by it. The modules Laws and Valid below a part are about what it
-- computes, and about the invariant. Invariants states the invariant of the operations that the
-- devices call. Tests has the properties at a concrete machine.
--
-- Window is the buffer of pixels of dev/sdl-instance.c, and Window/Session what is acquired and
-- released for the window. Board is the code for the board: Text and Memory are
-- dtekv-build/dtekv-lib.c with dtekv-drivers/vga-screen.c, and Pins is
-- dtekv-drivers/nes-controller.c with get_elapsed_us of emulator/timer.c. Debug is dev/debug.c:
-- Screen (debug_draw_screen), Log (is_illegal, log_address_mode_info), Line
-- (debug_log_instruction), Names (opcode_name_lookup) and Dump (debug_memory_dump and
-- debug_memory_dump_ascii).
--
-- The loops of the source run over a count that is known when they start (64 objects, the sprites
-- of a line, the 16 bytes of the header): they are structural recursion on the passes that are
-- left, and need no fuel. The loop of emulator_run over a frame has no such count: run_frame takes
-- the steps that it may make, 29781 in emulator_frame, since each step moves the beam by three of
-- the 262 * 341 dots, or by one more where a dot is skipped. The outer loop of emulator_run is
-- over a list with what the host gives in each frame. emulator_nestest takes the steps that it may
-- make as an argument: how many a run needs depends on the file. In main, sdl_instance_init and
-- sdl_instance_destroy around the run are left out: Window/Session has them, apart from the
-- emulator.
--
-- Parameters: the bytes and the size of the rom file and whether it can be read, the answers of
-- SDL and of malloc, the state of the keyboard at each poll, what the host gives in each frame,
-- and what the pins of the board show. Where the two builds differ inside of a device, the model
-- is of the build for a regular computer, not of the code under RISC_V. The unsequenced order of
-- the two reads in mem_read_16 is fixed, high byte first. Not modelled: the call of
-- debug_log_instruction in cpu_run_cycle, which prints only; the showing of the window by SDL, its
-- events and its title with the frame rates in floating point (dev/sdl-instance.c,
-- emulator/emulator.c), the clock of the host (emulator/timer.c), debug_pause_screen, an endless
-- loop of output (dev/debug.c), and the UART, the exceptions and the start of the board
-- (dtekv-build).
pub mod Prelude
pub mod State
pub mod Outcome
pub mod Opcodes
pub mod Mapper
pub mod Ppu
pub mod Mem
pub mod Cpu
pub mod Beam
pub mod Driver
pub mod Invariants
pub mod Window
pub mod Board
pub mod Debug
pub mod Tests
