-- ===== src/Cpu/Valid.antt =====
-- The CPU keeps the invariant of the emulator: registers first, then each group of instructions.
mod Registers
pub mod Reads
mod Writes
mod Stack
mod Illegal
pub mod Execute
pub mod Cycle
