-- ===== src/Cpu.antt =====
-- emulator/cpu.c, one module for each group of its functions.
pub mod Valid
pub mod Flags
pub mod Shift
pub mod Arith
pub mod Address
pub mod Effective
pub mod Branch
pub mod ReadOps
pub mod WriteOps
pub mod StackOps
pub mod IllegalOps
pub mod Execute
pub mod Interrupt
pub mod Cycle
