-- ===== src/Board.antt =====
-- The code for the board: dtekv-build/dtekv-lib.c, dtekv-drivers and the clock of emulator/timer.c
-- under RISC_V.
pub mod Memory
pub mod Text
pub mod Pins
