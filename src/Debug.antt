-- ===== src/Debug.antt =====
-- dev/debug.c: the debug screen and the log of instructions.
pub mod Screen
pub mod Log
pub mod Names
pub mod Line
pub mod Dump
