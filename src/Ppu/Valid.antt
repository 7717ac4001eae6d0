-- ===== src/Ppu/Valid.antt =====
-- A cycle of the PPU keeps the invariant of the emulator.
pub mod Shifters
pub mod Sprites
pub mod Draw
pub mod Cycle
