-- ===== src/Ppu/Laws.antt =====
-- What the parts of the PPU compute.
pub mod Timing
pub mod Addressing
pub mod Sprites
pub mod Held
pub mod Nametables
