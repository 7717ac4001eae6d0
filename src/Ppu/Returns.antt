-- ===== src/Ppu/Returns.antt =====
-- The accesses in a cycle of the PPU, for a cartridge whose pattern tables are inside of the file.
mod Reads
mod Background
mod Pixels
mod Sprites
pub mod Cycle
pub use Reads.{ChrFits, IsSound, read-Returns}
