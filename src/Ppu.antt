-- ===== src/Ppu.antt =====
-- emulator/ppu.c and ppu.h, one module for each group of its functions.
pub mod Fields
pub mod Registers
pub mod Vram
pub mod Dma
pub mod Scroll
pub mod Colors
pub mod Shifters
pub mod Background
pub mod Sprites
pub mod Draw
pub mod Cycle
pub mod Valid
pub mod Laws
pub mod Returns
