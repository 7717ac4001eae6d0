-- ===== src/Ppu/Fields.antt =====
-- The bit fields of the unions of emulator/ppu.h, over the `reg` of each; the first field is in
-- the lowest bits.
pub mod Ctrl
pub mod Mask
pub mod Status
pub mod VramAddr
