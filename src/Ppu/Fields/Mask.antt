-- ===== src/Ppu/Fields/Mask.antt =====
-- `PPU_MASK_REGISTER` of emulator/ppu.h
use nes_emulator.Prelude.{ℕ, get_bits}

abbrev pub grayscale : ℕ → ℕ
grayscale = get_bits 0 1

abbrev pub render_background_left : ℕ → ℕ
render_background_left = get_bits 1 1

abbrev pub render_sprites_left : ℕ → ℕ
render_sprites_left = get_bits 2 1

abbrev pub render_background : ℕ → ℕ
render_background = get_bits 3 1

abbrev pub render_sprites : ℕ → ℕ
render_sprites = get_bits 4 1

abbrev pub enhance_red : ℕ → ℕ
enhance_red = get_bits 5 1

abbrev pub enhance_green : ℕ → ℕ
enhance_green = get_bits 6 1

abbrev pub enhance_blue : ℕ → ℕ
enhance_blue = get_bits 7 1
