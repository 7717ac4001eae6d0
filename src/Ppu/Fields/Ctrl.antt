-- ===== src/Ppu/Fields/Ctrl.antt =====
-- `PPU_CTRL_REGISTER` of emulator/ppu.h
use nes_emulator.Prelude.{ℕ, get_bits}

abbrev pub nametable_x : ℕ → ℕ
nametable_x = get_bits 0 1

abbrev pub nametable_y : ℕ → ℕ
nametable_y = get_bits 1 1

abbrev pub increment : ℕ → ℕ
increment = get_bits 2 1

abbrev pub pattern_sprite : ℕ → ℕ
pattern_sprite = get_bits 3 1

abbrev pub pattern_background : ℕ → ℕ
pattern_background = get_bits 4 1

abbrev pub sprite_size : ℕ → ℕ
sprite_size = get_bits 5 1

abbrev pub slave_mode : ℕ → ℕ
slave_mode = get_bits 6 1

abbrev pub enable_nmi : ℕ → ℕ
enable_nmi = get_bits 7 1
