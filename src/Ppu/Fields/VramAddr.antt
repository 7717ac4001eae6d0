-- ===== src/Ppu/Fields/VramAddr.antt =====
-- `VRAM_ADDR_REGISTER` of emulator/ppu.h
use nes_emulator.Prelude.{ℕ, get_bits, set_bits}

abbrev pub coarse_x : ℕ → ℕ
coarse_x = get_bits 0 5

abbrev pub set_coarse_x : ℕ → ℕ → ℕ
set_coarse_x = set_bits 0 5

abbrev pub coarse_y : ℕ → ℕ
coarse_y = get_bits 5 5

abbrev pub set_coarse_y : ℕ → ℕ → ℕ
set_coarse_y = set_bits 5 5

abbrev pub nametable_x : ℕ → ℕ
nametable_x = get_bits 10 1

abbrev pub set_nametable_x : ℕ → ℕ → ℕ
set_nametable_x = set_bits 10 1

abbrev pub nametable_y : ℕ → ℕ
nametable_y = get_bits 11 1

abbrev pub set_nametable_y : ℕ → ℕ → ℕ
set_nametable_y = set_bits 11 1

abbrev pub fine_y : ℕ → ℕ
fine_y = get_bits 12 3

abbrev pub set_fine_y : ℕ → ℕ → ℕ
set_fine_y = set_bits 12 3

-- the two bytes of the second struct, on a little-endian machine
abbrev pub set_low : ℕ → ℕ → ℕ
set_low = set_bits 0 8

abbrev pub set_high : ℕ → ℕ → ℕ
set_high = set_bits 8 8
