-- ===== src/Ppu/Fields/Status.antt =====
-- `PPU_STATUS_REGISTER` of emulator/ppu.h
use nes_emulator.Prelude.{ℕ, get_bits, set_bits}

abbrev pub unused : ℕ → ℕ
unused = get_bits 0 5

abbrev pub sprite_overflow : ℕ → ℕ
sprite_overflow = get_bits 5 1

abbrev pub set_sprite_overflow : ℕ → ℕ → ℕ
set_sprite_overflow = set_bits 5 1

abbrev pub sprite_zero_hit : ℕ → ℕ
sprite_zero_hit = get_bits 6 1

abbrev pub set_sprite_zero_hit : ℕ → ℕ → ℕ
set_sprite_zero_hit = set_bits 6 1

abbrev pub vblank : ℕ → ℕ
vblank = get_bits 7 1

abbrev pub set_vblank : ℕ → ℕ → ℕ
set_vblank = set_bits 7 1
