-- ===== src/Ppu/Colors.antt =====
-- The tables of emulator/ppu.h: the colours that the palette's entries stand for.
use nes_emulator.Prelude.{ℕ, [], ◌∷◌, get_or}

unfoldable pub nes_palette_rgb : ℕ → ℕ
nes_palette_rgb index =
    get_or
      (0x545454 ∷ 0x001E74 ∷ 0x081090 ∷ 0x300088 ∷ 0x440064 ∷ 0x5C0030 ∷ 0x540400 ∷ 0x3C1800
        ∷ 0x202A00 ∷ 0x083A00 ∷ 0x004000 ∷ 0x003C00 ∷ 0x00323C ∷ 0x000000 ∷ 0x000000 ∷ 0x000000
        ∷ 0x989698 ∷ 0x084CC4 ∷ 0x3032EC ∷ 0x5C1EE4 ∷ 0x8814B0 ∷ 0xA01464 ∷ 0x982220 ∷ 0x783C00
        ∷ 0x545A00 ∷ 0x287200 ∷ 0x087C00 ∷ 0x007628 ∷ 0x006678 ∷ 0x000000 ∷ 0x000000 ∷ 0x000000
        ∷ 0xECEEEC ∷ 0x4C9AEC ∷ 0x787CEC ∷ 0xB062EC ∷ 0xE454EC ∷ 0xEC58B4 ∷ 0xEC6A64 ∷ 0xD48820
        ∷ 0xA0AA00 ∷ 0x74C400 ∷ 0x4CD020 ∷ 0x38CC6C ∷ 0x38B4CC ∷ 0x3C3C3C ∷ 0x000000 ∷ 0x000000
        ∷ 0xECEEEC ∷ 0xA8CCEC ∷ 0xBCBCEC ∷ 0xD4B2EC ∷ 0xECAED4 ∷ 0xECA4A0 ∷ 0xECAE80 ∷ 0xECC280
        ∷ 0xD4C478 ∷ 0xB4DE88 ∷ 0xA8E2A8 ∷ 0xA8E2CC ∷ 0xA8D4E2 ∷ 0xA8A8A8 ∷ 0x000000 ∷ 0x000000
        ∷ [])
      index 0

-- `nes_palette_8bit`, for the board
unfoldable pub nes_palette_8bit : ℕ → ℕ
nes_palette_8bit index =
    get_or
      (0x55 ∷ 0x03 ∷ 0x25 ∷ 0xC5 ∷ 0xE3 ∷ 0xE1 ∷ 0xF0 ∷ 0xD8 ∷ 0x98 ∷ 0x38 ∷ 0x1C ∷ 0x18 ∷ 0x1B
        ∷ 0x00 ∷ 0x00 ∷ 0x00 ∷ 0xFF ∷ 0x37 ∷ 0xCF ∷ 0xF7 ∷ 0xF7 ∷ 0xEE ∷ 0xEC ∷ 0xF8 ∷ 0xDC ∷ 0x5C
        ∷ 0x3C ∷ 0x1F ∷ 0x1E ∷ 0x00 ∷ 0x00 ∷ 0x00 ∷ 0xFF ∷ 0xBF ∷ 0xEF ∷ 0xFF ∷ 0xFF ∷ 0xFD ∷ 0xFA
        ∷ 0xDD ∷ 0xF8 ∷ 0xFC ∷ 0xFD ∷ 0xBF ∷ 0x9F ∷ 0xB5 ∷ 0x00 ∷ 0x00 ∷ 0xFF ∷ 0xFF ∷ 0xFF ∷ 0xFF
        ∷ 0xFF ∷ 0xFF ∷ 0xFF ∷ 0xFF ∷ 0xFF ∷ 0xFF ∷ 0xFF ∷ 0xFF ∷ 0xFF ∷ 0xFF ∷ 0x00 ∷ 0x00 ∷ [])
      index 0
