-- ===== src/Mapper/Laws.antt =====
-- What the mapper takes from the header of the file.
use nes_emulator.Prelude.{◌%◌, ◌≡◌, arith, truth, if◌then◌else◌}
use nes_emulator.Prelude.Bits.{bit_and_mask}
use nes_emulator.State.{horizontal, four_screen}
use nes_emulator.Mapper.{INesHeader, header_mirroring}

-- The header selects horizontal mirroring where both low bits of flags 6 are clear, and four
-- screens otherwise: never vertical mirroring.
pub header_mirroring_lem :
    (h : INesHeader)
    → header_mirroring h ≡ (if truth (h.flags_6 % 4) then four_screen else horizontal)
unfolding header_mirroring
header_mirroring_lem h = ground (arith, bit_and_mask 2 h.flags_6, bit_and_mask 1 h.flags_6)
