-- ===== src/Ppu/Registers/Valid.antt =====
-- The register functions of the PPU keep its invariant.
use nes_emulator.Prelude.{ℕ, ◌<◌, arith}
use nes_emulator.Prelude.Bits.{bit_and_mask}
use nes_emulator.State.{Ppu}
use nes_emulator.State.Valid.{PpuIsValid}
use nes_emulator.Ppu.Registers.{ppu_set_ctrl, ppu_read_status, ppu_set_scroll, ppu_set_vram_addr}

pub ppu_set_ctrl-IsValid :
    (value : ℕ) → value < 256 → (p : Ppu) → PpuIsValid p → PpuIsValid (ppu_set_ctrl value p)
unfolding ppu_set_ctrl
ppu_set_ctrl-IsValid value h p v = ground arith

pub ppu_read_status-IsValid : (p : Ppu) → PpuIsValid p → PpuIsValid (ppu_read_status p).1
unfolding ppu_read_status
ppu_read_status-IsValid p v = ground arith

pub ppu_set_scroll-IsValid :
    (value : ℕ) → value < 256 → (p : Ppu) → PpuIsValid p → PpuIsValid (ppu_set_scroll value p)
unfolding ppu_set_scroll
ppu_set_scroll-IsValid value h p v = ground (arith, bit_and_mask 3 value)

pub ppu_set_vram_addr-IsValid :
    (half : ℕ) → half < 256 → (p : Ppu) → PpuIsValid p → PpuIsValid (ppu_set_vram_addr half p)
unfolding ppu_set_vram_addr
ppu_set_vram_addr-IsValid half h p v = ground (arith, bit_and_mask 6 half)
