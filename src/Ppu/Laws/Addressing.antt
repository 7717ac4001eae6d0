-- ===== src/Ppu/Laws/Addressing.antt =====
-- The addresses that the CPU sets, and the counters of the scroll.
use nes_emulator.Prelude.{
  ℕ, ◌+◌, ◌-◌, ◌*◌, ◌%◌, ◌<◌, ◌≡◌, arith, ◌==◌, if◌then◌else◌, bit_xor, refl, true, all_below,
  all_below_sound, eqb→eq,
}
use nes_emulator.Prelude.Bits.{bit_and_mask}
use nes_emulator.State.{Ppu}
use nes_emulator.Ppu.Fields.VramAddr
use nes_emulator.Ppu.Registers.{ppu_set_vram_addr}
use nes_emulator.Ppu.Scroll.{next_scroll_x, next_scroll_y}

-- Two writes to PPU_ADDR, from a clear latch on, set the address to the low six bits of the first
-- byte above the second byte, and clear the latch.
pub set_vram_addr-twice :
    (hi lo : ℕ) (p : Ppu)
    → p.write_latch ≡ 0
    → lo < 256
    → p.temp_addr < 65536
    → ((ppu_set_vram_addr lo (ppu_set_vram_addr hi p)).vram_addr ≡ hi % 64 * 256 + lo)
      × ((ppu_set_vram_addr lo (ppu_set_vram_addr hi p)).write_latch ≡ 0)
unfolding ppu_set_vram_addr
set_vram_addr-twice hi lo p h hl ht =
    (ground (arith, bit_and_mask 6 hi), ground (arith, bit_and_mask 6 hi))

-- the row of the picture that an address selects, of the 30 rows of 8 lines of a name table
abbrev pub scroll_row : ℕ → ℕ
scroll_row v = VramAddr.coarse_y v * 8 + VramAddr.fine_y v

-- On one of the 240 lines of a name table, the vertical increment goes to the next line, after
-- the last one to the first line of the other table, and keeps the horizontal counters.
pub scroll_row-next_scroll_y :
    (v : ℕ)
    → v < 32768
    → scroll_row v < 240
    → (scroll_row (next_scroll_y v) ≡ (scroll_row v + 1) % 240)
      × (VramAddr.nametable_y (next_scroll_y v)
          ≡ (if scroll_row v == 239 then 1 - VramAddr.nametable_y v else VramAddr.nametable_y v))
      × (VramAddr.coarse_x (next_scroll_y v) ≡ VramAddr.coarse_x v)
      × (VramAddr.nametable_x (next_scroll_y v) ≡ VramAddr.nametable_x v)
unfolding next_scroll_y
scroll_row-next_scroll_y v h hr = (ground arith, ground arith, ground arith, ground arith)

xor_table : all_below 2 (λ b. bit_xor b b == 0) ≡ true
unfolding all_below
xor_table = refl

xor_self : (b : ℕ) → b < 2 → bit_xor b b ≡ 0
xor_self b h = eqb→eq _ _ (all_below_sound 2 _ b xor_table h)

-- The horizontal increment counts the 32 tiles of a row. After the last one it selects the left
-- name table, whichever one was selected.
pub coarse_x-next_scroll_x :
    (v : ℕ)
    → v < 65536
    → (VramAddr.coarse_x (next_scroll_x v) ≡ (VramAddr.coarse_x v + 1) % 32)
      × (VramAddr.nametable_x (next_scroll_x v)
          ≡ (if VramAddr.coarse_x v == 31 then 0 else VramAddr.nametable_x v))
      × (VramAddr.coarse_y (next_scroll_x v) ≡ VramAddr.coarse_y v)
      × (VramAddr.fine_y (next_scroll_x v) ≡ VramAddr.fine_y v)
unfolding next_scroll_x
coarse_x-next_scroll_x v h = (
  ground arith,
  ground (arith, xor_self (VramAddr.nametable_x (VramAddr.set_coarse_x 0 v)) (omega arith)),
  ground arith,
  ground arith,
)
