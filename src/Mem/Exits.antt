-- ===== src/Mem/Exits.antt =====
-- Which writes of the CPU end the program.
use nes_emulator.Prelude.{
  ℕ, ◌+◌, ◌≡◌, refl, ap, sym, ◌∙◌, arith, Bool-cases, inl, inr, ◌&&◌, ◌||◌, bit_and, leb, ◌==◌,
}
use nes_emulator.State.{Emulator}
use nes_emulator.Outcome.{exited, bind-done, Run, pure, exit_failure, ◌>>=◌, ◌>>◌}
use nes_emulator.Outcome.Exits.{is_exited, GoesOn, goes_on_rules}
use nes_emulator.Mapper.{nrom_write_chr_ram}
use nes_emulator.Ppu.Vram.{calculate_vram_index, store_vram_data, ppu_write_vram_data}
use nes_emulator.Ppu.Dma.{ppu_dma}
use nes_emulator.Ppu.Dma.Laws.{transferred, ppu_dma_lem, ppu_dma-exits}
use nes_emulator.Mem.{
  mem_write_8, write_ram, write_ppu_register, poll_controller, sdl_poll_events, write_io_register,
  write_cartridge_ram,
}

poll-GoesOn : GoesOn poll_controller
unfolding poll_controller sdl_poll_events
poll-GoesOn = search goes_on_rules depth 9

write_ram-GoesOn : (a v : ℕ) → GoesOn (write_ram a v)
unfolding write_ram
write_ram-GoesOn a v = search goes_on_rules depth 5

write_cartridge_ram-GoesOn : (a v : ℕ) → GoesOn (write_cartridge_ram a v)
unfolding write_cartridge_ram
write_cartridge_ram-GoesOn a v = search goes_on_rules depth 5

write_chr-GoesOn : (a v : ℕ) → GoesOn (nrom_write_chr_ram a v)
unfolding nrom_write_chr_ram
write_chr-GoesOn a v = search goes_on_rules depth 5

index-GoesOn : (a : ℕ) → GoesOn (calculate_vram_index a)
unfolding calculate_vram_index
index-GoesOn a = search goes_on_rules depth 9

write_vram-GoesOn : (v : ℕ) → GoesOn (ppu_write_vram_data v)
unfolding ppu_write_vram_data store_vram_data
write_vram-GoesOn v = search (goes_on_rules, write_chr-GoesOn, index-GoesOn) depth 12

write_ppu_register-GoesOn : (a v : ℕ) → GoesOn (write_ppu_register a v)
unfolding write_ppu_register
write_ppu_register-GoesOn a v = search (goes_on_rules, write_vram-GoesOn) depth 14

after_exit :
    {A B : Type 0} (m : Run A) (f : A → Run B) (e : Emulator) → m e ≡ exited → (m >>= f) e ≡ exited
unfolding ◌>>=◌
after_exit m f e h = rw (h, ◌>>=◌) refl

is_exited-dma : (v : ℕ) (e : Emulator) → is_exited ((ppu_dma v >> poll_controller) e) ≡ leb 0x20 v
unfolding is_exited
is_exited-dma v e = elim (Bool-cases (leb 0x20 v)) [
  | inl beyond ↦
      ap is_exited
        (after_exit (ppu_dma v) (λ _. poll_controller) e (ppu_dma-exits v e (ground arith)))
      ∙ sym beyond
  | inr inside ↦
      ap is_exited (
        bind-done (ppu_dma v) (λ _. poll_controller) e (transferred v e) tt
          (ppu_dma_lem v e (ground arith)))
      ∙ poll-GoesOn.at (transferred v e)
      ∙ sym inside
]

is_exited-io :
    (a v : ℕ) (e : Emulator) → is_exited (write_io_register a v e) ≡ (a == 0x4014 && leb 0x20 v)
unfolding is_exited write_io_register pure
is_exited-io a v e = ground (arith, is_exited-dma v e, poll-GoesOn.at e)

-- Exactly the writes to 0x8000 and above, and to 0x4014 with a page outside of the RAM and its
-- mirrors, end the program: no other write does, whatever the state.
pub is_exited-mem_write_8 :
    (a v : ℕ) (e : Emulator)
    → is_exited (mem_write_8 a v e) ≡ (leb 0x8000 a || a == 0x4014 && leb 0x20 v)
unfolding is_exited mem_write_8 exit_failure
is_exited-mem_write_8 a v e = ground (
  arith,
  (write_ram-GoesOn a v).at e,
  (write_ppu_register-GoesOn (bit_and a 0x0007 + 0x2000) v).at e,
  is_exited-io a v e,
  (write_cartridge_ram-GoesOn a v).at e,
)
