-- ===== src/Beam/Memory.antt =====
-- The address spaces of the CPU and of the PPU leave the counters of the picture alone.
use nes_emulator.Prelude.{Bytes, ℕ, ◌≡◌, refl, arith, ◌∙◌}
use nes_emulator.State.{Ppu, ChrPointer, in_rom, in_chr_ram}
use nes_emulator.Outcome.{pure, ◌>>◌, modify_ppu}
use nes_emulator.Outcome.Ensures.{
  Ensures, Any, any, Ensures-pure, Ensures-bind, Ensures-exit, bind-Any,
}
use nes_emulator.Beam.{Course, beam, AtBeam, beam_rules, get_ppu-AtBeam}
use nes_emulator.Mapper.{rom_byte, nrom_read_prg, read_chr_at, nrom_read_chr, nrom_write_chr_ram}
use nes_emulator.Ppu.Registers.{ppu_set_ctrl, ppu_read_status, ppu_set_scroll, ppu_set_vram_addr}
use nes_emulator.Ppu.Vram.{
  calculate_vram_index, increment_vram_addr, write_palette, put_vram, store_vram_data,
  ppu_write_vram_data, fill_read_buffer, ppu_read_vram_data, ppu_const_read_vram_data,
}
use nes_emulator.Ppu.Dma.{RamPointer, null, at_ram, copy_page, transfer, ppu_dma}
use nes_emulator.Mem.{
  sdl_poll_events, poll_controller, write_ram, write_oam_data, write_ppu_register,
  write_io_register, write_cartridge_ram, mem_write_8, read_ppu_register, read_controller,
  read_cartridge_ram, mem_read_8, mem_read_16,
}

beam-ppu_set_ctrl : (value : ℕ) → (p : Ppu) → beam (ppu_set_ctrl value p) ≡ beam p
unfolding ppu_set_ctrl
beam-ppu_set_ctrl value p = ground arith

beam-ppu_set_scroll : (value : ℕ) → (p : Ppu) → beam (ppu_set_scroll value p) ≡ beam p
unfolding ppu_set_scroll
beam-ppu_set_scroll value p = ground arith

beam-ppu_set_vram_addr : (value : ℕ) → (p : Ppu) → beam (ppu_set_vram_addr value p) ≡ beam p
unfolding ppu_set_vram_addr
beam-ppu_set_vram_addr value p = ground arith

beam-increment_vram_addr : (p : Ppu) → beam (increment_vram_addr p) ≡ beam p
unfolding increment_vram_addr
beam-increment_vram_addr p = ground arith

beam-write_palette :
    (address : ℕ) (value : ℕ) → (p : Ppu) → beam (write_palette address value p) ≡ beam p
unfolding write_palette
beam-write_palette address value p = ground arith

beam-put_vram : (i : ℕ) (value : ℕ) → (p : Ppu) → beam (put_vram i value p) ≡ beam p
unfolding put_vram
beam-put_vram i value p = ground arith

beam-write_oam_data : (value : ℕ) → (p : Ppu) → beam (write_oam_data value p) ≡ beam p
unfolding write_oam_data
beam-write_oam_data value p = ground arith

beam-copy_page : (ram : Bytes) (ptr : ℕ) (p : Ppu) → beam (copy_page ram ptr p) ≡ beam p
unfolding copy_page
beam-copy_page ram ptr p = ground arith

beam-ppu_read_status : (p : Ppu) → beam (ppu_read_status p).1 ≡ beam p
unfolding ppu_read_status
beam-ppu_read_status p = refl

ruleset same_beam = (
  beam_rules, beam-ppu_set_ctrl, beam-ppu_set_scroll, beam-ppu_set_vram_addr,
  beam-increment_vram_addr, beam-write_palette, beam-put_vram, beam-write_oam_data, beam-copy_page,
)

module _ {b : Course} where
  pub rom_byte-AtBeam : (i : ℕ) → Ensures (AtBeam b) Any (rom_byte i)
  unfolding rom_byte
  rom_byte-AtBeam i = search (same_beam) depth 12

  pub nrom_read_prg-AtBeam : (address : ℕ) → Ensures (AtBeam b) Any (nrom_read_prg address)
  unfolding nrom_read_prg
  nrom_read_prg-AtBeam address = search (same_beam, rom_byte-AtBeam) depth 12

  read_chr_at-AtBeam :
      (c : ChrPointer) (address : ℕ) → Ensures (AtBeam b) Any (read_chr_at c address)
  unfolding read_chr_at
  read_chr_at-AtBeam (in_rom offset) address = rom_byte-AtBeam _
  read_chr_at-AtBeam in_chr_ram address = search same_beam

  pub nrom_read_chr-AtBeam : (address : ℕ) → Ensures (AtBeam b) Any (nrom_read_chr address)
  unfolding nrom_read_chr
  nrom_read_chr-AtBeam address = search (same_beam, read_chr_at-AtBeam) depth 12

  pub nrom_write_chr_ram-AtBeam :
      (address : ℕ) (value : ℕ) → Ensures (AtBeam b) Any (nrom_write_chr_ram address value)
  unfolding nrom_write_chr_ram
  nrom_write_chr_ram-AtBeam address value = search (same_beam) depth 12

  pub calculate_vram_index-AtBeam :
      (address : ℕ) → Ensures (AtBeam b) Any (calculate_vram_index address)
  unfolding calculate_vram_index
  calculate_vram_index-AtBeam address = search (same_beam) depth 12

  pub store_vram_data-AtBeam :
      (address : ℕ) (value : ℕ) → Ensures (AtBeam b) Any (store_vram_data address value)
  unfolding store_vram_data
  store_vram_data-AtBeam address value =
      search (same_beam, nrom_write_chr_ram-AtBeam, calculate_vram_index-AtBeam) depth 12

  pub ppu_write_vram_data-AtBeam : (value : ℕ) → Ensures (AtBeam b) Any (ppu_write_vram_data value)
  unfolding ppu_write_vram_data
  ppu_write_vram_data-AtBeam value = search (same_beam, store_vram_data-AtBeam) depth 12

  pub fill_read_buffer-AtBeam : (address : ℕ) → Ensures (AtBeam b) Any (fill_read_buffer address)
  unfolding fill_read_buffer
  fill_read_buffer-AtBeam address =
      search (same_beam, nrom_read_chr-AtBeam, calculate_vram_index-AtBeam) depth 12

  pub ppu_read_vram_data-AtBeam : Ensures (AtBeam b) Any ppu_read_vram_data
  unfolding ppu_read_vram_data
  ppu_read_vram_data-AtBeam = search (same_beam, fill_read_buffer-AtBeam) depth 12

  pub ppu_const_read_vram_data-AtBeam :
      (address : ℕ) → Ensures (AtBeam b) Any (ppu_const_read_vram_data address)
  unfolding ppu_const_read_vram_data
  ppu_const_read_vram_data-AtBeam address =
      search (same_beam, nrom_read_chr-AtBeam, calculate_vram_index-AtBeam) depth 12

  transfer-AtBeam : (p : RamPointer) → Ensures (AtBeam b) Any (transfer p)
  unfolding transfer
  transfer-AtBeam null = Ensures-exit
  transfer-AtBeam (at_ram ptr) = search same_beam

  pub ppu_dma-AtBeam : (page : ℕ) → Ensures (AtBeam b) Any (ppu_dma page)
  unfolding ppu_dma
  ppu_dma-AtBeam page = search (same_beam, transfer-AtBeam) depth 12

  pub sdl_poll_events-AtBeam : Ensures (AtBeam b) Any sdl_poll_events
  unfolding sdl_poll_events
  sdl_poll_events-AtBeam = search (same_beam) depth 12

  pub poll_controller-AtBeam : Ensures (AtBeam b) Any poll_controller
  unfolding poll_controller
  poll_controller-AtBeam = search (same_beam, sdl_poll_events-AtBeam) depth 12

  pub write_ram-AtBeam :
      (address : ℕ) (value : ℕ) → Ensures (AtBeam b) Any (write_ram address value)
  unfolding write_ram
  write_ram-AtBeam address value = search (same_beam) depth 12

  pub write_ppu_register-AtBeam :
      (address : ℕ) (value : ℕ) → Ensures (AtBeam b) Any (write_ppu_register address value)
  unfolding write_ppu_register
  write_ppu_register-AtBeam address value = search (same_beam, ppu_write_vram_data-AtBeam) depth 18

  pub write_io_register-AtBeam :
      (address : ℕ) (value : ℕ) → Ensures (AtBeam b) Any (write_io_register address value)
  unfolding write_io_register
  write_io_register-AtBeam address value =
      search (same_beam, ppu_dma-AtBeam, poll_controller-AtBeam) depth 12

  pub write_cartridge_ram-AtBeam :
      (address : ℕ) (value : ℕ) → Ensures (AtBeam b) Any (write_cartridge_ram address value)
  unfolding write_cartridge_ram
  write_cartridge_ram-AtBeam address value = search (same_beam) depth 12

  pub mem_write_8-AtBeam :
      (address : ℕ) (value : ℕ) → Ensures (AtBeam b) Any (mem_write_8 address value)
  unfolding mem_write_8
  mem_write_8-AtBeam address value =
      search
        (
          same_beam, write_ram-AtBeam, write_ppu_register-AtBeam, write_io_register-AtBeam,
          write_cartridge_ram-AtBeam,
        )
        depth 12

  read_status-AtBeam :
      (p : Ppu)
      → beam p ≡ b.beam
      → Ensures
          (AtBeam b)
          Any
          (modify_ppu (λ _. (ppu_read_status p).1) >> pure (ppu_read_status p).0)
  unfolding modify_ppu
  read_status-AtBeam p h =
      bind-Any _ _ (record { at = λ e k. (any, (beam-ppu_read_status p ∙ h, k.1)) })
        λ _. Ensures-pure _ any

  read_ppu_register-AtBeam : (address : ℕ) → Ensures (AtBeam b) Any (read_ppu_register address)
  unfolding read_ppu_register
  read_ppu_register-AtBeam address = Ensures-bind _ _ get_ppu-AtBeam λ p h.
      let status = read_status-AtBeam p h in
      search (same_beam, status, ppu_read_vram_data-AtBeam) depth 8

  pub read_controller-AtBeam : Ensures (AtBeam b) Any read_controller
  unfolding read_controller
  read_controller-AtBeam = search (same_beam) depth 12

  pub read_cartridge_ram-AtBeam :
      (address : ℕ) → Ensures (AtBeam b) Any (read_cartridge_ram address)
  unfolding read_cartridge_ram
  read_cartridge_ram-AtBeam address = search (same_beam) depth 12

  pub mem_read_8-AtBeam : (address : ℕ) → Ensures (AtBeam b) Any (mem_read_8 address)
  unfolding mem_read_8
  mem_read_8-AtBeam address =
      search
        (
          same_beam, read_ppu_register-AtBeam, read_controller-AtBeam, read_cartridge_ram-AtBeam,
          nrom_read_prg-AtBeam,
        )
        depth 12

  pub mem_read_16-AtBeam : (address : ℕ) → Ensures (AtBeam b) Any (mem_read_16 address)
  unfolding mem_read_16
  mem_read_16-AtBeam address = search (same_beam, mem_read_8-AtBeam) depth 12
