-- ===== src/Ppu/Dma.antt =====
-- `ppu_dma` of emulator/ppu.c, with `mem_get_pointer` of emulator/mem.c.
pub mod Valid
pub mod Laws
use nes_emulator.Prelude.{
  ℕ, ◌+◌, ◌-◌, ◌*◌, bit_and, Bytes, copy, ltb, leb, truth, if◌then◌else◌, ◌<<<◌, add_size,
}
use nes_emulator.State.{Emulator, Ppu}
use nes_emulator.Outcome.{
  Run, out_of_bounds, exit_failure, ◌>>=◌, ◌>>◌, gets, modify_ppu, modify_cpu,
}

-- A pointer into the RAM, by its index, or NULL.
pub data RamPointer : Type 0 where
  null : RamPointer
  at_ram : ℕ → RamPointer

unfoldable pub mem_get_pointer : ℕ → RamPointer
mem_get_pointer address = if ltb address 0x2000 then at_ram (bit_and address 0x7FF) else null

-- the two `memcpy` calls, from 256 bytes of `ram` at index `ptr` to the whole of `oam`
unfoldable pub copy_page : Bytes → ℕ → Ppu → Ppu
copy_page ram ptr p =
    let head = copy p.oam p.oam_addr ram ptr (256 - p.oam_addr) in
    record p {
      oam =
          if truth p.oam_addr then copy head 0 ram (ptr + (256 - p.oam_addr)) p.oam_addr else head;
    }

unfoldable pub transfer : RamPointer → Run (Unit {0})
transfer null = exit_failure
transfer (at_ram ptr) = do
  ram ← gets (λ e. e.mem.ram)
  if leb (ptr + 256) 0x0800 then modify_ppu (copy_page ram ptr) else out_of_bounds

unfoldable pub ppu_dma : ℕ → Run (Unit {0})
ppu_dma page = do
  transfer (mem_get_pointer (page <<< 8))
  modify_cpu (λ c. record c { dma_cycles = add_size c.dma_cycles (513 + bit_and c.total_cycles 1) })
