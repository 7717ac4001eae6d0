-- ===== src/Ppu/Dma/Laws.antt =====
-- The copy to the object memory.
use nes_emulator.Prelude.{
  ℕ, ◌+◌, ◌-◌, ◌*◌, ◌%◌, ◌≤◌, ◌<◌, ◌≡◌, refl, ap, arith, Bool-cases, inl, inr, true, ◌∙◌, bit_and,
  Bytes, copy, ltb, leb, ◌<<<◌, add_size,
}
use nes_emulator.Prelude.Bits.{bit_and_mask}
use nes_emulator.State.{Emulator, Ppu}
use nes_emulator.Outcome.{done, exited, exit_failure, ◌>>=◌}
use nes_emulator.Ppu.Dma.{null, at_ram, mem_get_pointer, copy_page, transfer, ppu_dma}

-- the part from `oam_addr` on, and the part below it
copy_page-from :
    (ram : Bytes) (ptr i : ℕ) (p : Ppu)
    → p.oam_addr ≤ i
    → i < 256
    → (copy_page ram ptr p).oam i ≡ ram (ptr + (i - p.oam_addr))
unfolding copy_page copy
copy_page-from ram ptr i p h k = ground arith

copy_page-below :
    (ram : Bytes) (ptr i : ℕ) (p : Ppu)
    → i < p.oam_addr
    → p.oam_addr < 256
    → (copy_page ram ptr p).oam i ≡ ram (ptr + (256 - p.oam_addr) + (i - 0))
unfolding copy_page copy
copy_page-below ram ptr i p h k = ground arith

-- The page goes round in the object memory, from `oam_addr` on.
copy_page_lem :
    (ram : Bytes) (ptr j : ℕ) (p : Ppu)
    → p.oam_addr < 256
    → j < 256
    → (copy_page ram ptr p).oam ((p.oam_addr + j) % 256) ≡ ram (ptr + j)
copy_page_lem ram ptr j p h k =
    let i = (p.oam_addr + j) % 256 in
    elim (Bool-cases (ltb (p.oam_addr + j) 256)) [
      | inl head ↦
          rw (copy_page-from ram ptr i p (ground arith) (omega arith))
            (ap (λ n. ram n) (ground arith))
      | inr tail ↦
          rw (copy_page-below ram ptr i p (ground arith) h) (ap (λ n. ram n) (ground arith))
    ]

get_pointer_lem : (page : ℕ) → page < 0x20 → mem_get_pointer (page <<< 8) ≡ at_ram (page % 8 * 256)
unfolding mem_get_pointer
get_pointer_lem page h = ground (arith, bit_and_mask 11 (page * 256))

null_pointer : (page : ℕ) → 0x20 ≤ page → mem_get_pointer (page <<< 8) ≡ null
unfolding mem_get_pointer
null_pointer page h = ground arith

-- A page beyond the RAM and its mirrors ends the program.
pub ppu_dma-exits : (page : ℕ) (e : Emulator) → 0x20 ≤ page → ppu_dma page e ≡ exited
unfolding ppu_dma transfer exit_failure ◌>>=◌
ppu_dma-exits page e h = rw (null_pointer page h) refl

abbrev pub transferred : ℕ → Emulator → Emulator
transferred page e = record e {
  ppu = copy_page e.mem.ram (page % 8 * 256) e.ppu;
  cpu = record e.cpu {
    dma_cycles = add_size e.cpu.dma_cycles (513 + bit_and e.cpu.total_cycles 1);
  };
}

pub ppu_dma_lem :
    (page : ℕ) (e : Emulator) → page < 0x20 → ppu_dma page e ≡ done (tt, transferred page e)
unfolding ppu_dma transfer ◌>>=◌
ppu_dma_lem page e h = rw (get_pointer_lem page h, inside page) refl
  where
    inside : (n : ℕ) → leb (n % 8 * 256 + 256) 0x0800 ≡ true
    inside n = ground arith

-- For a page of the RAM and its mirrors, the transfer returns: the bytes of the page go to the
-- object memory in order, starting at `oam_addr` and going round at its end, and the CPU waits
-- 513 cycles, or 514 if its count of cycles is odd.
pub oam-ppu_dma :
    (page j : ℕ) (e : Emulator)
    → page < 0x20
    → j < 256
    → e.ppu.oam_addr < 256
    → (e' : Emulator) × (ppu_dma page e ≡ done (tt, e'))
      × (e'.ppu.oam ((e.ppu.oam_addr + j) % 256) ≡ e.mem.ram ((page * 256 + j) % 0x0800))
      × (e'.cpu.dma_cycles ≡ add_size e.cpu.dma_cycles (513 + e.cpu.total_cycles % 2))
      × (e'.mem ≡ e.mem)
oam-ppu_dma page j e h k l = (
  transferred page e,
  ppu_dma_lem page e h,
  copy_page_lem e.mem.ram (page % 8 * 256) j e.ppu l k ∙ ap (λ n. e.mem.ram n) (omega arith),
  ap (λ n. add_size e.cpu.dma_cycles (513 + n)) (bit_and_mask 1 e.cpu.total_cycles),
  refl,
)
