-- ===== src/Ppu/Dma/Valid.antt =====
-- The transfer of a page into the object memory keeps the invariant.
use nes_emulator.Prelude.{ℕ, ◌+◌, ◌-◌, Bytes, IsBytes, copy, copy-IsBytes, arith}
use nes_emulator.State.{Cpu}
use nes_emulator.State.Valid.{IsValid, valid_rules, modify_ppu-IsValid, modify_cpu-IsValid}
use nes_emulator.Outcome.{Run, ◌>>=◌, gets, modify_ppu, modify_cpu}
use nes_emulator.Outcome.Ensures.{Ensures, Any, Ensures-bind}
use nes_emulator.Ppu.Dma.{RamPointer, null, at_ram, copy_page, transfer, ppu_dma}

copy_page-IsValid :
    (ram : Bytes) (ptr : ℕ) → IsBytes ram → Ensures IsValid Any (modify_ppu (copy_page ram ptr))
unfolding copy_page
copy_page-IsValid ram ptr h = modify_ppu-IsValid _ λ p v. ground (
  arith,
  copy-IsBytes p.oam p.oam_addr ram ptr (256 - p.oam_addr) v.oam h,
  copy-IsBytes (copy p.oam p.oam_addr ram ptr (256 - p.oam_addr)) 0 ram (ptr + (256 - p.oam_addr))
      p.oam_addr,
)

get_ram-IsBytes : Ensures IsValid IsBytes (gets (λ e. e.mem.ram))
unfolding gets
get_ram-IsBytes = record { at = λ e v. (v.mem.ram, v) }

bind_ram :
    (m : Run Bytes) (f : Bytes → Run (Unit {0}))
    → Ensures IsValid IsBytes m
    → ((x : Bytes) → IsBytes x → Ensures IsValid Any (f x))
    → Ensures IsValid Any (m >>= f)
bind_ram = Ensures-bind

transfer-IsValid : (ptr : RamPointer) → Ensures IsValid Any (transfer ptr)
unfolding transfer
transfer-IsValid null = search valid_rules
transfer-IsValid (at_ram ptr) = search (valid_rules, bind_ram, get_ram-IsBytes, copy_page-IsValid)

put_dma_cycles-IsValid :
    (f : Cpu → ℕ) → Ensures IsValid Any (modify_cpu (λ c. record c { dma_cycles = f c }))
put_dma_cycles-IsValid f = modify_cpu-IsValid _ λ c v. ground arith

-- `ppu_dma` keeps the invariant.
pub ppu_dma-IsValid : (page : ℕ) → Ensures IsValid Any (ppu_dma page)
unfolding ppu_dma
ppu_dma-IsValid page = Ensures-bind _ _ (transfer-IsValid _) λ _ _. put_dma_cycles-IsValid _
