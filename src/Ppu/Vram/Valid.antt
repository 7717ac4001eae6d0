-- ===== src/Ppu/Vram/Valid.antt =====
-- Reads and writes of the PPU's address space keep the invariant, and reads return bytes.
use nes_emulator.Prelude.{
  ℕ, ◌+◌, ◌%◌, ◌≤◌, ◌<◌, ◌≡◌, bit_and, bit_xor, true, arith, refl, Bytes, IsBytes, update,
  update-IsBytes, all_below, all_below_sound, eqb→eq, ◌==◌, u16,
}
use nes_emulator.Prelude.Bits.{bit_and_mask}
use nes_emulator.State.{Ppu}
use nes_emulator.State.Valid.{IsValid, PpuIsValid, IsMirrored, valid_rules, modify_ppu-IsValid}
use nes_emulator.Outcome.{Run, pure, ◌>>=◌, gets, load, modify_ppu}
use nes_emulator.Outcome.Ensures.{
  Ensures, Any, IsByte, Ensures-bind, Ensures-pure, Ensures-if, Ensures-load,
}
use nes_emulator.Mapper.Valid.{nrom_read_chr-IsByte, nrom_write_chr_ram-IsValid}
use nes_emulator.Ppu.Vram.{
  calculate_vram_index, increment_vram_addr, write_palette, put_vram, store_vram_data,
  ppu_write_vram_data, fill_read_buffer, ppu_read_vram_data, ppu_const_read_vram_data,
}

xor_table : all_below 32 (λ a. bit_xor a 0x10 == (a + 16) % 32) ≡ true
unfolding all_below
xor_table = refl

pub mirror_address : (a : ℕ) → a < 32 → bit_xor a 0x10 ≡ (a + 16) % 32
mirror_address a h = eqb→eq _ _ (all_below_sound 32 _ a xor_table h)

write_palette-IsMirrored :
    (address value : ℕ) (p : Ppu)
    → address < 32
    → IsMirrored p.palette
    → IsMirrored (write_palette address value p).palette
unfolding write_palette update
write_palette-IsMirrored address value p h v = ground (arith, mirror_address address h)

write_palette-IsBytes :
    (address value : ℕ) (p : Ppu)
    → value < 256
    → IsBytes p.palette
    → IsBytes (write_palette address value p).palette
unfolding write_palette
write_palette-IsBytes address value p hv v = ground (
  arith,
  update-IsBytes p.palette address value v hv,
  update-IsBytes (update p.palette address value) (bit_xor address 0x10) value,
)

only_palette :
    (address value : ℕ) (p : Ppu)
    → write_palette address value p ≡ record p { palette = (write_palette address value p).palette }
unfolding write_palette
only_palette address value p = ground arith

put_palette-IsValid :
    (p : Ppu) (f : Bytes)
    → PpuIsValid p
    → IsBytes f
    → IsMirrored f
    → PpuIsValid (record p { palette = f })
put_palette-IsValid p f v b m = ground arith

-- A write to the palette keeps its mirrored entries equal.
pub write_palette-IsValid :
    (address value : ℕ)
    → address < 32
    → value < 256
    → (p : Ppu) → PpuIsValid p
    → PpuIsValid (write_palette address value p)
write_palette-IsValid address value h hv p v = rw only_palette (
    put_palette-IsValid p _ v (write_palette-IsBytes address value p hv v.palette)
      (write_palette-IsMirrored address value p h v.mirrored))

module _ (value : ℕ) (h : value < 256) where
  put_vram-IsValid : (i : ℕ) → Ensures IsValid Any (modify_ppu (put_vram i value))
  unfolding put_vram
  put_vram-IsValid i =
      modify_ppu-IsValid _ λ p v. ground (arith, update-IsBytes p.vram i value v.vram h)

  put_read_buffer-IsValid :
      Ensures IsValid Any (modify_ppu (λ p. record p { data_read_buffer = value }))
  put_read_buffer-IsValid = modify_ppu-IsValid _ λ p v. ground arith

  put_palette_entry-IsValid :
      (address : ℕ) → Ensures IsValid Any (modify_ppu (write_palette (bit_and address 0x1F) value))
  put_palette_entry-IsValid address =
      modify_ppu-IsValid _ (
        write_palette-IsValid (bit_and address 0x1F) value (omega (arith, bit_and_mask 5 address))
          h)

pub increment_vram_addr-IsValid : (p : Ppu) → PpuIsValid p → PpuIsValid (increment_vram_addr p)
unfolding increment_vram_addr
increment_vram_addr-IsValid p v = ground arith

advance_address-IsValid : Ensures IsValid Any (modify_ppu increment_vram_addr)
advance_address-IsValid = modify_ppu-IsValid _ increment_vram_addr-IsValid

abbrev pub InVram : ℕ → Type 0
InVram i = i < 0x1000

abbrev IsTable : Bytes → Type 0
IsTable f = (j : ℕ) → j < 4 → f j ≤ 0x0C00

abbrev IsBase : ℕ → Type 0
IsBase n = n ≤ 0x0C00

get_map-IsTable : Ensures IsValid IsTable (gets (λ e. e.mapper.nametable_map))
unfolding gets
get_map-IsTable = record { at = λ e v. (v.mapper.nametables, v) }

load_map-IsBase : (f : Bytes) (j : ℕ) → IsTable f → Ensures IsValid IsBase (load 4 f j)
load_map-IsBase f j v = Ensures-load 4 f j (v j)

offset-InVram : (base a : ℕ) → IsBase base → Ensures IsValid InVram (pure (u16 (base + a % 0x03FF)))
offset-InVram base a b = Ensures-pure _ (omega arith)

zero-InVram : Ensures IsValid InVram (pure 0)
zero-InVram = Ensures-pure 0 (omega arith)

module _ {B : Type 0} {R : B → Type 0} where
  bind_table :
      (m : Run Bytes) (f : Bytes → Run B)
      → Ensures IsValid IsTable m
      → ((x : Bytes) → IsTable x → Ensures IsValid R (f x))
      → Ensures IsValid R (m >>= f)
  bind_table = Ensures-bind

  bind_base :
      (m : Run ℕ) (f : ℕ → Run B)
      → Ensures IsValid IsBase m
      → ((x : ℕ) → IsBase x → Ensures IsValid R (f x))
      → Ensures IsValid R (m >>= f)
  bind_base = Ensures-bind

  bind_index :
      (m : Run ℕ) (f : ℕ → Run B)
      → Ensures IsValid InVram m
      → ((x : ℕ) → Ensures IsValid R (f x))
      → Ensures IsValid R (m >>= f)
  bind_index m f km kf = Ensures-bind m f km (λ x _. kf x)

-- The index that an address is mapped to lies in the first half of the array.
pub calculate_vram_index-InVram :
    (address : ℕ) → Ensures IsValid InVram (calculate_vram_index address)
unfolding calculate_vram_index
calculate_vram_index-InVram address =
    search
      (
        Ensures-if, bind_table, bind_base, get_map-IsTable, load_map-IsBase, offset-InVram,
        zero-InVram,
      )
      depth 8

load_vram-IsByte : (p : Ppu) (i : ℕ) → PpuIsValid p → Ensures IsValid IsByte (load 0x2000 p.vram i)
load_vram-IsByte p i v = Ensures-load 0x2000 p.vram i (λ _. v.vram.at i)

load_palette-IsByte :
    (p : Ppu) (i : ℕ) → PpuIsValid p → Ensures IsValid IsByte (load 0x20 p.palette i)
load_palette-IsByte p i v = Ensures-load 0x20 p.palette i (λ _. v.palette.at i)

store_vram_data-IsValid :
    (address value : ℕ) → value < 256 → Ensures IsValid Any (store_vram_data address value)
unfolding store_vram_data
store_vram_data-IsValid address value h =
    search
      (
        valid_rules, nrom_write_chr_ram-IsValid, bind_index, calculate_vram_index-InVram,
        put_vram-IsValid, put_palette_entry-IsValid,
      )
      depth 9

-- A write to PPU_DATA keeps the invariant.
pub ppu_write_vram_data-IsValid :
    (value : ℕ) → value < 256 → Ensures IsValid Any (ppu_write_vram_data value)
unfolding ppu_write_vram_data
ppu_write_vram_data-IsValid value h =
    search (valid_rules, store_vram_data-IsValid, advance_address-IsValid)

fill_read_buffer-IsValid : (address : ℕ) → Ensures IsValid Any (fill_read_buffer address)
unfolding fill_read_buffer
fill_read_buffer-IsValid address =
    search
      (
        valid_rules, nrom_read_chr-IsByte, bind_index, calculate_vram_index-InVram,
        load_vram-IsByte, put_read_buffer-IsValid,
      )
      depth 9

return_buffer-IsByte : (p : Ppu) → PpuIsValid p → Ensures IsValid IsByte (pure p.data_read_buffer)
return_buffer-IsByte p v = Ensures-pure _ v.data_read_buffer

-- A read of PPU_DATA returns a byte and keeps the invariant.
pub ppu_read_vram_data-IsByte : Ensures IsValid IsByte ppu_read_vram_data
unfolding ppu_read_vram_data
ppu_read_vram_data-IsByte =
    search
      (
        valid_rules, fill_read_buffer-IsValid, load_palette-IsByte, advance_address-IsValid,
        return_buffer-IsByte,
      )
      depth 9

zero-IsByte : Ensures IsValid IsByte (pure 0)
zero-IsByte = Ensures-pure 0 (omega arith)

-- A read that changes nothing returns a byte.
pub ppu_const_read_vram_data-IsByte :
    (address : ℕ) → Ensures IsValid IsByte (ppu_const_read_vram_data address)
unfolding ppu_const_read_vram_data
ppu_const_read_vram_data-IsByte address =
    search
      (
        valid_rules, nrom_read_chr-IsByte, bind_index, calculate_vram_index-InVram,
        load_vram-IsByte, load_palette-IsByte, zero-IsByte,
      )
      depth 9
