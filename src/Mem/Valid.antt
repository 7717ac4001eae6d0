-- ===== src/Mem/Valid.antt =====
-- Reads of the CPU's address space return bytes, and reads and writes keep the invariant.
use nes_emulator.Prelude.{ℕ, ◌<◌, Bool, update-IsBytes, arith}
use nes_emulator.Prelude.Bits.{bit_or-lt}
use nes_emulator.State.{Keyboard, Ppu, Mem}
use nes_emulator.State.Valid.{
  IsValid, PpuIsValid, MemIsValid, valid_rules, modify_ppu-IsValid, modify_mem-IsValid, bind_mem,
  get_mem-IsValid,
}
use nes_emulator.Outcome.{pure, ◌>>=◌, ◌>>◌, modify_ppu, modify_mem, load}
use nes_emulator.Outcome.Ensures.{
  Ensures, Any, IsByte, IsWord, bind-Any, bind_byte, Ensures-pure, Ensures-load,
}
use nes_emulator.Mapper.Valid.{nrom_read_prg-IsByte}
use nes_emulator.Ppu.Registers.{ppu_set_ctrl, ppu_read_status, ppu_set_scroll, ppu_set_vram_addr}
use nes_emulator.Ppu.Registers.Valid.{
  ppu_set_ctrl-IsValid, ppu_read_status-IsValid, ppu_set_scroll-IsValid, ppu_set_vram_addr-IsValid,
}
use nes_emulator.Ppu.Vram.Valid.{ppu_write_vram_data-IsValid, ppu_read_vram_data-IsByte}
use nes_emulator.Ppu.Dma.Valid.{ppu_dma-IsValid}
use nes_emulator.Mem.{
  ram_end, prg_ram_size, or_if, controller_byte, sdl_poll_events, poll_controller, put_ram,
  put_cartridge_ram, write_ram, write_oam_data, write_ppu_register, write_io_register,
  write_cartridge_ram, mem_write_8, read_ppu_register, read_controller, read_cartridge_ram,
  mem_read_8, mem_read_16, mem_write_16,
}

controller_byte-IsByte : (k : Keyboard) → controller_byte k < 256
unfolding controller_byte
controller_byte-IsByte k = button 1 k.key_right _ (omega arith) (
    button 2 k.key_left _ (omega arith) (
      button 4 k.key_down _ (omega arith) (
        button 8 k.key_up _ (omega arith) (
          button 16 k.key_return _ (omega arith) (
            button 32 k.key_rshift _ (omega arith) (
              button 64 k.key_z _ (omega arith)
                (button 128 k.key_x 0 (omega arith) (omega arith))))))))
  where
    button :
        (bit : ℕ) (key : Bool) (event : ℕ) → bit < 256 → event < 256 → or_if key bit event < 256
    button bit key event h he = ground (arith, bit_or-lt 8 event bit)

sdl_poll_events-IsByte : Ensures IsValid IsByte sdl_poll_events
unfolding sdl_poll_events ◌>>=◌
sdl_poll_events-IsByte = record {
  at = λ e v. (
    controller_byte-IsByte (e.keyboard e.polls),
    record { cpu = v.cpu; ppu = v.ppu; mem = v.mem; mapper = v.mapper; rom = v.rom },
  );
}

module _ (value : ℕ) (h : value < 256) where
  put_shift_register-IsValid :
      Ensures IsValid Any (modify_mem (λ m. record m { controller_shift_register = value }))
  put_shift_register-IsValid = modify_mem-IsValid _ λ m v. ground arith

  put_ram-IsValid : (i : ℕ) → Ensures IsValid Any (modify_mem (put_ram i value))
  unfolding put_ram
  put_ram-IsValid i =
      modify_mem-IsValid _ λ m v. ground (arith, update-IsBytes m.ram i value v.ram h)

  put_cartridge_ram-IsValid : (i : ℕ) → Ensures IsValid Any (modify_mem (put_cartridge_ram i value))
  unfolding put_cartridge_ram
  put_cartridge_ram-IsValid i =
      modify_mem-IsValid _
        λ m v. ground (arith, update-IsBytes m.cartridge_ram i value v.cartridge_ram h)

  put_mask-IsValid : Ensures IsValid Any (modify_ppu (λ p. record p { mask = value }))
  put_mask-IsValid = modify_ppu-IsValid _ λ p v. ground arith

  put_oam_addr-IsValid : Ensures IsValid Any (modify_ppu (λ p. record p { oam_addr = value }))
  put_oam_addr-IsValid = modify_ppu-IsValid _ λ p v. ground arith

  write_oam_data-IsValid : Ensures IsValid Any (modify_ppu (write_oam_data value))
  unfolding write_oam_data
  write_oam_data-IsValid =
      modify_ppu-IsValid _ λ p v. ground (arith, update-IsBytes p.oam p.oam_addr value v.oam h)

  set_ctrl-IsValid : Ensures IsValid Any (modify_ppu (ppu_set_ctrl value))
  set_ctrl-IsValid = modify_ppu-IsValid _ (ppu_set_ctrl-IsValid value h)

  set_scroll-IsValid : Ensures IsValid Any (modify_ppu (ppu_set_scroll value))
  set_scroll-IsValid = modify_ppu-IsValid _ (ppu_set_scroll-IsValid value h)

  set_vram_addr-IsValid : Ensures IsValid Any (modify_ppu (ppu_set_vram_addr value))
  set_vram_addr-IsValid = modify_ppu-IsValid _ (ppu_set_vram_addr-IsValid value h)

poll_controller-IsValid : Ensures IsValid Any poll_controller
unfolding poll_controller
poll_controller-IsValid = search (valid_rules, sdl_poll_events-IsByte, put_shift_register-IsValid)

write_ram-IsValid :
    (address value : ℕ) → value < 256 → Ensures IsValid Any (write_ram address value)
unfolding write_ram
write_ram-IsValid address value h = search (valid_rules, put_ram-IsValid)

write_cartridge_ram-IsValid :
    (address value : ℕ) → value < 256 → Ensures IsValid Any (write_cartridge_ram address value)
unfolding write_cartridge_ram
write_cartridge_ram-IsValid address value h = search (valid_rules, put_cartridge_ram-IsValid)

write_ppu_register-IsValid :
    (address value : ℕ) → value < 256 → Ensures IsValid Any (write_ppu_register address value)
unfolding write_ppu_register
write_ppu_register-IsValid address value h =
    search
      (
        valid_rules, set_ctrl-IsValid, put_mask-IsValid, put_oam_addr-IsValid,
        write_oam_data-IsValid, set_scroll-IsValid, set_vram_addr-IsValid,
        ppu_write_vram_data-IsValid,
      )
      depth 14

write_io_register-IsValid :
    (address value : ℕ) → Ensures IsValid Any (write_io_register address value)
unfolding write_io_register
write_io_register-IsValid address value =
    search (valid_rules, ppu_dma-IsValid, poll_controller-IsValid)

-- A write of a byte to any address keeps the invariant.
pub mem_write_8-IsValid :
    (address value : ℕ) → value < 256 → Ensures IsValid Any (mem_write_8 address value)
unfolding mem_write_8
mem_write_8-IsValid address value h =
    search
      (
        valid_rules, write_ram-IsValid, write_ppu_register-IsValid, write_io_register-IsValid,
        write_cartridge_ram-IsValid,
      )
      depth 9

unmapped-IsByte : Ensures IsValid IsByte (pure 0x00)
unmapped-IsByte = Ensures-pure 0 (omega arith)

load_oam-IsByte : (p : Ppu) → PpuIsValid p → Ensures IsValid IsByte (load 0x100 p.oam p.oam_addr)
load_oam-IsByte p v = Ensures-load _ _ _ (λ _. v.oam.at _)

load_ram-IsByte : (m : Mem) (i : ℕ) → MemIsValid m → Ensures IsValid IsByte (load ram_end m.ram i)
load_ram-IsByte m i v = Ensures-load _ _ _ (λ _. v.ram.at i)

load_cartridge_ram-IsByte :
    (m : Mem) (i : ℕ) → MemIsValid m → Ensures IsValid IsByte (load prg_ram_size m.cartridge_ram i)
load_cartridge_ram-IsByte m i v = Ensures-load _ _ _ (λ _. v.cartridge_ram.at i)

read_status-IsByte :
    (p : Ppu)
    → PpuIsValid p
    → Ensures IsValid IsByte (modify_ppu (λ _. (ppu_read_status p).1) >> pure (ppu_read_status p).0)
read_status-IsByte p v =
    bind-Any _ _ (modify_ppu-IsValid _ (λ _ _. ppu_read_status-IsValid p v))
      λ _. Ensures-pure _ (unfold ppu_read_status in v.status)

read_ppu_register-IsByte : (address : ℕ) → Ensures IsValid IsByte (read_ppu_register address)
unfolding read_ppu_register
read_ppu_register-IsByte address =
    search
      (valid_rules, read_status-IsByte, load_oam-IsByte, ppu_read_vram_data-IsByte, unmapped-IsByte)
      depth 8

read_controller-IsByte : Ensures IsValid IsByte read_controller
unfolding read_controller
read_controller-IsByte = bind_mem _ _ get_mem-IsValid λ m v.
    bind-Any _ _ (modify_mem-IsValid _ (λ x w. ground arith)) λ _. Ensures-pure _ (ground arith)

read_cartridge_ram-IsByte : (address : ℕ) → Ensures IsValid IsByte (read_cartridge_ram address)
unfolding read_cartridge_ram
read_cartridge_ram-IsByte address = search (valid_rules, load_cartridge_ram-IsByte)

-- A read of any address returns a byte and keeps the invariant.
pub mem_read_8-IsByte : (address : ℕ) → Ensures IsValid IsByte (mem_read_8 address)
unfolding mem_read_8
mem_read_8-IsByte address =
    search
      (
        valid_rules, load_ram-IsByte, read_ppu_register-IsByte, read_controller-IsByte,
        read_cartridge_ram-IsByte, nrom_read_prg-IsByte,
      )
      depth 9

-- A read of two bytes returns a 16-bit word.
pub mem_read_16-IsWord : (address : ℕ) → Ensures IsValid IsWord (mem_read_16 address)
unfolding mem_read_16
mem_read_16-IsWord address =
    bind_byte _ _ (mem_read_8-IsByte _)
      λ high _. bind_byte _ _ (mem_read_8-IsByte _) λ low _. Ensures-pure _ (omega arith)

pub mem_write_16-IsValid : (address value : ℕ) → Ensures IsValid Any (mem_write_16 address value)
unfolding mem_write_16
mem_write_16-IsValid address value =
    bind-Any _ _ (mem_write_8-IsValid _ _ (omega arith)) λ _. mem_write_8-IsValid _ _ (omega arith)
