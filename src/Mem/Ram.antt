-- ===== src/Mem/Ram.antt =====
-- The RAM below 0x2000 as the CPU sees it: 2 KiB, four times over.
use nes_emulator.Prelude.{ℕ, ◌%◌, ◌<◌, ◌≡◌, arith, update, if◌then◌else◌, ◌==◌}
use nes_emulator.Prelude.Bits.{bit_and_mask}
use nes_emulator.State.{Emulator}
use nes_emulator.Outcome.{bind-done, done, pure, ◌>>=◌, ◌>>◌, gets, modify_mem, load, store}
use nes_emulator.Mem.{put_ram, write_ram, mem_write_8, mem_read_8}

abbrev pub with_ram : ℕ → ℕ → Emulator → Emulator
with_ram i v e = record e { mem = put_ram i v e.mem }

pub mem_write_8-ram :
    (a v : ℕ) (e : Emulator) → a < 0x2000 → mem_write_8 a v e ≡ done (tt, with_ram (a % 0x0800) v e)
unfolding mem_write_8 write_ram store modify_mem
mem_write_8-ram a v e h = ground (arith, bit_and_mask 11 a)

pub mem_read_8-ram :
    (a : ℕ) (e : Emulator) → a < 0x2000 → mem_read_8 a e ≡ done (e.mem.ram (a % 0x0800), e)
unfolding mem_read_8 load pure gets ◌>>=◌
mem_read_8-ram a e h = ground (arith, bit_and_mask 11 a)

-- A read of the RAM after a write returns the byte that was written where the two addresses are
-- equal modulo 0x800, and what the RAM held before elsewhere; nothing but that byte changes.
pub mem_read_8-mem_write_8 :
    (a b v : ℕ) (e : Emulator)
    → a < 0x2000
    → b < 0x2000
    → (mem_write_8 a v >> mem_read_8 b) e
      ≡ done (
        if b % 0x0800 == a % 0x0800 then v else e.mem.ram (b % 0x0800),
        with_ram (a % 0x0800) v e,
      )
unfolding put_ram update
mem_read_8-mem_write_8 a b v e ha hb =
    rw
      (bind-done (mem_write_8 a v) (λ _. mem_read_8 b) e (with_ram (a % 0x0800) v e) tt
        (mem_write_8-ram a v e ha))
      (mem_read_8-ram b (with_ram (a % 0x0800) v e) hb)
