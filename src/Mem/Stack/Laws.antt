-- ===== src/Mem/Stack/Laws.antt =====
-- The stack returns what was pushed, the stack pointer going round inside of its page.
use nes_emulator.Prelude.{
  ℕ, ◌+◌, ◌%◌, ◌<◌, ◌≡◌, refl, bit_and, bit_or, arith, u8, ◌<<<◌, ◌>>>◌, update, update_self,
  update_ne, ◌≢◌,
}
use nes_emulator.Prelude.Bits.{bit_and_mask, bit_or_fields}
use nes_emulator.State.{Emulator, Cpu}
use nes_emulator.Outcome.{bind-done, done, ◌>>=◌, ◌>>◌}
use nes_emulator.Mem.{put_ram}
use nes_emulator.Mem.Ram.{with_ram, mem_write_8-ram, mem_read_8-ram}
use nes_emulator.Mem.Stack.{mem_push_stack_8, mem_pop_stack_8, mem_push_stack_16, pop_stack_16}

abbrev pub with_sp : ℕ → Emulator → Emulator
with_sp n e = record e { cpu = record e.cpu { sp = n } }

abbrev pub pushed : ℕ → Emulator → Emulator
pushed v e = with_sp (u8 (e.cpu.sp + 255)) (with_ram (0x0100 + e.cpu.sp) v e)

page : (n : ℕ) → n < 256 → (0x0100 + n) % 0x0800 ≡ 0x0100 + n
page n h = omega arith

pub push_lem :
    (v : ℕ) (e : Emulator) → e.cpu.sp < 256 → mem_push_stack_8 v e ≡ done (tt, pushed v e)
unfolding mem_push_stack_8 ◌>>=◌
push_lem v e h = rw (mem_write_8-ram (0x0100 + e.cpu.sp) v e (omega arith), ◌>>=◌, page e.cpu.sp h)

pub pop_lem :
    (e : Emulator)
    → mem_pop_stack_8 e
      ≡ done (e.mem.ram (0x0100 + u8 (e.cpu.sp + 1)), with_sp (u8 (e.cpu.sp + 1)) e)
unfolding mem_pop_stack_8 ◌>>=◌
pop_lem e = rw (
  mem_read_8-ram (0x0100 + u8 (e.cpu.sp + 1)) (with_sp (u8 (e.cpu.sp + 1)) e) (omega arith),
  page (u8 (e.cpu.sp + 1)) (omega arith),
)

pub round_trip : (n : ℕ) → n < 256 → u8 (u8 (n + 255) + 1) ≡ n
round_trip n k = omega arith

-- With a stack pointer below 256, a pop after a push returns the byte, and leaves the stack
-- pointer and all but the byte of the stack as they were.
pub pop-push :
    (v : ℕ) (e : Emulator)
    → e.cpu.sp < 256
    → (mem_push_stack_8 v >> mem_pop_stack_8) e ≡ done (v, with_ram (0x0100 + e.cpu.sp) v e)
unfolding put_ram
pop-push v e h = rw (
  bind-done (mem_push_stack_8 v) (λ _. mem_pop_stack_8) e (pushed v e) tt (push_lem v e h),
  pop_lem (pushed v e),
  round_trip e.cpu.sp h,
  update_self e.mem.ram (0x0100 + e.cpu.sp) v,
)

word-bytes : (w : ℕ) → w < 65536 → bit_or (bit_and (w >>> 8) 0xFF <<< 8) (bit_and w 0xFF) ≡ w
word-bytes w h =
    ground
      (arith, bit_and_mask 8 (w >>> 8), bit_and_mask 8 w, bit_or_fields 8 (w >>> 8 % 256) (w % 256))

-- the state with the two bytes of a word below the stack pointer
abbrev pub with_word : ℕ → Emulator → Emulator
with_word w e =
    with_ram (0x0100 + u8 (e.cpu.sp + 255)) (bit_and w 0xFF)
      (with_ram (0x0100 + e.cpu.sp) (bit_and (w >>> 8) 0xFF) e)

two_below : (n : ℕ) → n < 256 → u8 (u8 (n + 255) + 255) ≡ u8 (n + 254)
two_below n h = omega arith

pub push_16_lem :
    (w : ℕ) (e : Emulator)
    → e.cpu.sp < 256
    → mem_push_stack_16 w e ≡ done (tt, with_sp (u8 (e.cpu.sp + 254)) (with_word w e))
unfolding mem_push_stack_16
push_16_lem w e h = rw (
  bind-done (mem_push_stack_8 high) (λ _. mem_push_stack_8 low) e (pushed high e) tt
      (push_lem high e h),
  push_lem low (pushed high e) (omega arith),
  two_below e.cpu.sp h,
)
  where
    high : ℕ
    high = bit_and (w >>> 8) 0xFF

    low : ℕ
    low = bit_and w 0xFF

two_above : (n : ℕ) → u8 (u8 (n + 1) + 1) ≡ u8 (n + 2)
two_above n = omega arith

pub pop_16_lem :
    (e : Emulator)
    → pop_stack_16 e
      ≡ done (
        bit_or
            (e.mem.ram (0x0100 + u8 (e.cpu.sp + 2)) <<< 8)
            (e.mem.ram (0x0100 + u8 (e.cpu.sp + 1))),
        with_sp (u8 (e.cpu.sp + 2)) e,
      )
unfolding pop_stack_16 ◌>>=◌
pop_16_lem e =
    rw (pop_lem e, ◌>>=◌, pop_lem (with_sp (u8 (e.cpu.sp + 1)) e), ◌>>=◌, two_above e.cpu.sp)

above_two : (n : ℕ) → n < 256 → u8 (u8 (n + 254) + 2) ≡ n
above_two n k = omega arith

above_one : (n : ℕ) → n < 256 → u8 (u8 (n + 254) + 1) ≡ u8 (n + 255)
above_one n k = omega arith

apart : (n : ℕ) → n < 256 → 0x0100 + u8 (n + 255) ≢ 0x0100 + n
apart n k = ground arith

-- the word above the stack pointer after a push of it
popped-with_word :
    (w : ℕ) (e : Emulator)
    → e.cpu.sp < 256
    → w < 65536
    → bit_or
        ((with_word w e).mem.ram (0x0100 + u8 (u8 (e.cpu.sp + 254) + 2)) <<< 8)
        ((with_word w e).mem.ram (0x0100 + u8 (u8 (e.cpu.sp + 254) + 1)))
      ≡ w
unfolding put_ram
popped-with_word w e h hw = rw (
  above_two e.cpu.sp h,
  above_one e.cpu.sp h,
  update_self (update e.mem.ram (0x0100 + e.cpu.sp) (bit_and (w >>> 8) 0xFF))
      (0x0100 + u8 (e.cpu.sp + 255)) (bit_and w 0xFF),
  update_ne (update e.mem.ram (0x0100 + e.cpu.sp) (bit_and (w >>> 8) 0xFF))
      (0x0100 + u8 (e.cpu.sp + 255)) (0x0100 + e.cpu.sp) (bit_and w 0xFF) (apart e.cpu.sp h),
  update_self e.mem.ram (0x0100 + e.cpu.sp) (bit_and (w >>> 8) 0xFF),
  word-bytes w hw,
)

-- a pop of the word, whatever the other registers hold by then
pub pop_16-with_word :
    (w : ℕ) (e : Emulator) (c : Cpu)
    → e.cpu.sp < 256
    → w < 65536
    → c.sp ≡ u8 (e.cpu.sp + 254)
    → pop_stack_16 (record (with_word w e) { cpu = c })
      ≡ done (w, record (with_word w e) { cpu = record c { sp = e.cpu.sp } })
pop_16-with_word w e c h hw hc = rw (
  pop_16_lem (record (with_word w e) { cpu = c }),
  hc,
  popped-with_word w e h hw,
  above_two e.cpu.sp h,
)

-- the byte below the two of a word
below_apart :
    (n : ℕ)
    → n < 256
    → (0x0100 + u8 (n + 254) ≢ 0x0100 + u8 (u8 (n + 254) + 2))
      × (0x0100 + u8 (n + 254) ≢ 0x0100 + u8 (u8 (n + 254) + 1))
below_apart n h = (ground arith, ground arith)

-- the same with a byte below the word
pub pop_16-with_byte :
    (w v : ℕ) (e : Emulator) (c : Cpu)
    → e.cpu.sp < 256
    → w < 65536
    → c.sp ≡ u8 (e.cpu.sp + 254)
    → let e' = with_ram (0x0100 + u8 (e.cpu.sp + 254)) v (with_word w e) in
      pop_stack_16 (record e' { cpu = c })
      ≡ done (w, record e' { cpu = record c { sp = e.cpu.sp } })
unfolding put_ram
pop_16-with_byte w v e c h hw hc =
    let ram = (with_word w e).mem.ram in
    let i = 0x0100 + u8 (e.cpu.sp + 254) in
    let e' = with_ram i v (with_word w e) in
    rw (
      pop_16_lem (record e' { cpu = c }),
      hc,
      update_ne ram i (0x0100 + u8 (u8 (e.cpu.sp + 254) + 2)) v (below_apart e.cpu.sp h).0,
      update_ne ram i (0x0100 + u8 (u8 (e.cpu.sp + 254) + 1)) v (below_apart e.cpu.sp h).1,
      popped-with_word w e h hw,
      above_two e.cpu.sp h,
    )

-- With a stack pointer below 256, a word that is pushed comes back, and the stack pointer and all
-- but the two bytes of the stack are as before, at the end of the page too.
pub pop-push_16 :
    (w : ℕ) (e : Emulator)
    → e.cpu.sp < 256
    → w < 65536
    → (mem_push_stack_16 w >> pop_stack_16) e ≡ done (w, with_word w e)
pop-push_16 w e h hw =
    rw
      (bind-done (mem_push_stack_16 w) (λ _. pop_stack_16) e
        (with_sp (u8 (e.cpu.sp + 254)) (with_word w e)) tt (push_16_lem w e h))
      (pop_16-with_word w e (record e.cpu { sp = u8 (e.cpu.sp + 254) }) h hw refl)
