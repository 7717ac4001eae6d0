-- ===== src/Mem/Controller.antt =====
-- The controller at 0x4016: a write takes the state of the keys, reads give it bit by bit.
use nes_emulator.Prelude.{
  ℕ, zero, suc, ◌+◌, ◌≡◌, refl, arith, Bool, true, false, ◌&&◌, List, [], ◌∷◌, bit_and, bool_to_int,
  ltb, ◌==◌, eqb→eq, u8, ◌<<<◌,
}
use nes_emulator.State.{Emulator, Keyboard}
use nes_emulator.Outcome.{Run, done, pure, ◌>>=◌, ◌>>◌}
use nes_emulator.Mem.{
  mem_write_8, mem_read_8, write_io_register, poll_controller, sdl_poll_events, controller_byte,
  read_controller,
}

-- a program of the console that reads the controller's port `n` times
pub read_buttons : ℕ → Run (List ℕ)
read_buttons zero = pure []
read_buttons (suc n) = do b ← mem_read_8 0x4016; bs ← read_buttons n; pure (b ∷ bs)

-- the bits of the shift register, from the highest on
abbrev register_bits : ℕ → ℕ → List ℕ
register_bits zero r = []
register_bits (suc n) r = bool_to_int (ltb 0 (bit_and r 0x80)) ∷ register_bits n (u8 (r <<< 1))

abbrev shifted : ℕ → ℕ → ℕ
shifted zero r = r
shifted (suc n) r = shifted n (u8 (r <<< 1))

abbrev pub with_register : ℕ → Emulator → Emulator
with_register r e = record e { mem = record e.mem { controller_shift_register = r } }

read_port :
    (e : Emulator)
    → mem_read_8 0x4016 e
      ≡ done (
        bool_to_int (ltb 0 (bit_and e.mem.controller_shift_register 0x80)),
        with_register (u8 (e.mem.controller_shift_register <<< 1)) e,
      )
unfolding mem_read_8 read_controller ◌>>=◌
read_port e = refl

read_buttons_lem :
    (n : ℕ) (e : Emulator)
    → read_buttons n e
      ≡ done (
        register_bits n e.mem.controller_shift_register,
        with_register (shifted n e.mem.controller_shift_register) e,
      )
unfolding read_buttons ◌>>=◌
read_buttons_lem zero e = refl
read_buttons_lem (suc n) e =
    rw
      (
        read_port e,
        ◌>>=◌,
        read_buttons_lem n (with_register (u8 (e.mem.controller_shift_register <<< 1)) e),
      )
      refl

abbrev pub keys : Keyboard → List ℕ
keys k =
    bool_to_int k.key_x
    ∷ bool_to_int k.key_z
    ∷ bool_to_int k.key_rshift
    ∷ bool_to_int k.key_return
    ∷ bool_to_int k.key_up
    ∷ bool_to_int k.key_down
    ∷ bool_to_int k.key_left
    ∷ bool_to_int k.key_right
    ∷ []

abbrev same : List ℕ → List ℕ → Bool
same [] [] = true
same (x ∷ xs) (y ∷ ys) = x == y && same xs ys
same xs ys = false

same-eq : (xs ys : List ℕ) → same xs ys ≡ true → xs ≡ ys
same-eq [] [] h = refl
same-eq [] (y ∷ ys) h = absurd (ground arith)
same-eq (x ∷ xs) [] h = absurd (ground arith)
same-eq (x ∷ xs) (y ∷ ys) h = rw (eqb→eq x y (ground arith), same-eq xs ys (ground arith)) refl

for_both : (Bool → Bool) → Bool
for_both test = test true && test false

for_both_sound : (test : Bool → Bool) (b : Bool) → for_both test ≡ true → test b ≡ true
unfolding for_both
for_both_sound test true h = ground arith
for_both_sound test false h = ground arith

abbrev pressed : Bool → Bool → Bool → Bool → Bool → Bool → Bool → Bool → Keyboard
pressed x z rshift return up down left right = record {
  key_x = x;
  key_z = z;
  key_rshift = rshift;
  key_return = return;
  key_up = up;
  key_down = down;
  key_left = left;
  key_right = right;
}

agree : Keyboard → Bool
agree k = same (register_bits 8 (controller_byte k)) (keys k)

agree_table :
    for_both (λ x. for_both (λ z. for_both (λ s. for_both (λ r.
      for_both
        (λ u. for_both (λ d. for_both (λ l. for_both (λ g. agree (pressed x z s r u d l g)))))))))
    ≡ true
unfolding for_both agree controller_byte
agree_table = refl

-- the byte of the keys holds them from the highest bit on
controller_byte-keys : (k : Keyboard) → register_bits 8 (controller_byte k) ≡ keys k
unfolding agree
controller_byte-keys k = same-eq _ _ (
    for_both_sound _ k.key_right (
      for_both_sound _ k.key_left (
        for_both_sound _ k.key_down (
          for_both_sound _ k.key_up (
            for_both_sound _ k.key_return (
              for_both_sound _ k.key_rshift
                (for_both_sound _ k.key_z (for_both_sound _ k.key_x agree_table))))))))

empties : (r : ℕ) → shifted 8 r ≡ 0
empties r = omega arith

-- After a write to 0x4016, whatever the value, eight reads of it give the keys X, Z, right shift,
-- return, up, down, left and right, as they are at the write, a 1 for a key that is pressed; the
-- shift register is empty at the end.
pub read_buttons-poll :
    (value : ℕ) (e : Emulator)
    → (mem_write_8 0x4016 value >> read_buttons 8) e
      ≡ done (keys (e.keyboard e.polls), with_register 0 (record e { polls = e.polls + 1 }))
unfolding mem_write_8 write_io_register poll_controller sdl_poll_events ◌>>=◌
read_buttons-poll value e =
    let k = e.keyboard e.polls in
    rw
      (
        read_buttons_lem 8 (with_register (controller_byte k) (record e { polls = e.polls + 1 })),
        empties (controller_byte k),
        controller_byte-keys k,
      )
      refl
