-- ===== src/Board/Pins/Laws.antt =====
-- Which bits of the registers the pins of the controller take.
use nes_emulator.Prelude.{
  ℕ, ◌+◌, ◌/◌, ◌%◌, ◌^◌, ◌<◌, ◌≡◌, refl, arith, bit_and, bit_or, if◌then◌else◌, ◌==◌, ◌||◌, true,
  ◌≤◌, ◌⊎◌, inl, inr, ◌∙◌, sym, ap, all_below, all_below_sound, eqb→eq,
}
use nes_emulator.Prelude.Bits.{bit_at, bit_at-le, bit_at-bit_and, bit_at-bit_or, bit_and-bit}
use nes_emulator.Board.Pins.{
  Gpio, Hardware, high, low, clock_pin, latch_pin, data_pin, not_32, get_pin, set_pin,
  set_pin_direction, pulse, input_read, input_setup, get_elapsed_us,
}

clock_table : all_below 32 (λ k. bit_at k (2 ^ 26) == (if k == 26 then 1 else 0)) ≡ true
unfolding all_below
clock_table = refl

bit_at-clock : (k : ℕ) → k < 32 → bit_at k (2 ^ 26) ≡ (if k == 26 then 1 else 0)
bit_at-clock k h = eqb→eq _ _ (all_below_sound 32 _ k clock_table h)

latch_table : all_below 32 (λ k. bit_at k (2 ^ 27) == (if k == 27 then 1 else 0)) ≡ true
unfolding all_below
latch_table = refl

bit_at-latch : (k : ℕ) → k < 32 → bit_at k (2 ^ 27) ≡ (if k == 27 then 1 else 0)
bit_at-latch k h = eqb→eq _ _ (all_below_sound 32 _ k latch_table h)

not_clock_table :
    all_below 32 (λ k. bit_at k (not_32 (2 ^ 26)) == (if k == 26 then 0 else 1)) ≡ true
unfolding all_below
not_clock_table = refl

bit_at-not_clock : (k : ℕ) → k < 32 → bit_at k (not_32 (2 ^ 26)) ≡ (if k == 26 then 0 else 1)
bit_at-not_clock k h = eqb→eq _ _ (all_below_sound 32 _ k not_clock_table h)

not_latch_table :
    all_below 32 (λ k. bit_at k (not_32 (2 ^ 27)) == (if k == 27 then 0 else 1)) ≡ true
unfolding all_below
not_latch_table = refl

bit_at-not_latch : (k : ℕ) → k < 32 → bit_at k (not_32 (2 ^ 27)) ≡ (if k == 27 then 0 else 1)
bit_at-not_latch k h = eqb→eq _ _ (all_below_sound 32 _ k not_latch_table h)

not_data_table : all_below 32 (λ k. bit_at k (not_32 (2 ^ 28)) == (if k == 28 then 0 else 1)) ≡ true
unfolding all_below
not_data_table = refl

bit_at-not_data : (k : ℕ) → k < 32 → bit_at k (not_32 (2 ^ 28)) ≡ (if k == 28 then 0 else 1)
bit_at-not_data k h = eqb→eq _ _ (all_below_sound 32 _ k not_data_table h)

zero_or_one : (n : ℕ) → n ≤ 1 → (n ≡ 0) ⊎ (n ≡ 1)
zero_or_one n h = ground arith

-- A pin that is an output reads back as it was written, and the register of directions reads back
-- whole. What the other pins show is up to the hardware.
pub record ReadsBack (hw : Hardware) : Type 0 where
  pub directions : (g : Gpio) → hw.shown_direction g ≡ g.direction
  pub outputs :
      (k : ℕ) (g : Gpio)
      → k < 32
      → bit_at k g.direction ≡ 1
      → bit_at k (hw.shown g) ≡ bit_at k g.data_register

-- the directions that the setup gives
pub set_directions : ℕ → ℕ → ℕ
set_directions k d = if k == 28 then 0 else if k == 26 || k == 27 then 1 else bit_at k d

bit_at-directed :
    (k d : ℕ)
    → k < 32
    → bit_at k (bit_or (bit_or (bit_and d (not_32 data_pin)) clock_pin) latch_pin)
      ≡ set_directions k d
unfolding set_directions
bit_at-directed k d h =
    rw
      (
        bit_at-bit_or k (bit_or (bit_and d (not_32 data_pin)) clock_pin) latch_pin,
        bit_at-bit_or k (bit_and d (not_32 data_pin)) clock_pin,
        bit_at-bit_and k d (not_32 data_pin),
        bit_at-clock k h,
        bit_at-latch k h,
        bit_at-not_data k h,
      )
      (ground (arith, bit_at-le k d))

module _ (hw : Hardware) (r : ReadsBack hw) (k : ℕ) (h : k < 32) where
  clock_low :
      (g : Gpio)
      → bit_at k g.direction ≡ 1
      → bit_at k (hw.shown (set_pin hw clock_pin low g))
        ≡ (if k == 26 then 0 else bit_at k g.data_register)
  unfolding set_pin
  clock_low g o =
      rw
        (
          r.outputs k (set_pin hw clock_pin low g) h o,
          bit_at-bit_and k (hw.shown g) (not_32 clock_pin),
          r.outputs k g h o,
          bit_at-not_clock k h,
        )
        (ground (arith, bit_at-le k g.data_register))

  latch_low :
      (g : Gpio)
      → bit_at k g.direction ≡ 1
      → bit_at k (hw.shown (set_pin hw latch_pin low g))
        ≡ (if k == 27 then 0 else bit_at k g.data_register)
  unfolding set_pin
  latch_low g o =
      rw
        (
          r.outputs k (set_pin hw latch_pin low g) h o,
          bit_at-bit_and k (hw.shown g) (not_32 latch_pin),
          r.outputs k g h o,
          bit_at-not_latch k h,
        )
        (ground (arith, bit_at-le k g.data_register))

  both_low :
      (g : Gpio)
      → bit_at k g.direction ≡ 1
      → bit_at k (hw.shown (set_pin hw latch_pin low (set_pin hw clock_pin low g)))
        ≡ (if k == 26 || k == 27 then 0 else bit_at k g.data_register)
  unfolding set_pin
  both_low g o =
      latch_low (set_pin hw clock_pin low g) o
      ∙ ap (λ n. if k == 27 then 0 else n)
          (sym (r.outputs k (set_pin hw clock_pin low g) h o) ∙ clock_low g o)
      ∙ ground arith

  setup-direction :
      (g : Gpio) → bit_at k (input_setup hw g).direction ≡ set_directions k g.direction
  unfolding input_setup set_pin set_pin_direction
  setup-direction g =
      rw (r.directions, r.directions, r.directions) (bit_at-directed k g.direction h)

  setup-shown :
      (g : Gpio)
      → bit_at k (input_setup hw g).direction ≡ 1
      → bit_at k (hw.shown (input_setup hw g))
        ≡ (if k == 26 || k == 27 then 0 else bit_at k g.data_register)
  unfolding input_setup set_pin set_pin_direction
  setup-shown g o = both_low _ o

-- Where the outputs and the register of directions read back as they were written, whatever the
-- input pins show: the setup makes the data pin an input and the clock and the latch outputs, and
-- leaves the direction of every other pin; and afterwards each of the 32 pins is an input or
-- shows low, where it is the clock or the latch, and otherwise the level that was written to it
-- before.
pub input_setup_lem :
    (hw : Hardware) (k : ℕ) (g : Gpio)
    → ReadsBack hw
    → k < 32
    → (bit_at k (input_setup hw g).direction
        ≡ (if k == 28 then 0 else if k == 26 || k == 27 then 1 else bit_at k g.direction))
      × ((bit_at k (input_setup hw g).direction ≡ 0)
          ⊎ (bit_at k (hw.shown (input_setup hw g))
              ≡ (if k == 26 || k == 27 then 0 else bit_at k g.data_register)))
unfolding set_directions
input_setup_lem hw k g r h = (
  setup-direction hw r k h g,
  elim (zero_or_one (bit_at k (input_setup hw g).direction) (bit_at-le k _)) [
    | inl off ↦ inl off
    | inr on ↦ inr (setup-shown hw r k h g on)
  ],
)

get_pin-bit_at : (value : ℕ) → get_pin value data_pin ≡ bit_at 28 value
unfolding get_pin
get_pin-bit_at value = ground (arith, bit_and-bit 28 value, bit_at-le 28 value)

-- A read of the next button gives bit 28 of what the hardware shows after a pulse of the clock,
-- and leaves the directions; where the outputs read back as they were written, the clock and each
-- other output then shows low and what was written to it before.
input_read_lem :
    (hw : Hardware) (k : ℕ) (g : Gpio)
    → ReadsBack hw
    → k < 32
    → bit_at k g.direction ≡ 1
    → let (button, g') = input_read hw g in
      (button ≡ bit_at 28 (hw.shown g'))
      × (g'.direction ≡ g.direction)
      × (bit_at k (hw.shown g') ≡ (if k == 26 then 0 else bit_at k g.data_register))
unfolding input_read pulse set_pin
input_read_lem hw k g r h o = (
  get_pin-bit_at _,
  refl,
  rw
      (
        clock_low hw r k h (set_pin hw clock_pin high g) o,
        bit_at-bit_or k (hw.shown g) clock_pin,
        bit_at-clock k h,
        r.outputs k g h o,
      )
      (ground (arith, bit_at-le k g.data_register)),
)

-- The counter may go round between the two readings.
get_elapsed_us_lem :
    (start d : ℕ)
    → start < 2 ^ 32
    → d < 2 ^ 32
    → get_elapsed_us start ((start + d) % 2 ^ 32) ≡ d / 30
unfolding get_elapsed_us
get_elapsed_us_lem start d h k = omega arith
