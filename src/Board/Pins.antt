-- ===== src/Board/Pins.antt =====
-- dtekv-drivers/nes-controller.c: the pins of the controller. GPIO_DATA and GPIO_DIR are volatile
-- registers of 32 bits; what the hardware shows in each when it is read is a parameter. Then
-- `get_elapsed_us` of emulator/timer.c for the board. The delays are left out.
pub mod Laws
use nes_emulator.Prelude.{
  ℕ, ◌+◌, ◌-◌, ◌/◌, ◌%◌, ◌^◌, bit_and, bit_or, bit_xor, truth, bool_to_int, if◌then◌else◌, not,
  ◌==◌,
}

-- what was written last to GPIO_DATA and to GPIO_DIR
pub record Gpio : Type 0 where
  pub data_register : ℕ
  pub direction : ℕ

-- `ControllerPin`, as the values of its enumerators
abbrev pub clock_pin : ℕ
clock_pin = 2 ^ 26

abbrev pub latch_pin : ℕ
latch_pin = 2 ^ 27

abbrev pub data_pin : ℕ
data_pin = 2 ^ 28

pub data PinState : Type 0 where
  high low : PinState

pub data Direction : Type 0 where
  output input : Direction

-- `~` on 32 bits
abbrev pub not_32 : ℕ → ℕ
not_32 n = 2 ^ 32 - 1 - n

-- a read of GPIO_DATA that gives `value`
unfoldable pub get_pin : ℕ → ℕ → ℕ
get_pin value pin = bool_to_int (truth (bit_and value pin))

-- What GPIO_DATA and GPIO_DIR read as, by what was written last: each read of a pin's register is
-- one of the hardware's, also the one that `|=` and `&=` make.
pub record Hardware : Type 0 where
  pub shown : Gpio → ℕ
  pub shown_direction : Gpio → ℕ

unfoldable pub set_pin : Hardware → ℕ → PinState → Gpio → Gpio
set_pin hw pin high g = record g { data_register = bit_or (hw.shown g) pin }
set_pin hw pin low g = record g { data_register = bit_and (hw.shown g) (not_32 pin) }

unfoldable pub set_pin_direction : Hardware → ℕ → Direction → Gpio → Gpio
set_pin_direction hw pin output g = record g { direction = bit_or (hw.shown_direction g) pin }
set_pin_direction hw pin input g = record g {
  direction = bit_and (hw.shown_direction g) (not_32 pin);
}

unfoldable pub pulse : Hardware → ℕ → Gpio → Gpio
pulse hw pin g = set_pin hw pin low (set_pin hw pin high g)

unfoldable pub input_read : Hardware → Gpio → ℕ × Gpio
input_read hw g = let g' = pulse hw clock_pin g in (get_pin (hw.shown g') data_pin, g')

unfoldable pub input_latch : Hardware → Gpio → Gpio
input_latch hw g = pulse hw latch_pin g

unfoldable pub input_setup : Hardware → Gpio → Gpio
input_setup hw g =
    let directed =
      set_pin_direction hw latch_pin output
        (set_pin_direction hw clock_pin output (set_pin_direction hw data_pin input g)) in
    set_pin hw latch_pin low (set_pin hw clock_pin low directed)

-- the time between two readings of a counter of 32 bits that counts 30 cycles in a microsecond
unfoldable pub get_elapsed_us : ℕ → ℕ → ℕ
get_elapsed_us time_point_start time_point_end =
    (time_point_end + 2 ^ 32 - time_point_start) % 2 ^ 32 / 30
