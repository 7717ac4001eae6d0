-- ===== src/Tests/Board.antt =====
-- The window, the code for the board and the debug screen at concrete inputs.
use nes_emulator.Prelude.{
  ℕ, bit_and, ◌⊎◌, ◌+◌, ◌%◌, ◌≡◌, refl, arith, Bytes, ltb, ◌&&◌, ◌||◌, ◌==◌, if◌then◌else◌, u8,
  List,
}
use nes_emulator.Prelude.Bits.{bit_at, bit_at-le, bit_at-bit_and}
use nes_emulator.State.{Emulator, Pixel}
use nes_emulator.Outcome.{done}
use nes_emulator.Window.{SdlInstance, drawn, sdl_instance_init, sdl_put_pixel_nes_screen}
use nes_emulator.Window.Laws.{IsReady, pixel_at, scaled, pixel_at-put_pixel_nes_screen}
use nes_emulator.Board.Memory.{memset}
use nes_emulator.Board.Memory.Laws.{memset_lem}
use nes_emulator.Board.Pins.{Gpio, Hardware, input_setup}
use nes_emulator.Board.Pins.Laws.{ReadsBack, input_setup_lem}
use nes_emulator.Debug.Screen.{debug_draw_screen}
use nes_emulator.Debug.Screen.Laws.{AllInside, debug_draw_screen-done}
use nes_emulator.Ppu.Returns.{IsSound}
use nes_emulator.Tests.Machine.{machine, machine-IsValid}

abbrev window : SdlInstance
window = sdl_instance_init (λ i. 0)

window-IsReady : IsReady window
unfolding sdl_instance_init
window-IsReady = record { pixel_count = refl; width = refl; height = refl }

pixel_at-put_pixel_nes_screen_example :
    (s' : SdlInstance) × (sdl_put_pixel_nes_screen 10 20 0xECEEEC window ≡ drawn s')
    × (pixel_at 31 61 s' ≡ scaled 10 20 0xECEEEC 31 61 window)
    × IsReady s'
pixel_at-put_pixel_nes_screen_example =
    pixel_at-put_pixel_nes_screen 10 20 0xECEEEC 31 61 window window-IsReady (omega arith)
      (omega arith) (omega arith) (omega arith)

abbrev counting : Bytes
counting i = i % 256

memset_lem_example :
    ((memset 5 0x41 10 counting).1 7 ≡ (if ltb 0 10 && 7 == 5 then u8 0x41 else counting 7))
    × ((memset 5 0x41 10 counting).0 ≡ 5 + 10)
memset_lem_example = memset_lem 5 0x41 10 7 counting

abbrev idle_pins : Gpio
idle_pins = record { data_register = 0xFFFFFFFF; direction = 0x10000001 }

-- the inputs show 0
abbrev quiet_pins : Hardware
quiet_pins = record {
  shown = λ g. bit_and g.data_register g.direction;
  shown_direction = λ g. g.direction;
}

only_outputs : (k a b : ℕ) → bit_at k b ≡ 1 → bit_at k (bit_and a b) ≡ bit_at k a
only_outputs k a b o = rw (bit_at-bit_and k a b, o) (ground (arith, bit_at-le k a))

quiet_pins-ReadsBack : ReadsBack quiet_pins
quiet_pins-ReadsBack = record {
  directions = λ g. refl;
  outputs = λ k g h o. only_outputs k g.data_register g.direction o;
}

input_setup_lem_example :
    (bit_at 27 (input_setup quiet_pins idle_pins).direction
      ≡ (if 27 == 28 then 0 else if 27 == 26 || 27 == 27 then 1 else bit_at 27 idle_pins.direction))
    × ((bit_at 27 (input_setup quiet_pins idle_pins).direction ≡ 0)
        ⊎ (bit_at 27 (quiet_pins.shown (input_setup quiet_pins idle_pins))
            ≡ (if 27 == 26 || 27 == 27 then 0 else bit_at 27 idle_pins.data_register)))
input_setup_lem_example = input_setup_lem quiet_pins 27 idle_pins quiet_pins-ReadsBack (omega arith)

debug_draw_screen-done_example :
    (ps : List Pixel) × (e' : Emulator) × (debug_draw_screen machine ≡ done (ps, e'))
    × AllInside 256 672 ps
    × IsSound e'
debug_draw_screen-done_example =
    debug_draw_screen-done machine (record { valid = machine-IsValid; chr = tt })
