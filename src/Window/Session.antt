-- ===== src/Window/Session.antt =====
-- dev/sdl-instance.c: what is acquired of SDL and of the memory for the window, and released. What
-- SDL and `malloc` answer is a parameter; the calls of them are kept as a list, the last one first.
pub mod Releases
use nes_emulator.Prelude.{ℕ, ◌-◌, ◌^◌, Bool, false, not, List, [], ◌∷◌, if◌then◌else◌}

pub data Resource : Type 0 where
  window renderer texture pixels : Resource

pub data SdlCall : Type 0 where
  starts : SdlCall
  acquires : Resource → SdlCall
  releases : Resource → SdlCall
  quits : SdlCall

-- What succeeds: `SDL_Init`, the three calls that create, and `malloc`.
pub record SdlHost : Type 0 where
  pub started : Bool
  pub has_window : Bool
  pub has_renderer : Bool
  pub has_texture : Bool
  pub has_memory : Bool

-- The pointers of `SDL_INSTANCE`, whether each is other than `NULL`, and the calls so far.
pub record SdlSession : Type 0 where
  pub window : Bool
  pub renderer : Bool
  pub texture : Bool
  pub pixel_buffer : Bool
  pub calls : List SdlCall

unfoldable pub calls_sdl : SdlCall → SdlSession → SdlSession
calls_sdl c s = record s { calls = c ∷ s.calls }

-- -1 as a 32-bit pattern
abbrev failed : ℕ
failed = 2 ^ 32 - 1

unfoldable pub create_texture : SdlHost → SdlSession → SdlSession
create_texture host s = record (calls_sdl (acquires pixels) (calls_sdl (acquires texture) s)) {
  texture = host.has_texture;
  pixel_buffer = host.has_memory;
}

unfoldable pub create_renderer : SdlHost → SdlSession → ℕ × SdlSession
create_renderer host s =
    let created = record (calls_sdl (acquires renderer) s) { renderer = host.has_renderer } in
    if not host.has_renderer
    then (failed, calls_sdl (releases window) created)
    else (0, create_texture host created)

unfoldable pub create_window : SdlHost → SdlSession → ℕ × SdlSession
create_window host s =
    let created = record (calls_sdl (acquires window) s) { window = host.has_window } in
    if not host.has_window then (failed, created) else create_renderer host created

-- what `sdl_instance_init` returns, and what it leaves
unfoldable pub sdl_session_init : SdlHost → SdlSession → ℕ × SdlSession
sdl_session_init host s =
    let started = calls_sdl starts s in
    if not host.started then (failed, started) else create_window host started

unfoldable pub release_if : Bool → Resource → SdlSession → SdlSession
release_if held r s = if held then calls_sdl (releases r) s else s

unfoldable pub sdl_instance_destroy : SdlSession → SdlSession
sdl_instance_destroy s = calls_sdl quits (
    release_if s.window window (
      release_if s.renderer renderer
        (release_if s.texture texture (release_if s.pixel_buffer pixels s))))

-- `SDL_INSTANCE` at the start of the program
abbrev pub no_session : SdlSession
no_session = record {
  window = false;
  renderer = false;
  texture = false;
  pixel_buffer = false;
  calls = [];
}
