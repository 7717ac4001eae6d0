-- ===== src/Window/Session/Releases.antt =====
-- How often each resource of the window is released.
use nes_emulator.Prelude.{
  ℕ, arith, ◌+◌, ◌≡◌, Bool, true, false, not, ◌&&◌, List, [], ◌∷◌, if◌then◌else◌,
}
use nes_emulator.Window.Session.{
  Resource, window, renderer, texture, pixels, SdlCall, releases, SdlHost, calls_sdl,
  create_texture, create_renderer, create_window, sdl_session_init, release_if,
  sdl_instance_destroy, no_session,
}

same_resource : Resource → Resource → Bool
same_resource window window = true
same_resource renderer renderer = true
same_resource texture texture = true
same_resource pixels pixels = true
same_resource _ _ = false

pub one_if : Bool → ℕ
one_if b = if b then 1 else 0

-- how many of the calls release a resource
pub released : Resource → List SdlCall → ℕ
released r [] = 0
released r (releases r' ∷ calls) = one_if (same_resource r r') + released r calls
released r (_ ∷ calls) = released r calls

-- whether the resource is asked for and given
pub obtained : Resource → SdlHost → Bool
obtained window h = h.started && h.has_window
obtained renderer h = h.started && h.has_window && h.has_renderer
obtained texture h = h.started && h.has_window && h.has_renderer && h.has_texture
obtained pixels h = h.started && h.has_window && h.has_renderer && h.has_memory

-- the window, where there is no renderer for it
pub is_doubled : Resource → SdlHost → Bool
is_doubled window h = h.started && h.has_window && not h.has_renderer
is_doubled _ h = false

abbrev host : Bool → Bool → Bool → Bool → Bool → SdlHost
host a b c d e = record {
  started = a;
  has_window = b;
  has_renderer = c;
  has_texture = d;
  has_memory = e;
}

by_answers :
    (r : Resource) (a b c d e : Bool)
    → released r (sdl_instance_destroy (sdl_session_init (host a b c d e) no_session).1).calls
      ≡ one_if (obtained r (host a b c d e)) + one_if (is_doubled r (host a b c d e))
unfolding sdl_session_init create_window create_renderer create_texture sdl_instance_destroy
    release_if calls_sdl released obtained is_doubled one_if same_resource
by_answers r a b c d e = ground arith

-- Whatever SDL and `malloc` answer to the initialisation, which may return early: the calls of it
-- and of a destruction of what it leaves release each resource of the window that was given once,
-- and none that was not; but a window for which there is no renderer is released twice.
pub released-sdl_instance_destroy :
    (h : SdlHost) (r : Resource)
    → released r (sdl_instance_destroy (sdl_session_init h no_session).1).calls
      ≡ one_if (obtained r h) + one_if (is_doubled r h)
released-sdl_instance_destroy h r =
    by_answers r h.started h.has_window h.has_renderer h.has_texture h.has_memory
