-- ===== src/MainLoop/Closing.antt =====
-- When GLFW asks to close the window, and that the loop of `main`, main.cpp, then ends: nothing but the
-- constructor, gpu/opengl/window.cpp, writes the flag of the window.
use cpp_station.Prelude.{
  ℕ, zero, suc, ◌≡◌, refl, ◌∙◌, Bool, true, false, List, ◌∷◌, Option, none, some,
}
use cpp_station.Outcome.{Ensures, Ensures-bind, Ensures-if, ok, panic, glad_not_loaded}
use cpp_station.Gpu.Opengl.Calls.{
  Call, Driver, poll_events, window_hints, init_library, create_window, load_functions,
}
use cpp_station.Gpu.Opengl.Shader.{Shader}
use cpp_station.Gpu.Opengl.Window.{Window, take_window, should_close, install_main_callbacks}
use cpp_station.Gpu.Opengl.Window
use cpp_station.Gpu.Opengl.Setup.{Graphics, open_window, load_program, make_buffers, init}
use cpp_station.MainLoop.{ClosesAfter}

-- The answer of GLFW alone, or true without a window.
abbrev pub asks : Driver → Option ℕ → List Call → Bool
asks d none calls = true
asks d (some n) calls = d.window_should_close calls n

-- GLFW first asks in round n, counted from 0.
abbrev pub AsksIn : ℕ → Driver → Option ℕ → List Call → Type 0
AsksIn zero d native calls = asks d native (poll_events ∷ calls) ≡ true
AsksIn (suc n) d native calls =
    (asks d native (poll_events ∷ calls) ≡ false) × AsksIn n d native (poll_events ∷ calls)

should_close-open :
    (d : Driver) (native : Option ℕ) (width height : ℕ) (calls : List Call)
    → should_close d
        (record { native_window = native; width = width; height = height; should_close = false })
        calls
      ≡ asks d native calls
unfolding should_close
should_close-open d none width height calls = refl
should_close-open d (some n) width height calls = refl

should_close-asks :
    (d : Driver) (w : Window) (calls : List Call)
    → w.should_close ≡ false
    → should_close d w calls ≡ asks d w.native_window calls
unfolding should_close
should_close-asks d w calls h =
    rw h (unfold should_close in should_close-open d w.native_window w.width w.height calls)

pub AsksIn-ClosesAfter :
    (n : ℕ) (d : Driver) (w : Window) (calls : List Call)
    → w.should_close ≡ false
    → AsksIn n d w.native_window calls
    → ClosesAfter n d w calls
AsksIn-ClosesAfter zero d w calls h a = should_close-asks d w (poll_events ∷ calls) h ∙ a
AsksIn-ClosesAfter (suc n) d w calls h (a, k) = (
  should_close-asks d w (poll_events ∷ calls) h ∙ a,
  AsksIn-ClosesAfter n d w (poll_events ∷ calls) h k,
)

-- The flag is that of before.
HasFlag : Graphics → Graphics → Type 0
HasFlag g g' = g'.window.should_close ≡ g.window.should_close

should_close-take_window :
    (answer : Option ℕ) (width height : ℕ) (w : Window) (calls : List Call)
    → (take_window answer width height w calls).0.should_close ≡ w.should_close
unfolding take_window
should_close-take_window none width height w calls = refl
should_close-take_window (some n) width height w calls = refl

open_window-HasFlag : (d : Driver) (g : Graphics) → Ensures (HasFlag g) (open_window d g)
unfolding open_window Window.init HasFlag
open_window-HasFlag d g =
    let ready = window_hints ∷ init_library ∷ g.calls in
    let answer = d.new_window ready 1024 512 in
    let w = take_window answer 1024 512 g.window (create_window answer 1024 512 ∷ ready) in
    let calls = load_functions ∷ install_main_callbacks w.0 w.1 in
    Ensures-if (HasFlag g) (d.loads_functions calls) (ok (record g { window = w.0; calls = calls }))
      (panic glad_not_loaded)
      (should_close-take_window answer 1024 512 g.window (create_window answer 1024 512 ∷ ready)) tt

pub init-should_close :
    (d : Driver) (local : Shader) (vertex_file fragment_file : List ℕ) (g : Graphics)
    → Ensures
        (λ g'. g'.window.should_close ≡ g.window.should_close)
        (init d local vertex_file fragment_file g)
unfolding init load_program make_buffers HasFlag
init-should_close d local vertex_file fragment_file g =
    Ensures-bind (HasFlag g) (HasFlag g) (open_window d g)
      (λ g1. ok (make_buffers d (load_program d local vertex_file fragment_file g1)))
      (open_window-HasFlag d g) (λ g1 e. e)
