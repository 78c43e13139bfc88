-- ===== src/Gpu/Opengl/Window.antt =====
-- Window of gpu/opengl/window.cpp. The pointer to the window of GLFW is an optional handle.
use cpp_station.Prelude.{ℕ, Bool, true, false, List, ◌∷◌, Option, none, some, if◌then◌else◌}
use cpp_station.Gpu.Opengl.Calls.{
  Call, Driver, window_hints, get_primary_monitor, create_window, terminate_library,
  make_context_current, set_user_pointer, viewport, set_key_callback, set_cursor_callback,
  set_button_callback, set_size_callback, set_should_close, destroy_window,
}
use cpp_station.Gpu.Opengl.Calls

pub record Window : Type 0 where
  pub native_window : Option ℕ
  pub width : ℕ
  pub height : ℕ
  pub should_close : Bool

-- The constructor, which sets `mShouldClose` alone: `w` is what the object held.
unfoldable pub new_window : Window → Window
new_window w = record w { should_close = false }

unfoldable pub make_current : Window → List Call → List Call
make_current w calls = make_context_current w.native_window ∷ calls

-- `init` after the call of `glfwCreateWindow` with its answer.
unfoldable pub take_window : Option ℕ → ℕ → ℕ → Window → List Call → Window × List Call
unfolding make_current
take_window none width height w calls =
    (record w { native_window = none }, terminate_library ∷ calls)
take_window (some n) width height w calls =
    let w' = record w { native_window = some n; width = width; height = height } in
    (w', set_user_pointer n ∷ make_current w' calls)

unfoldable pub init : Driver → ℕ → ℕ → Bool → Window → List Call → Window × List Call
unfolding take_window
init d width height full_screen_mode w calls =
    let hinted = window_hints ∷ calls in
    let ready = if full_screen_mode then get_primary_monitor ∷ hinted else hinted in
    let answer = d.new_window ready width height in
    take_window answer width height w (create_window answer width height ∷ ready)

unfoldable pub should_close : Driver → Window → List Call → Bool
should_close d w calls = elim w.native_window [
  | none ↦ true
  | some n ↦ if w.should_close then true else d.window_should_close calls n
]

unfoldable pub resize_callback : ℕ → ℕ → Window → List Call → Window × List Call
resize_callback new_width new_height w calls =
    (record w { width = new_width; height = new_height }, viewport new_width new_height ∷ calls)

unfoldable pub install_main_callbacks : Window → List Call → List Call
install_main_callbacks w calls = elim w.native_window [
  | none ↦ calls
  | some n ↦
      set_size_callback n
      ∷ set_button_callback n
      ∷ set_cursor_callback n
      ∷ set_key_callback n
      ∷ calls
]

unfoldable pub close : Window → List Call → List Call
close w calls = elim w.native_window [ none ↦ calls | some n ↦ set_should_close n ∷ calls ]

unfoldable pub swap_buffers : Window → List Call → List Call
swap_buffers w calls = elim w.native_window [ none ↦ calls | some n ↦ Calls.swap_buffers n ∷ calls ]

-- The destructor.
unfoldable pub delete_window : Window → List Call → List Call
delete_window w calls = elim w.native_window [ none ↦ calls | some n ↦ destroy_window n ∷ calls ]
