-- ===== src/Ui/Input.antt =====
-- The keys and the mouse: the callbacks that GLFW calls, and the questions about their state. The
-- constants of GLFW and the conversion of `double` to `float` are parameters; `key` and `button` are
-- `int`, and may be negative.
pub mod Latest
use cpp_station.Prelude.{
  ℕ, Bool, false, List, [], ◌∷◌, Option, none, some, ltb, ◌==◌, if◌then◌else◌, update,
}
use cpp_station.Prelude.Int.{ℤ, pos, negsuc}

-- `GLFW_KEY_LAST`, `GLFW_MOUSE_BUTTON_LAST` and `GLFW_PRESS`.
pub record Glfw : Type 0 where
  pub key_last : ℕ
  pub mouse_button_last : ℕ
  pub press : ℕ

-- The calls of the callbacks, each with its arguments but for the window and the unused ones.
pub data Event (Double : Type 0) : Type 0 where
  key_event : ℤ → ℕ → Event Double
  mouse_event : Double → Double → Event Double
  mouse_button_event : ℤ → ℕ → Event Double
  mouse_scroll_event : Double → Double → Event Double

-- The global variables.
pub record Input (Float : Type 0) : Type 0 where
  pub key_pressed_data : ℕ → Bool
  pub mouse_button_pressed_data : ℕ → Bool
  pub mouse_x : Float
  pub mouse_y : Float
  pub mouse_scroll_x : Float
  pub mouse_scroll_y : Float

-- At the start of the program, with 0.0f for `zero_float`.
unfoldable pub initial : {Float : Type 0} → Float → Input Float
initial zero_float = record {
  key_pressed_data = λ _. false;
  mouse_button_pressed_data = λ _. false;
  mouse_x = zero_float;
  mouse_y = zero_float;
  mouse_scroll_x = zero_float;
  mouse_scroll_y = zero_float;
}

-- `n >= 0 && n < last`, and the index that it allows.
abbrev pub index_below : ℕ → ℤ → Option ℕ
index_below last (pos n) = if ltb n last then some n else none
index_below last (negsuc n) = none

-- `data[n] = action == GLFW_PRESS` where the index is allowed, and the same for reading.
abbrev pub set_pressed : Option ℕ → Bool → (ℕ → Bool) → ℕ → Bool
set_pressed none b pressed = pressed
set_pressed (some n) b pressed = update pressed n b

abbrev pub get_pressed : Option ℕ → (ℕ → Bool) → Bool
get_pressed none pressed = false
get_pressed (some n) pressed = pressed n

unfoldable pub key_callback : {Float : Type 0} → Glfw → ℤ → ℕ → Input Float → Input Float
key_callback glfw key action s = record s {
  key_pressed_data =
      set_pressed (index_below glfw.key_last key) (action == glfw.press) s.key_pressed_data;
}

unfoldable pub mouse_callback :
    {Double Float : Type 0} → (Double → Float) → Double → Double → Input Float → Input Float
mouse_callback to_float xpos ypos s = record s { mouse_x = to_float xpos; mouse_y = to_float ypos }

unfoldable pub mouse_button_callback : {Float : Type 0} → Glfw → ℤ → ℕ → Input Float → Input Float
mouse_button_callback glfw button action s = record s {
  mouse_button_pressed_data =
      set_pressed (index_below glfw.mouse_button_last button) (action == glfw.press)
        s.mouse_button_pressed_data;
}

unfoldable pub mouse_scroll_callback :
    {Double Float : Type 0} → (Double → Float) → Double → Double → Input Float → Input Float
mouse_scroll_callback to_float xoffset yoffset s = record s {
  mouse_scroll_x = to_float xoffset;
  mouse_scroll_y = to_float yoffset;
}

unfoldable pub is_key_down : {Float : Type 0} → Glfw → ℤ → Input Float → Bool
is_key_down glfw key s = get_pressed (index_below glfw.key_last key) s.key_pressed_data

unfoldable pub is_mouse_button_down : {Float : Type 0} → Glfw → ℤ → Input Float → Bool
is_mouse_button_down glfw button s =
    get_pressed (index_below glfw.mouse_button_last button) s.mouse_button_pressed_data

-- One event, and a sequence of them, the first of the list first.
unfoldable pub handle :
    {Double Float : Type 0} → Glfw → (Double → Float) → Event Double → Input Float → Input Float
unfolding key_callback mouse_callback mouse_button_callback mouse_scroll_callback
handle glfw to_float (key_event key action) s = key_callback glfw key action s
handle glfw to_float (mouse_event x y) s = mouse_callback to_float x y s
handle glfw to_float (mouse_button_event button action) s =
    mouse_button_callback glfw button action s
handle glfw to_float (mouse_scroll_event x y) s = mouse_scroll_callback to_float x y s

unfoldable pub handle_all :
    {Double Float : Type 0}
    → Glfw
    → (Double → Float)
    → List (Event Double)
    → Input Float
    → Input Float
unfolding handle
handle_all glfw to_float [] s = s
handle_all glfw to_float (e ∷ es) s = handle_all glfw to_float es (handle glfw to_float e s)
