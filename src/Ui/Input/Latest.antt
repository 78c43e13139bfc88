-- ===== src/Ui/Input/Latest.antt =====
-- A key or a button is down exactly when the last event about it was a press.
use cpp_station.Prelude.{
  ℕ, ◌≡◌, refl, ◌∙◌, ap, Bool, true, false, List, [], ◌∷◌, ltb, ◌==◌, if◌then◌else◌, arith,
  Bool-cases, inl, inr,
}
use cpp_station.Prelude.Int.{ℤ, pos, negsuc}
use cpp_station.Ui.Input.{
  Glfw, Event, key_event, mouse_button_event, Input, initial, handle, handle_all, is_key_down,
  is_mouse_button_down,
}

-- Whether the key `k` was last pressed, or else `before`: by the events alone.
abbrev pub key_pressed : {Double : Type 0} → Glfw → ℕ → List (Event Double) → Bool → Bool
key_pressed glfw k [] before = before
key_pressed glfw k (key_event (pos n) action ∷ es) before =
    key_pressed glfw k es (if n == k then action == glfw.press else before)
key_pressed glfw k (e ∷ es) before = key_pressed glfw k es before

abbrev pub button_pressed : {Double : Type 0} → Glfw → ℕ → List (Event Double) → Bool → Bool
button_pressed glfw k [] before = before
button_pressed glfw k (mouse_button_event (pos n) action ∷ es) before =
    button_pressed glfw k es (if n == k then action == glfw.press else before)
button_pressed glfw k (e ∷ es) before = button_pressed glfw k es before

key_pressed_data-handle_all :
    {Double Float : Type 0} (glfw : Glfw) (to_float : Double → Float) (k : ℕ)
    (es : List (Event Double)) (s : Input Float)
    → ltb k glfw.key_last ≡ true
    → (handle_all glfw to_float es s).key_pressed_data k
      ≡ key_pressed glfw k es (s.key_pressed_data k)
unfolding handle_all handle
key_pressed_data-handle_all glfw to_float k [] s h = refl
key_pressed_data-handle_all glfw to_float k (key_event (pos n) action ∷ es) s h =
    key_pressed_data-handle_all glfw to_float k es
      (handle glfw to_float (key_event (pos n) action) s) h
    ∙ ap (key_pressed glfw k es) (ground (arith, h))
key_pressed_data-handle_all glfw to_float k (e ∷ es) s h =
    key_pressed_data-handle_all glfw to_float k es (handle glfw to_float e s) h

button_data-handle_all :
    {Double Float : Type 0} (glfw : Glfw) (to_float : Double → Float) (k : ℕ)
    (es : List (Event Double)) (s : Input Float)
    → ltb k glfw.mouse_button_last ≡ true
    → (handle_all glfw to_float es s).mouse_button_pressed_data k
      ≡ button_pressed glfw k es (s.mouse_button_pressed_data k)
unfolding handle_all handle
button_data-handle_all glfw to_float k [] s h = refl
button_data-handle_all glfw to_float k (mouse_button_event (pos n) action ∷ es) s h =
    button_data-handle_all glfw to_float k es
      (handle glfw to_float (mouse_button_event (pos n) action) s) h
    ∙ ap (button_pressed glfw k es) (ground (arith, h))
button_data-handle_all glfw to_float k (e ∷ es) s h =
    button_data-handle_all glfw to_float k es (handle glfw to_float e s) h

-- After any sequence of events a key or a mouse button is down exactly when its number is at
-- least 0 and below the last one and the last event about it was a press; cursor and scroll
-- events and events about other keys and buttons do not matter.
pub is_key_down-handle_all :
    {Double Float : Type 0} (glfw : Glfw) (to_float : Double → Float) (k : ℤ)
    (es : List (Event Double)) (zero_float : Float)
    → let s = handle_all glfw to_float es (initial zero_float) in
      (is_key_down glfw k s ≡ (elim k [
        | pos n ↦ if ltb n glfw.key_last then key_pressed glfw n es false else false
        | negsuc n ↦ false
      ]))
      × (is_mouse_button_down glfw k s ≡ (elim k [
        | pos n ↦ if ltb n glfw.mouse_button_last then button_pressed glfw n es false else false
        | negsuc n ↦ false
      ]))
unfolding is_key_down is_mouse_button_down initial
is_key_down-handle_all glfw to_float (negsuc n) es z = (refl, refl)
is_key_down-handle_all glfw to_float (pos n) es z = (
  (elim (Bool-cases (ltb n glfw.key_last)) [
    | inl e ↦ rw e (key_pressed_data-handle_all glfw to_float n es (initial z) e)
    | inr e ↦ rw e refl
  ]),
  (elim (Bool-cases (ltb n glfw.mouse_button_last)) [
    | inl e ↦ rw e (button_data-handle_all glfw to_float n es (initial z) e)
    | inr e ↦ rw e refl
  ]),
)
