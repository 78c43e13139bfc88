-- ===== src/Gpu/Gp0/Interpreter/Refines.antt =====
-- The port does what the interpreter does.
use cpp_station.Prelude.{
  ℕ, ◌/◌, ◌%◌, ◌^◌, ◌<◌, ◌≡◌, ◌≢◌, refl, sym, ap, List, [], ◌∷◌, ◌++◌, some, arith,
}
use mathlib.Core.List.{append-nil, append_assoc}
use cpp_station.Outcome.{Outcome, ok, panic, fault, timeout, ◌>>=◌, Ensures}
use cpp_station.Gpu.Renderer.{Renderer, display}
use cpp_station.Gpu.State.{
  Gpu, image_load, Method, nop, clear_cache, quad_mono_opaque, quad_texture_blend_opaque,
  triangle_shaded_opaque, quad_shaded_opaque, do_image_load, image_store, draw_mode, texture_window,
  drawing_area_top_left, drawing_area_bottom_right, drawing_offset, mask_bit_setting,
}
use cpp_station.Gpu.Gp0.{command_table}
use cpp_station.Gpu.Gp0.Commands.{
  gp0_image_load, texture_depth_from_code, gp0_draw_mode, gp0_quad_mono_opaque,
  gp0_quad_texture_blend_opaque, gp0_triangle_shaded_opaque, gp0_quad_shaded_opaque,
  gp0_texture_window, gp0_drawing_area_top_left, gp0_drawing_area_bottom_right, gp0_drawing_offset,
  gp0_mask_bit_setting, run_command, param, with_offset, with_renderer,
}
use cpp_station.Gpu.Gp0.Feed.{length, nth, listed, feed, feed-++, parked}
use cpp_station.Gpu.Gp0.Collect.{feed-run_command, feed-image}
use cpp_station.Gpu.Gp0.Interpreter.{
  Command, IsCommand, AllCommands, HasPixels, IsIdle, perform, interpret, encode, with_params,
}

-- An outcome of the port against one of the interpreter.
abbrev pub Matches : Outcome Gpu → Outcome Gpu → Type 0
Matches (ok g) (ok h) = (parked g ≡ h) × IsIdle g
Matches (panic p) (panic q) = p ≡ q
Matches fault fault = Unit
Matches timeout timeout = Unit
Matches _ _ = ⊥ × Unit

Matches-bind :
    (m n : Outcome Gpu) (f k : Gpu → Outcome Gpu)
    → Matches m n
    → ((g : Gpu) → IsIdle g → Matches (f g) (k (parked g)))
    → Matches (m >>= f) (n >>= k)
Matches-bind (ok g) (ok h) f k (e, idle) next = rw (sym e) (next g idle)
Matches-bind (panic p) (panic q) f k e next = e
Matches-bind fault fault f k e next = tt
Matches-bind timeout timeout f k e next = tt
Matches-bind m n f k e next = absurd e.0

-- The same step on both sides, on states that differ in the registers of the port alone.
step-Matches :
    {A : Type 0} (x : Outcome A) (f k : A → Gpu)
    → ((a : A) → (parked (f a) ≡ parked (k a)) × IsIdle (f a))
    → Matches (x >>= λ a. ok (f a)) ((x >>= λ a. ok (k a)) >>= λ g. ok (parked g))
step-Matches (ok a) f k h = h a
step-Matches (panic p) f k h = refl
step-Matches fault f k h = tt
step-Matches timeout f k h = tt

drawn-Matches :
    (g h : Gpu) (x : Outcome Renderer)
    → IsIdle g
    → parked g ≡ parked h
    → Matches (with_renderer g x) (with_renderer h x >>= λ g'. ok (parked g'))
drawn-Matches g h x idle e =
    step-Matches x (λ r. record g { renderer = r }) (λ r. record h { renderer = r })
      (λ r. (ap (λ (k : Gpu). record k { renderer = r }) e, idle))

-- The number of words of each command.
size : Method → ℕ
size nop = 1
size clear_cache = 1
size quad_mono_opaque = 5
size quad_texture_blend_opaque = 9
size triangle_shaded_opaque = 6
size quad_shaded_opaque = 8
size do_image_load = 3
size image_store = 3
size draw_mode = 1
size texture_window = 1
size drawing_area_top_left = 1
size drawing_area_bottom_right = 1
size drawing_offset = 1
size mask_bit_setting = 1

size-command_table : (opcode n : ℕ) (m : Method) → command_table opcode ≡ some (n, m) → n ≡ size m
unfolding size
size-command_table opcode n m e = ground arith

-- Every command but the image load, on the parameters that the port has collected.
run_command-Matches :
    (m : Method) (g : Gpu)
    → IsIdle g
    → m ≢ do_image_load
    → Matches (run_command m g) (perform m (listed (size m) (param g)) (parked g))
unfolding run_command perform size gp0_draw_mode gp0_quad_mono_opaque gp0_quad_texture_blend_opaque
    gp0_triangle_shaded_opaque gp0_quad_shaded_opaque gp0_texture_window gp0_drawing_area_top_left
    gp0_drawing_area_bottom_right gp0_drawing_offset gp0_mask_bit_setting
run_command-Matches nop g h ne = (refl, h)
run_command-Matches clear_cache g h ne = (refl, h)
run_command-Matches quad_mono_opaque g h ne = drawn-Matches g _ _ h refl
run_command-Matches quad_texture_blend_opaque g h ne = drawn-Matches g _ _ h refl
run_command-Matches triangle_shaded_opaque g h ne = drawn-Matches g _ _ h refl
run_command-Matches quad_shaded_opaque g h ne = drawn-Matches g _ _ h refl
run_command-Matches do_image_load g h ne = absurd (ne refl)
run_command-Matches image_store g h ne = (refl, h)
run_command-Matches draw_mode g h ne =
    step-Matches (texture_depth_from_code (param g 0 / 2 ^ 7 % 2 ^ 2)) _ _ (λ depth. (refl, h))
run_command-Matches texture_window g h ne = (refl, h)
run_command-Matches drawing_area_top_left g h ne = (refl, h)
run_command-Matches drawing_area_bottom_right g h ne = (refl, h)
run_command-Matches drawing_offset g h ne =
    drawn-Matches (with_offset g (param g 0))
      (with_offset (with_params (listed 1 (param g)) (parked g)) (param g 0)) (display g.renderer) h
      refl
run_command-Matches mask_bit_setting g h ne = (refl, h)

Matches-with :
    (m : Method) (ws : List ℕ) (g g' : Gpu)
    → IsIdle g'
    → m ≢ do_image_load
    → listed (size m) (param g') ≡ ws
    → parked g' ≡ parked g
    → Matches (run_command m g') (perform m ws (parked g))
Matches-with m ws g g' idle ne params same =
    rw (sym params, sym same) (run_command-Matches m g' idle ne)

other_fed :
    (m : Method) (v : ℕ) (vs px : List ℕ) (g : Gpu)
    → IsIdle g
    → m ≢ do_image_load
    → px ≡ []
    → command_table (v / 2 ^ 24 % 2 ^ 8) ≡ some (length (v ∷ vs), m)
    → Matches (feed ((v ∷ vs) ++ px) g) (perform m (v ∷ vs) (parked g))
other_fed m v vs px g (mode, none_left) ne none opcode =
    let n = size-command_table (v / 2 ^ 24 % 2 ^ 8) (length (v ∷ vs)) m opcode in
    let (g', run, params, done, mode', same) =
      feed-run_command g v (size m) m vs mode none_left (rw n at opcode) n in
    rw (none, append-nil, run) (Matches-with m (v ∷ vs) g g' (mode', done) ne params same)

pixels_fed :
    (g : Gpu) (px : List ℕ)
    → g.gp0_mode ≡ image_load
    → g.gp0_words_remaining ≡ length px
    → 0 < length px
    → length px < 2 ^ 32
    → Matches (feed px g) (ok (parked g))
pixels_fed g [] mode words more fits = absurd (omega arith)
pixels_fed g (p ∷ ps) mode words more fits =
    rw (feed-image g p ps mode words (omega arith)) (refl, (refl, refl))

image_fed :
    (v : ℕ) (vs px : List ℕ) (g : Gpu)
    → IsIdle g
    → HasPixels do_image_load (v ∷ vs) px
    → command_table (v / 2 ^ 24 % 2 ^ 8) ≡ some (length (v ∷ vs), do_image_load)
    → Matches (feed ((v ∷ vs) ++ px) g) (perform do_image_load (v ∷ vs) (parked g))
unfolding run_command perform gp0_image_load size
image_fed v vs px g (mode, none_left) (words, more, fits) opcode =
    let n = size-command_table (v / 2 ^ 24 % 2 ^ 8) (length (v ∷ vs)) do_image_load opcode in
    let (g', run, params, done, mode', same) =
      feed-run_command g v 3 do_image_load vs mode none_left (rw n at opcode) n in
    let second : param g' 2 ≡ nth (v ∷ vs) 2 = ap (λ (ws : List ℕ). nth ws 2) params in
    rw (feed-++ (v ∷ vs) px g, run, sym same)
      (pixels_fed (gp0_image_load g') px refl (rw second words) more fits)

-- One command, whole.
fed :
    (m : Method) (v : ℕ) (vs px : List ℕ) (g : Gpu)
    → IsIdle g
    → HasPixels m (v ∷ vs) px
    → command_table (v / 2 ^ 24 % 2 ^ 8) ≡ some (length (v ∷ vs), m)
    → Matches (feed ((v ∷ vs) ++ px) g) (perform m (v ∷ vs) (parked g))
fed do_image_load v vs px g idle h opcode = image_fed v vs px g idle h opcode
fed m v vs px g idle h opcode = other_fed m v vs px g idle (λ e. ground arith) h opcode

command_fed :
    (c : Command) (g : Gpu)
    → IsIdle g
    → IsCommand c
    → Matches (feed (c.words ++ c.pixels) g) (perform c.method c.words (parked g))
command_fed c g idle h = rw h.words_lem (
    fed c.method h.first h.rest c.pixels g idle (rw h.words_lem at h.image)
      (rw h.words_lem at h.opcode))

feed-encode :
    (cs : List Command) (g : Gpu)
    → IsIdle g
    → AllCommands cs
    → Matches (feed (encode cs) g) (interpret cs (parked g))
unfolding feed interpret
feed-encode [] g idle h = (refl, idle)
feed-encode (c ∷ cs) g idle (h, hs) =
    rw
      (sym (append_assoc c.words c.pixels (encode cs)), feed-++ (c.words ++ c.pixels) (encode cs) g)
      (Matches-bind (feed (c.words ++ c.pixels) g) (perform c.method c.words (parked g)) _ _
        (command_fed c g idle h) (λ g' waits. feed-encode cs g' waits hs))

Matches-parked : (m n : Outcome Gpu) → Matches m n → (m >>= λ g. ok (parked g)) ≡ n
Matches-parked (ok g) (ok h) e = ap ok e.0
Matches-parked (panic p) (panic q) e = ap panic e
Matches-parked fault fault e = refl
Matches-parked timeout timeout e = refl
Matches-parked m n e = absurd e.0

Matches-IsIdle : (m n : Outcome Gpu) → Matches m n → Ensures IsIdle m
Matches-IsIdle (ok g) (ok h) e = e.1
Matches-IsIdle (panic p) n e = tt
Matches-IsIdle fault n e = tt
Matches-IsIdle timeout n e = tt
Matches-IsIdle (ok g) n e = absurd e.0

-- From an idle port the words of any sequence of commands, each as long as the table says and an
-- image command followed by as many words as its size needs, at least one, have the outcome that
-- an interpreter of whole commands gives, which runs each command's method on its words and
-- passes over the image, and has neither buffer nor count nor modes; the two agree but for the
-- registers of the port, and the port is idle again if the outcome is normal.
pub feed-interpret :
    (cs : List Command) (g : Gpu)
    → IsIdle g
    → AllCommands cs
    → ((feed (encode cs) g >>= λ g'. ok (parked g')) ≡ interpret cs (parked g))
      × Ensures IsIdle (feed (encode cs) g)
feed-interpret cs g idle h =
    let both = feed-encode cs g idle h in (Matches-parked _ _ both, Matches-IsIdle _ _ both)
