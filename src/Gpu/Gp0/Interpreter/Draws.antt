-- ===== src/Gpu/Gp0/Interpreter/Draws.antt =====
-- The vertices that a sequence of GP0 commands draws.
use cpp_station.Prelude.{ℕ, sym, ap, ◌∙◌, List, [], ◌∷◌, ◌++◌, arith}
use mathlib.Core.Path.{subst}
use mathlib.Core.List.{append-nil, append_assoc}
use cpp_station.Outcome.{Outcome, ok, panic, fault, timeout, ◌>>=◌, Safe, Safe-bind, Safe-imp}
use cpp_station.Gpu.Renderer.{
  Renderer, Color, Vertex, display, position_from_packed, color_from_packed,
}
use cpp_station.Gpu.Renderer.Queue.{
  IsBounded, stream, Pushed, push_triangle-Pushed, push_quad-Pushed, display-Pushed,
}
use cpp_station.Gpu.State.{
  Gpu, Method, nop, clear_cache, quad_mono_opaque, quad_texture_blend_opaque,
  triangle_shaded_opaque, quad_shaded_opaque, do_image_load, image_store, draw_mode, texture_window,
  drawing_area_top_left, drawing_area_bottom_right, drawing_offset, mask_bit_setting,
}
use cpp_station.Gpu.Gp0.Commands.{
  run_command, param, texture_depth_from_code, gp0_draw_mode, gp0_quad_mono_opaque,
  gp0_quad_texture_blend_opaque, gp0_triangle_shaded_opaque, gp0_quad_shaded_opaque, with_offset,
  with_renderer, gp0_image_load, gp0_texture_window, gp0_drawing_area_top_left,
  gp0_drawing_area_bottom_right, gp0_drawing_offset, gp0_mask_bit_setting,
}
use cpp_station.Gpu.Gp0.Feed.{nth, feed, parked}
use cpp_station.Gpu.Gp0.Interpreter.{
  Command, AllCommands, IsIdle, encode, interpret, perform, with_params,
}
use cpp_station.Gpu.Gp0.Interpreter.Refines.{feed-interpret}

-- A vertex of two words, and the two triangles of four vertices.
abbrev vertex : ℕ → Color → Vertex
vertex word color = record { pos = position_from_packed word; color = color }

abbrev shaded : ℕ → ℕ → Vertex
shaded color word = vertex word (color_from_packed color)

abbrev two_triangles : Vertex → Vertex → Vertex → Vertex → List Vertex
two_triangles v1 v2 v3 v4 = v1 ∷ v2 ∷ v3 ∷ v2 ∷ v3 ∷ v4 ∷ []

abbrev red : Color
red = record { r = 255; g = 0; b = 0 }

-- The vertices of a command, by its words alone; a texture is solid red.
abbrev pub drawn_by : Method → (ℕ → ℕ) → List Vertex
drawn_by quad_mono_opaque w =
    let c = color_from_packed (w 0) in
    two_triangles (vertex (w 1) c) (vertex (w 2) c) (vertex (w 3) c) (vertex (w 4) c)
drawn_by quad_texture_blend_opaque w =
    two_triangles (vertex (w 1) red) (vertex (w 3) red) (vertex (w 5) red) (vertex (w 7) red)
drawn_by triangle_shaded_opaque w =
    shaded (w 0) (w 1) ∷ shaded (w 2) (w 3) ∷ shaded (w 4) (w 5) ∷ []
drawn_by quad_shaded_opaque w =
    two_triangles (shaded (w 0) (w 1)) (shaded (w 2) (w 3)) (shaded (w 4) (w 5))
      (shaded (w 6) (w 7))
drawn_by m w = []

abbrev pub drawn_by_all : List Command → List Vertex
drawn_by_all [] = []
drawn_by_all (c ∷ cs) = drawn_by c.method (nth c.words) ++ drawn_by_all cs

-- `g'` has drawn `vs` more than `g`, and its queue is within the buffer.
abbrev pub Draws : Gpu → List Vertex → Gpu → Type 0
Draws g vs g' = Pushed g.renderer vs g'.renderer

-- Nothing is drawn.
Draws-none : (g : Gpu) → IsBounded g.renderer → Draws g [] g
Draws-none g b = (b, sym (append-nil (stream g.renderer)))

with_renderer-Draws :
    (g g' : Gpu) (vs : List Vertex) (m : Outcome Renderer)
    → Safe (Pushed g.renderer vs) m
    → Safe (Draws g vs) (with_renderer g' m)
with_renderer-Draws g g' vs m h =
    Safe-bind (Pushed g.renderer vs) (Draws g vs) m (λ r. ok (record g' { renderer = r })) h
      (λ r k. k)

draw_mode-Draws : (g : Gpu) → IsBounded g.renderer → Safe (Draws g []) (gp0_draw_mode g)
unfolding gp0_draw_mode texture_depth_from_code
draw_mode-Draws g b = ground (arith, sym (append-nil (stream g.renderer)))

run_command-Draws :
    (m : Method) (g : Gpu)
    → IsBounded g.renderer
    → Safe (Draws g (drawn_by m (param g))) (run_command m g)
unfolding run_command gp0_quad_mono_opaque gp0_quad_texture_blend_opaque gp0_triangle_shaded_opaque
    gp0_quad_shaded_opaque gp0_image_load gp0_texture_window gp0_drawing_area_top_left
    gp0_drawing_area_bottom_right gp0_drawing_offset gp0_mask_bit_setting
run_command-Draws quad_mono_opaque g b =
    with_renderer-Draws g g _ _ (push_quad-Pushed g.renderer _ _ _ _ b)
run_command-Draws quad_texture_blend_opaque g b =
    with_renderer-Draws g g _ _ (push_quad-Pushed g.renderer _ _ _ _ b)
run_command-Draws triangle_shaded_opaque g b =
    with_renderer-Draws g g _ _ (push_triangle-Pushed g.renderer _ _ _ b)
run_command-Draws quad_shaded_opaque g b =
    with_renderer-Draws g g _ _ (push_quad-Pushed g.renderer _ _ _ _ b)
run_command-Draws draw_mode g b = draw_mode-Draws g b
run_command-Draws drawing_offset g b =
    with_renderer-Draws g (with_offset g (param g 0)) [] (display g.renderer) (
      Safe-imp _ (Pushed g.renderer []) (display g.renderer) (λ r k. k.0)
        (display-Pushed g.renderer b))
run_command-Draws nop g b = Draws-none g b
run_command-Draws clear_cache g b = Draws-none g b
run_command-Draws do_image_load g b = Draws-none g b
run_command-Draws image_store g b = Draws-none g b
run_command-Draws texture_window g b = Draws-none g b
run_command-Draws drawing_area_top_left g b = Draws-none g b
run_command-Draws drawing_area_bottom_right g b = Draws-none g b
run_command-Draws mask_bit_setting g b = Draws-none g b

Safe-after :
    (P : Gpu → Type 0) (m : Outcome Gpu)
    → Safe P (m >>= λ g. ok (parked g))
    → Safe (λ g. P (parked g)) m
Safe-after P (ok g) h = h
Safe-after P (panic p) h = tt
Safe-after P fault h = h
Safe-after P timeout h = h

perform-Draws :
    (m : Method) (ws : List ℕ) (g : Gpu)
    → IsBounded g.renderer
    → Safe (Draws g (drawn_by m (nth ws))) (perform m ws g)
unfolding perform
perform-Draws m ws g b =
    Safe-bind (Draws (with_params ws g) (drawn_by m (nth ws))) (Draws g (drawn_by m (nth ws)))
      (run_command m (with_params ws g)) (λ g'. ok (parked g'))
      (run_command-Draws m (with_params ws g) b) (λ g' e. e)

interpret-Draws :
    (cs : List Command) (g : Gpu)
    → IsBounded g.renderer
    → Safe (Draws g (drawn_by_all cs)) (interpret cs g)
unfolding interpret
interpret-Draws [] g b = Draws-none g b
interpret-Draws (c ∷ cs) g b =
    Safe-bind (Draws g (drawn_by c.method (nth c.words))) (Draws g (drawn_by_all (c ∷ cs)))
      (perform c.method c.words g) (λ g'. interpret cs g') (perform-Draws c.method c.words g b)
      (λ g' (b', e).
        Safe-imp (Draws g' (drawn_by_all cs)) (Draws g (drawn_by_all (c ∷ cs))) (interpret cs g')
          (λ g'' (b'', e'). (
            b'',
            e'
                ∙ ap (λ l. l ++ drawn_by_all cs) e
                ∙ append_assoc (stream g.renderer) (drawn_by c.method (nth c.words))
                    (drawn_by_all cs),
          ))
          (interpret-Draws cs g' b'))

-- The words of any sequence of commands, as for feed-interpret, written to an idle port with the
-- vertex queue within its buffer, end normally or by panic, with no access outside a buffer. When
-- they end normally the queue is within its buffer and the stream of the vertices drawn or queued
-- has grown by those that the words of the commands name, in their order: six for a quad, three
-- for a triangle and none for any other command.
pub feed-Draws :
    (cs : List Command) (g : Gpu)
    → IsIdle g
    → IsBounded g.renderer
    → AllCommands cs
    → Safe (Draws g (drawn_by_all cs)) (feed (encode cs) g)
feed-Draws cs g i b h = Safe-after (Draws g (drawn_by_all cs)) (feed (encode cs) g) (
    subst (Safe (Draws g (drawn_by_all cs))) (sym (feed-interpret cs g i h).0)
      (interpret-Draws cs (parked g) b))
