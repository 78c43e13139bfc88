-- ===== src/Gpu/Renderer.antt =====
-- `Renderer` of gpu/opengl/renderer.cpp, from `pushVertex` to `display`. The calls of OpenGL and
-- GLFW are what leaves the program, so they are recorded as events, latest first: `drawn` is a
-- `glClear`, an upload and a `glDrawArraysInstanced` of the queued vertices, `swapped` is a
-- `swapBuffers` and a `glfwPollEvents`. The set-up of the window and the shaders is in Gpu.Opengl.
pub mod Queue
use cpp_station.Prelude.{
  ℕ, zero, suc, ◌+◌, ◌*◌, ◌<◌, List, [], ◌∷◌, ◌++◌, ltb, update, if◌then◌else◌,
}
use cpp_station.Word.{u8, u16, shr, add32}
use cpp_station.Outcome.{Outcome, ok, fault, ◌>>=◌}

abbrev pub vertex_buffer_len : ℕ
vertex_buffer_len = 16 * 1024

-- Two `int16_t`, as their bits.
pub record Position : Type 0 where
  pub x : ℕ
  pub y : ℕ

-- Three floats, which the program only makes by dividing a byte by 255, or as 1 and 0: each is kept
-- as the number of 255ths.
pub record Color : Type 0 where
  pub r : ℕ
  pub g : ℕ
  pub b : ℕ

pub record Vertex : Type 0 where
  pub pos : Position
  pub color : Color

-- `Position::fromPacked` and `Color::fromPacked`.
unfoldable pub position_from_packed : ℕ → Position
position_from_packed val = record { x = u16 val; y = u16 (shr val 16) }

unfoldable pub color_from_packed : ℕ → Color
color_from_packed val = record { r = u8 val; g = u8 (shr val 8); b = u8 (shr val 16) }

pub data Event : Type 0 where
  drawn : List Vertex → Event
  swapped : Event

pub record Renderer : Type 0 where
  pub vertex_buf : ℕ → Vertex
  pub vertices_num : ℕ
  pub events : List Event

-- The first entries of the buffer.
abbrev pub prefix : ℕ → (ℕ → Vertex) → List Vertex
prefix zero buf = []
prefix (suc n) buf = prefix n buf ++ buf n ∷ []

-- What a draw leaves.
unfoldable pub flushed : Renderer → Renderer
flushed r = record r {
  vertices_num = 0;
  events = drawn (prefix r.vertices_num r.vertex_buf) ∷ r.events;
}

-- The upload reads `mVerticesNum` entries of the buffer.
unfoldable pub draw : Renderer → Outcome Renderer
unfolding flushed
draw r = if ltb vertex_buffer_len r.vertices_num then fault else ok (flushed r)

-- `draw()` where `n` more vertices do not fit.
make_room : ℕ → Renderer → Outcome Renderer
unfolding draw
make_room n r = if ltb vertex_buffer_len (add32 r.vertices_num n) then draw r else ok r

-- `mVertexBuf[mVerticesNum] = v; mVerticesNum++;`
append : Renderer → Vertex → Outcome Renderer
append r v =
    if ltb r.vertices_num vertex_buffer_len
    then ok (record r {
      vertex_buf = update r.vertex_buf r.vertices_num v;
      vertices_num = add32 r.vertices_num 1;
    })
    else fault

unfoldable pub push_vertex : Renderer → Vertex → Outcome Renderer
unfolding make_room append
push_vertex r v = make_room 1 r >>= λ r1. append r1 v

unfoldable pub push_triangle : Renderer → Vertex → Vertex → Vertex → Outcome Renderer
unfolding make_room push_vertex
push_triangle r v1 v2 v3 = do
  r1 ← make_room 3 r
  r2 ← push_vertex r1 v1
  r3 ← push_vertex r2 v2
  push_vertex r3 v3

unfoldable pub push_quad : Renderer → Vertex → Vertex → Vertex → Vertex → Outcome Renderer
unfolding make_room push_triangle
push_quad r v1 v2 v3 v4 = do
  r1 ← make_room 4 r
  r2 ← push_triangle r1 v1 v2 v3
  push_triangle r2 v2 v3 v4

unfoldable pub display : Renderer → Outcome Renderer
unfolding draw
display r = draw r >>= λ r'. ok (record r' { events = swapped ∷ r'.events })

unfoldable pub new_renderer : Vertex → Renderer
new_renderer garbage = record { vertex_buf = λ _. garbage; vertices_num = 0; events = [] }
