-- ===== src/Gpu/Renderer/Queue.antt =====
-- The vertex queue: its bound, and the vertices that reach OpenGL.
use cpp_station.Prelude.{
  ℕ, zero, suc, ◌+◌, ◌≤◌, ◌<◌, ◌≡◌, refl, sym, ◌∙◌, ap, List, [], ◌∷◌, ◌++◌, update, ltb,
  if◌then◌else◌, ◌%◌, ◌^◌, ==_false, ==_true, arith,
}
use mathlib.Core.List.{append-nil, append_assoc}
use native.Mathlib.Numerals.{add-one}
use cpp_station.Outcome.{Outcome, ok, ◌>>=◌, Safe, Safe-bind, Safe-imp}
use cpp_station.Gpu.Renderer.{
  Renderer, Vertex, Event, drawn, swapped, prefix, vertex_buffer_len, draw, flushed, make_room,
  append, push_vertex, push_triangle, push_quad, display,
}

-- The queue is within its buffer.
abbrev pub IsBounded : Renderer → Type 0
IsBounded r = r.vertices_num ≤ vertex_buffer_len

-- All vertices so far in their order: those given to OpenGL, and then those in the queue.
abbrev events_stream : List Event → List Vertex
events_stream [] = []
events_stream (drawn vs ∷ es) = events_stream es ++ vs
events_stream (swapped ∷ es) = events_stream es

unfoldable pub stream : Renderer → List Vertex
stream r = events_stream r.events ++ prefix r.vertices_num r.vertex_buf

-- The renderer after the vertices `vs` of a call have been queued or drawn.
abbrev pub Pushed : Renderer → List Vertex → Renderer → Type 0
Pushed r vs r' = IsBounded r' × (stream r' ≡ stream r ++ vs)

prefix-update :
    (n m : ℕ) (buf : ℕ → Vertex) (v : Vertex) → n ≤ m → prefix n (update buf m v) ≡ prefix n buf
prefix-update zero m buf v h = refl
prefix-update (suc n) m buf v h =
    rw (prefix-update n m buf v (omega arith)) (rw (==_false m n (omega arith)))

stream-flushed : (r : Renderer) → stream (flushed r) ≡ stream r
unfolding stream flushed
stream-flushed r = append-nil _

flushed-vertices_num : (r : Renderer) → (flushed r).vertices_num ≡ 0
unfolding flushed
flushed-vertices_num r = refl

draw-flushed : (r : Renderer) → IsBounded r → draw r ≡ ok (flushed r)
unfolding draw
draw-flushed r h = ground arith

-- The queue with room for `k` vertices.
roomed : ℕ → Renderer → Renderer
roomed k r = if ltb vertex_buffer_len (r.vertices_num + k) then flushed r else r

make_room-roomed :
    (k : ℕ) (r : Renderer) → k ≤ vertex_buffer_len → IsBounded r → make_room k r ≡ ok (roomed k r)
unfolding make_room roomed
make_room-roomed k r h b = ground (arith, draw-flushed r b)

stream-roomed : (k : ℕ) (r : Renderer) → stream (roomed k r) ≡ stream r
unfolding roomed
stream-roomed k r = ground (arith, stream-flushed r)

roomed_fits :
    (k : ℕ) (r : Renderer)
    → k ≤ vertex_buffer_len
    → (roomed k r).vertices_num + k ≤ vertex_buffer_len
unfolding roomed
roomed_fits k r h = ground (arith, flushed-vertices_num r)

-- The queue with one more vertex.
appended : Renderer → Vertex → Renderer
appended r v = record r {
  vertex_buf = update r.vertex_buf r.vertices_num v;
  vertices_num = r.vertices_num + 1;
}

append-appended :
    (r : Renderer) (v : Vertex)
    → r.vertices_num < vertex_buffer_len
    → append r v ≡ ok (appended r v)
unfolding append appended
append-appended r v h = rw (small (r.vertices_num + 1) (omega arith)) (ground arith)
  where
    small : (n : ℕ) → n < 2 ^ 32 → n % 2 ^ 32 ≡ n
    small n k = omega arith

stream-appended : (r : Renderer) (v : Vertex) → stream (appended r v) ≡ stream r ++ v ∷ []
unfolding stream appended
stream-appended r v =
    rw
      (
        add-one,
        prefix-update r.vertices_num r.vertices_num r.vertex_buf v (omega arith),
        ==_true r.vertices_num r.vertices_num refl,
      )
      (sym (append_assoc (events_stream r.events) (prefix r.vertices_num r.vertex_buf) (v ∷ [])))

-- Room may be made first, and calls may follow one another.
Pushed-make_room :
    (k : ℕ) (r : Renderer) (vs : List Vertex) (f : Renderer → Outcome Renderer)
    → k ≤ vertex_buffer_len
    → IsBounded r
    → Safe (Pushed (roomed k r) vs) (f (roomed k r))
    → Safe (Pushed r vs) (make_room k r >>= f)
Pushed-make_room k r vs f fits b h = rw (make_room-roomed k r fits b) (
    Safe-imp (Pushed (roomed k r) vs) (Pushed r vs) (f (roomed k r))
      (λ r' (n, e). (n, e ∙ ap (λ ws. ws ++ vs) (stream-roomed k r))) h)

Pushed-append :
    (r : Renderer) (vs ws : List Vertex) (m : Outcome Renderer) (f : Renderer → Outcome Renderer)
    → Safe (Pushed r vs) m
    → ((r' : Renderer) → IsBounded r' → Safe (Pushed r' ws) (f r'))
    → Safe (Pushed r (vs ++ ws)) (m >>= f)
Pushed-append r vs ws m f h k = Safe-bind (Pushed r vs) (Pushed r (vs ++ ws)) m f h (λ r' (b, e).
    Safe-imp (Pushed r' ws) (Pushed r (vs ++ ws)) (f r')
      (λ r2 (b', e'). (b', e' ∙ ap (λ us. us ++ ws) e ∙ append_assoc (stream r) vs ws)) (k r' b))

push_vertex-Pushed :
    (r : Renderer) (v : Vertex) → IsBounded r → Safe (Pushed r (v ∷ [])) (push_vertex r v)
unfolding push_vertex
push_vertex-Pushed r v b =
    let room = roomed_fits 1 r (omega arith) in
    Pushed-make_room 1 r (v ∷ []) (λ r1. append r1 v) (omega arith) b
      (rw (append-appended (roomed 1 r) v (omega arith))
        (unfold appended in omega arith, stream-appended (roomed 1 r) v))

roomed-IsBounded : (k : ℕ) (r : Renderer) → k ≤ vertex_buffer_len → IsBounded (roomed k r)
roomed-IsBounded k r h = omega (arith, roomed_fits k r h)

pub push_triangle-Pushed :
    (r : Renderer) (v1 v2 v3 : Vertex)
    → IsBounded r
    → Safe (Pushed r (v1 ∷ v2 ∷ v3 ∷ [])) (push_triangle r v1 v2 v3)
unfolding push_triangle
push_triangle-Pushed r v1 v2 v3 b =
    let r1 = roomed 3 r in
    Pushed-make_room 3 r (v1 ∷ v2 ∷ v3 ∷ [])
      (λ r1. push_vertex r1 v1 >>= λ r2. push_vertex r2 v2 >>= λ r3. push_vertex r3 v3)
      (omega arith) b
      (Pushed-append r1 (v1 ∷ []) (v2 ∷ v3 ∷ []) (push_vertex r1 v1)
        (λ r2. push_vertex r2 v2 >>= λ r3. push_vertex r3 v3)
        (push_vertex-Pushed r1 v1 (roomed-IsBounded 3 r (omega arith)))
        (λ r2 b2.
          Pushed-append r2 (v2 ∷ []) (v3 ∷ []) (push_vertex r2 v2) (λ r3. push_vertex r3 v3)
            (push_vertex-Pushed r2 v2 b2) (λ r3 b3. push_vertex-Pushed r3 v3 b3)))

pub push_quad-Pushed :
    (r : Renderer) (v1 v2 v3 v4 : Vertex)
    → IsBounded r
    → Safe (Pushed r (v1 ∷ v2 ∷ v3 ∷ v2 ∷ v3 ∷ v4 ∷ [])) (push_quad r v1 v2 v3 v4)
unfolding push_quad
push_quad-Pushed r v1 v2 v3 v4 b =
    let r1 = roomed 4 r in
    Pushed-make_room 4 r (v1 ∷ v2 ∷ v3 ∷ v2 ∷ v3 ∷ v4 ∷ [])
      (λ r1. push_triangle r1 v1 v2 v3 >>= λ r2. push_triangle r2 v2 v3 v4) (omega arith) b
      (Pushed-append r1 (v1 ∷ v2 ∷ v3 ∷ []) (v2 ∷ v3 ∷ v4 ∷ []) (push_triangle r1 v1 v2 v3)
        (λ r2. push_triangle r2 v2 v3 v4)
        (push_triangle-Pushed r1 v1 v2 v3 (roomed-IsBounded 4 r (omega arith)))
        (λ r2 b2. push_triangle-Pushed r2 v2 v3 v4 b2))

-- While the queue is within its buffer, as it is from the constructor on, pushTriangle and
-- pushQuad do not write outside the buffer, nor read outside it in a draw, leave the queue within
-- it, and neither lose, repeat nor reorder a vertex: a triangle puts its three vertices at the
-- end of the stream of those that OpenGL was given and those that are queued, a quad its two
-- triangles.
pub push_keeps_stream :
    (r : Renderer) (v1 v2 v3 v4 : Vertex)
    → IsBounded r
    → Safe (Pushed r (v1 ∷ v2 ∷ v3 ∷ [])) (push_triangle r v1 v2 v3)
      × Safe (Pushed r (v1 ∷ v2 ∷ v3 ∷ v2 ∷ v3 ∷ v4 ∷ [])) (push_quad r v1 v2 v3 v4)
push_keeps_stream r v1 v2 v3 v4 b =
    (push_triangle-Pushed r v1 v2 v3 b, push_quad-Pushed r v1 v2 v3 v4 b)

-- A frame is shown complete: all that was queued has been given to OpenGL when the buffers are
-- swapped, and the queue is empty.
pub display-Pushed :
    (r : Renderer) → IsBounded r → Safe (λ r'. Pushed r [] r' × (r'.vertices_num ≡ 0)) (display r)
unfolding display stream flushed
display-Pushed r b = rw (draw-flushed r b) ((omega arith, append-nil _ ∙ sym (append-nil _)), refl)
