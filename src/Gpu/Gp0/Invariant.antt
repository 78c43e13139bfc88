-- ===== src/Gpu/Gp0/Invariant.antt =====
-- The invariant of the GPU's registers, and that the GP0 port keeps it.
use cpp_station.Prelude.{
  ℕ, ◌+◌, ◌-◌, ◌*◌, ◌/◌, ◌%◌, ◌^◌, ◌≤◌, ◌<◌, ◌≡◌, ◌⊎◌, List, [], refl, inl, inr, some, update,
  Bool-cases, ◌==◌, if◌then◌else◌, arith,
}
use cpp_station.Word.{sub32}
use cpp_station.Word.Bits.{bit_and-lt}
use cpp_station.Outcome.{Outcome, ok, Safe, Safe-bind, Safe-imp}
use cpp_station.Gpu.Renderer.{Renderer, Vertex, display}
use cpp_station.Gpu.Renderer.Queue.{
  IsBounded, Pushed, push_quad-Pushed, push_triangle-Pushed, display-Pushed,
}
use cpp_station.Gpu.State.{
  Gpu, push_word, command, image_load, Gp0Mode, Method, nop, clear_cache, quad_mono_opaque,
  quad_texture_blend_opaque, triangle_shaded_opaque, quad_shaded_opaque, do_image_load, image_store,
  draw_mode, texture_window, drawing_area_top_left, drawing_area_bottom_right, drawing_offset,
  mask_bit_setting,
}
use cpp_station.Gpu.Gp0.{command_table, gp0, begin_command, accept_word}
use cpp_station.Gpu.Gp0.Commands.{
  run_command, with_renderer, image_words, gp0_draw_mode, gp0_quad_mono_opaque,
  gp0_quad_texture_blend_opaque, gp0_triangle_shaded_opaque, gp0_quad_shaded_opaque, gp0_image_load,
  gp0_texture_window, gp0_drawing_area_top_left, gp0_drawing_area_bottom_right, gp0_drawing_offset,
  gp0_mask_bit_setting,
}

-- Where a command is being collected, the words in the buffer and those to come are nine at most. The
-- vertex queue is within its buffer. The other fields are the sizes of the registers.
pub record IsGpu (g : Gpu) : Type 0 where
  pub collecting :
      g.gp0_mode ≡ command
      → (g.gp0_words_remaining ≡ 0) ⊎ (g.gp0_command.len + g.gp0_words_remaining ≤ 9)
  pub words32 : g.gp0_words_remaining < 2 ^ 32
  pub base_x4 : g.page_base_x < 2 ^ 4
  pub base_y1 : g.page_base_y < 2
  pub semi2 : g.semi_transparency < 2 ^ 2
  pub hres3 : g.hres < 2 ^ 3
  pub queue : IsBounded g.renderer

-- Between commands, or with a command complete.
abbrev IsIdle : Gpu → Type 0
IsIdle g = g.gp0_words_remaining ≡ 0

-- A draw changes the renderer alone.
with_renderer-IsGpu :
    (g : Gpu) (vs : List Vertex) (m : Outcome Renderer)
    → IsGpu g
    → Safe (Pushed g.renderer vs) m
    → Safe IsGpu (with_renderer g m)
with_renderer-IsGpu g vs m h s =
    Safe-bind (Pushed g.renderer vs) IsGpu m (λ r. ok (record g { renderer = r })) s
      (λ r (b, e). ground arith)

image_words-lt : (res : ℕ) → image_words res < 2 ^ 32
unfolding image_words
image_words-lt res =
    let n = res % 2 ^ 16 * (res / 2 ^ 16) % 2 ^ 32 in
    omega (arith, bit_and-lt 32 ((n + 1) % 2 ^ 32) (2 ^ 32 - 1 - 1) (omega arith) (omega arith))

-- Every command keeps the invariant.
run_command-IsGpu : (m : Method) (g : Gpu) → IsGpu g → IsIdle g → Safe IsGpu (run_command m g)
unfolding run_command
run_command-IsGpu nop g h idle = h
run_command-IsGpu clear_cache g h idle = h
run_command-IsGpu quad_mono_opaque g h idle =
    unfold gp0_quad_mono_opaque in
    with_renderer-IsGpu g _ _ h (push_quad-Pushed g.renderer _ _ _ _ h.queue)
run_command-IsGpu quad_texture_blend_opaque g h idle =
    unfold gp0_quad_texture_blend_opaque in
    with_renderer-IsGpu g _ _ h (push_quad-Pushed g.renderer _ _ _ _ h.queue)
run_command-IsGpu triangle_shaded_opaque g h idle =
    unfold gp0_triangle_shaded_opaque in
    with_renderer-IsGpu g _ _ h (push_triangle-Pushed g.renderer _ _ _ h.queue)
run_command-IsGpu quad_shaded_opaque g h idle =
    unfold gp0_quad_shaded_opaque in
    with_renderer-IsGpu g _ _ h (push_quad-Pushed g.renderer _ _ _ _ h.queue)
run_command-IsGpu do_image_load g h idle =
    unfold gp0_image_load in ground (arith, image_words-lt (g.gp0_command.words 2))
run_command-IsGpu image_store g h idle = h
run_command-IsGpu draw_mode g h idle = unfold gp0_draw_mode in ground arith
run_command-IsGpu texture_window g h idle = unfold gp0_texture_window in ground arith
run_command-IsGpu drawing_area_top_left g h idle = unfold gp0_drawing_area_top_left in ground arith
run_command-IsGpu drawing_area_bottom_right g h idle =
    unfold gp0_drawing_area_bottom_right in ground arith
run_command-IsGpu drawing_offset g h idle =
    unfold gp0_drawing_offset in
    with_renderer-IsGpu _ [] (display g.renderer) (ground arith) (
      Safe-imp _ (Pushed g.renderer []) (display g.renderer) (λ r k. k.0)
        (display-Pushed g.renderer h.queue))
run_command-IsGpu mask_bit_setting g h idle = unfold gp0_mask_bit_setting in ground arith

-- The second half of `gp0` in the two modes: the buffer with one more word, or the image.
unfoldable pub with_word : Gpu → ℕ → Gpu
with_word g v = record g {
  gp0_command = record {
    words = update g.gp0_command.words g.gp0_command.len v;
    len = g.gp0_command.len + 1;
  };
}

pub accept_word-command :
    (g : Gpu) (v : ℕ)
    → g.gp0_mode ≡ command
    → g.gp0_command.len < 12
    → accept_word g v ≡ (
        if g.gp0_words_remaining == 0
        then run_command g.gp0_command_method (with_word g v)
        else ok (with_word g v))
unfolding accept_word push_word with_word
accept_word-command g v e room = ground arith

pub accept_word-image :
    (g : Gpu) (v : ℕ)
    → g.gp0_mode ≡ image_load
    → accept_word g v
      ≡ ok (if g.gp0_words_remaining == 0 then record g { gp0_mode = command } else g)
unfolding accept_word
accept_word-image g v e = ground arith

pub command_table_sizes :
    (opcode n : ℕ) (m : Method) → command_table opcode ≡ some (n, m) → (0 < n) × (n ≤ 9)
command_table_sizes opcode n m e = ground arith

Gp0Mode-cases : (m : Gp0Mode) → (m ≡ command) ⊎ (m ≡ image_load)
Gp0Mode-cases command = inl refl
Gp0Mode-cases image_load = inr refl

-- Between the two halves a command has room for one word more than those to come.
record IsUnderWay (g : Gpu) : Type 0 where
  room : g.gp0_mode ≡ command → g.gp0_command.len + g.gp0_words_remaining ≤ 8
  base : IsGpu g

with_word-IsGpu : (g : Gpu) (v : ℕ) → IsUnderWay g → g.gp0_mode ≡ command → IsGpu (with_word g v)
unfolding with_word
with_word-IsGpu g v h e = ground (arith, h.room e)

accept_word-IsGpu : (g : Gpu) (v : ℕ) → IsUnderWay g → Safe IsGpu (accept_word g v)
accept_word-IsGpu g v h = elim (Gp0Mode-cases g.gp0_mode) [
  | inl e ↦
      let room = h.room e in
      let base = with_word-IsGpu g v h e in
      rw (accept_word-command g v e (omega arith)) (elim (Bool-cases (g.gp0_words_remaining == 0)) [
        | inl z ↦ rw z (
            run_command-IsGpu g.gp0_command_method (with_word g v) base
              (unfold with_word in ground arith))
        | inr z ↦ rw z base
      ])
  | inr e ↦ rw (accept_word-image g v e) (ground (arith, h.base.collecting))
]

-- A word that arrives while the port is idle.
begin_command-IsUnderWay :
    (g : Gpu) (v : ℕ)
    → IsGpu g
    → Safe
        (λ g'. IsUnderWay (record g' { gp0_words_remaining = sub32 g'.gp0_words_remaining 1 }))
        (begin_command g v)
unfolding begin_command
begin_command-IsUnderWay g v h = ground (arith, command_table_sizes (v / 2 ^ 24 % 2 ^ 8))

-- From a valid state, with the command buffer and the vertex queue within their bounds, the GP0
-- port makes no access outside the command buffer or the vertex buffer, and every word that does
-- not stop the emulator leaves a valid state.
pub gp0-IsGpu : (g : Gpu) (v : ℕ) → IsGpu g → Safe IsGpu (gp0 g v)
unfolding gp0
gp0-IsGpu g v h = elim (Bool-cases (g.gp0_words_remaining == 0)) [
  | inl z ↦ rw z (
      Safe-bind _ IsGpu (begin_command g v) _ (begin_command-IsUnderWay g v h)
        (λ g' u. accept_word-IsGpu _ v u))
  | inr z ↦ rw z (accept_word-IsGpu _ v (ground arith))
]
