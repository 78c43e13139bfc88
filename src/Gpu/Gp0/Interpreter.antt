-- ===== src/Gpu/Gp0/Interpreter.antt =====
-- The GP0 port against an interpreter of whole commands, which has no buffer, no count and no modes.
use cpp_station.Prelude.{
  ℕ, zero, suc, ◌+◌, ◌*◌, ◌/◌, ◌%◌, ◌^◌, ◌≤◌, ◌<◌, ◌≡◌, ◌≢◌, ◌⊎◌, inl, inr, refl, sym, ◌∙◌, ap,
  List, [], ◌∷◌, ◌++◌, some, arith,
}
pub mod Refines
pub mod Draws
use mathlib.Core.List.{append-nil, append_assoc}
use cpp_station.Outcome.{Outcome, ok, panic, fault, timeout, ◌>>=◌, Ensures}
use cpp_station.Gpu.Renderer.{Renderer}
use cpp_station.Gpu.State.{
  Gpu, command, image_load, Method, nop, clear_cache, quad_mono_opaque, quad_texture_blend_opaque,
  triangle_shaded_opaque, quad_shaded_opaque, do_image_load, image_store, draw_mode, texture_window,
  drawing_area_top_left, drawing_area_bottom_right, drawing_offset, mask_bit_setting,
}
use cpp_station.Gpu.Gp0.{command_table, gp0}
use cpp_station.Gpu.Gp0.Commands.{
  gp0_image_load, texture_depth_from_code, gp0_draw_mode, gp0_quad_mono_opaque,
  gp0_quad_texture_blend_opaque, gp0_triangle_shaded_opaque, gp0_quad_shaded_opaque,
  gp0_texture_window, gp0_drawing_area_top_left, gp0_drawing_area_bottom_right, gp0_drawing_offset,
  gp0_mask_bit_setting, run_command, param, image_words, with_renderer,
}
use cpp_station.Gpu.Gp0.Feed.{length, nth, listed, feed, feed-++, parked}
use cpp_station.Gpu.Gp0.Collect.{feed-run_command, feed-image}

-- The parameters of a command, all at once.
abbrev pub with_params : List ℕ → Gpu → Gpu
with_params ws g = record g { gp0_command = record { words = nth ws; len = length ws } }

-- A command as the interpreter takes it: the words of the command, and those of its image.
pub record Command : Type 0 where
  pub method : Method
  pub words : List ℕ
  pub pixels : List ℕ

-- What the interpreter does for one command, and for a sequence of them.
unfoldable pub perform : Method → List ℕ → Gpu → Outcome Gpu
perform m ws g = run_command m (with_params ws g) >>= λ g'. ok (parked g')

unfoldable pub interpret : List Command → Gpu → Outcome Gpu
interpret [] g = ok g
interpret (c ∷ cs) g = perform c.method c.words g >>= λ g'. interpret cs g'

-- The words that the port is given for them.
abbrev pub encode : List Command → List ℕ
encode [] = []
encode (c ∷ cs) = c.words ++ (c.pixels ++ encode cs)

-- An image comes with its command and no other, and is not empty.
abbrev pub HasPixels : Method → List ℕ → List ℕ → Type 0
HasPixels do_image_load ws px =
    (image_words (nth ws 2) ≡ length px) × (0 < length px) × (length px < 2 ^ 32)
HasPixels m ws px = px ≡ []

-- The first word has the opcode of the method, and the number of words is that of the table.
pub record IsCommand (c : Command) : Type 0 where
  pub first : ℕ
  pub rest : List ℕ
  pub words_lem : c.words ≡ first ∷ rest
  pub opcode : command_table (first / 2 ^ 24 % 2 ^ 8) ≡ some (length c.words, c.method)
  pub image : HasPixels c.method c.words c.pixels

abbrev pub AllCommands : List Command → Type 0
AllCommands [] = Unit
AllCommands (c ∷ cs) = IsCommand c × AllCommands cs

-- The port waits for a command.
abbrev pub IsIdle : Gpu → Type 0
IsIdle g = (g.gp0_mode ≡ command) × (g.gp0_words_remaining ≡ 0)
