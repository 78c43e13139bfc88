-- ===== src/Gpu/Gp0.antt =====
-- The GP0 port: `Gpu::gp0`, and the commands that it collects and runs.
pub mod Commands
pub mod Feed
pub mod Collect
pub mod Interpreter
pub mod Invariant
use cpp_station.Prelude.{
  ℕ, ◌+◌, ◌*◌, ◌/◌, ◌%◌, ◌^◌, Bool, Option, none, some, ltb, ◌==◌, if◌then◌else◌,
}
use cpp_station.Word.{low_bits, shr, test_bit, sub32, u8, u16}
use cpp_station.Outcome.{Outcome, ok, panic, ◌>>=◌, unhandled_gp0}
use cpp_station.Gpu.State.{
  Gpu, clear, push_word, command, image_load, Method, nop, clear_cache, quad_mono_opaque,
  quad_texture_blend_opaque, triangle_shaded_opaque, quad_shaded_opaque, do_image_load, image_store,
  draw_mode, texture_window, drawing_area_top_left, drawing_area_bottom_right, drawing_offset,
  mask_bit_setting,
}
use cpp_station.Gpu.Gp0.Commands.{run_command}

-- The words and the method of each opcode.
abbrev pub command_table : ℕ → Option (ℕ × Method)
command_table opcode =
    if opcode == 0x00
    then some (1, nop)
    else if opcode == 0x01
    then some (1, clear_cache)
    else if opcode == 0x28
    then some (5, quad_mono_opaque)
    else if opcode == 0x2c
    then some (9, quad_texture_blend_opaque)
    else if opcode == 0x30
    then some (6, triangle_shaded_opaque)
    else if opcode == 0x38
    then some (8, quad_shaded_opaque)
    else if opcode == 0xa0
    then some (3, do_image_load)
    else if opcode == 0xc0
    then some (3, image_store)
    else if opcode == 0xe1
    then some (1, draw_mode)
    else if opcode == 0xe2
    then some (1, texture_window)
    else if opcode == 0xe3
    then some (1, drawing_area_top_left)
    else if opcode == 0xe4
    then some (1, drawing_area_bottom_right)
    else if opcode == 0xe5
    then some (1, drawing_offset)
    else if opcode == 0xe6
    then some (1, mask_bit_setting)
    else none

-- The first half of `gp0`: where no command is under way, `val` begins one.
unfoldable pub begin_command : Gpu → ℕ → Outcome Gpu
begin_command g val = elim (command_table (low_bits (shr val 24) 8)) [
  | none ↦ panic (unhandled_gp0 val)
  | some (n, m) ↦ ok (record g {
    gp0_words_remaining = n;
    gp0_command_method = m;
    gp0_command = clear g.gp0_command;
  })
]

-- The second half: the word goes to the command or to the image.
unfoldable pub accept_word : Gpu → ℕ → Outcome Gpu
accept_word g val = elim g.gp0_mode [
  | command ↦ push_word g.gp0_command val >>= λ b.
      let g' = record g { gp0_command = b } in
      if g.gp0_words_remaining == 0 then run_command g.gp0_command_method g' else ok g'
  | image_load ↦ ok (if g.gp0_words_remaining == 0 then record g { gp0_mode = command } else g)
]

unfoldable pub gp0 : Gpu → ℕ → Outcome Gpu
unfolding begin_command accept_word
gp0 g val = do
  g1 ← if g.gp0_words_remaining == 0 then begin_command g val else ok g
  accept_word (record g1 { gp0_words_remaining = sub32 g1.gp0_words_remaining 1 }) val
