-- ===== src/Gpu/Gp0/Commands.antt =====
-- The methods behind the GP0 opcodes, from `gp0DrawMode` to `gp0MaskBitSetting`.
use cpp_station.Prelude.{ℕ, ◌+◌, ◌-◌, ◌*◌, ◌/◌, ◌%◌, ◌^◌, bit_and, ltb, ◌==◌, if◌then◌else◌}
use cpp_station.Word.{low_bits, shr, test_bit, u32, not32}
use cpp_station.Outcome.{Outcome, ok, panic, ◌>>=◌, unhandled_texture_depth}
use cpp_station.Gpu.Renderer.{
  Renderer, Vertex, Color, position_from_packed, color_from_packed, push_quad, push_triangle,
  display,
}
use cpp_station.Gpu.State.{
  Gpu, TextureDepth, t4_bit, t8_bit, t15_bit, image_load, Method, nop, clear_cache,
  quad_mono_opaque, quad_texture_blend_opaque, triangle_shaded_opaque, quad_shaded_opaque,
  do_image_load, image_store, draw_mode, texture_window, drawing_area_top_left,
  drawing_area_bottom_right, drawing_offset, mask_bit_setting,
}

-- `mGp0Command[i]`
abbrev pub param : Gpu → ℕ → ℕ
param g i = g.gp0_command.words i

unfoldable pub texture_depth_from_code : ℕ → Outcome TextureDepth
texture_depth_from_code n =
    if n == 0
    then ok t4_bit
    else if n == 1
    then ok t8_bit
    else if n == 2
    then ok t15_bit
    else panic (unhandled_texture_depth n)

unfoldable pub gp0_draw_mode : Gpu → Outcome Gpu
unfolding texture_depth_from_code
gp0_draw_mode g = do
  let val = param g 0
  depth ← texture_depth_from_code (low_bits (shr val 7) 2)
  ok (record g {
    page_base_x = low_bits val 4;
    page_base_y = low_bits (shr val 4) 1;
    semi_transparency = low_bits (shr val 5) 2;
    texture_depth = depth;
    dithering = test_bit val 9;
    draw_to_display = test_bit val 10;
    texture_disable = test_bit val 11;
    rectangle_texture_x_flip = test_bit val 12;
    rectangle_texture_y_flip = test_bit val 13;
  })

-- The vertex at parameter `i`, of a colour; and of the colour at parameter `j`.
abbrev vertex_at : Gpu → ℕ → Color → Vertex
vertex_at g i color = record { pos = position_from_packed (param g i); color = color }

abbrev shaded_at : Gpu → ℕ → ℕ → Vertex
shaded_at g i j = vertex_at g i (color_from_packed (param g j))

abbrev pub with_renderer : Gpu → Outcome Renderer → Outcome Gpu
with_renderer g m = m >>= λ r. ok (record g { renderer = r })

unfoldable pub gp0_quad_mono_opaque : Gpu → Outcome Gpu
gp0_quad_mono_opaque g =
    let color = color_from_packed (param g 0) in
    with_renderer g (
      push_quad g.renderer (vertex_at g 1 color) (vertex_at g 2 color) (vertex_at g 3 color)
        (vertex_at g 4 color))

-- Textures are drawn as solid red.
unfoldable pub gp0_quad_texture_blend_opaque : Gpu → Outcome Gpu
gp0_quad_texture_blend_opaque g =
    let color : Color = record { r = 255; g = 0; b = 0 } in
    with_renderer g (
      push_quad g.renderer (vertex_at g 1 color) (vertex_at g 3 color) (vertex_at g 5 color)
        (vertex_at g 7 color))

unfoldable pub gp0_triangle_shaded_opaque : Gpu → Outcome Gpu
gp0_triangle_shaded_opaque g =
    with_renderer g (push_triangle g.renderer (shaded_at g 1 0) (shaded_at g 3 2) (shaded_at g 5 4))

unfoldable pub gp0_quad_shaded_opaque : Gpu → Outcome Gpu
gp0_quad_shaded_opaque g =
    with_renderer g
      (push_quad g.renderer (shaded_at g 1 0) (shaded_at g 3 2) (shaded_at g 5 4) (shaded_at g 7 6))

-- The number of 32-bit words that hold an image of 16-bit pixels, as the code computes it.
unfoldable pub image_words : ℕ → ℕ
image_words res =
    let width = low_bits res 16 in
    let height = shr res 16 in
    let imgsize = u32 (width * height) in
    let rounded = bit_and (u32 (imgsize + 1)) (not32 1) in rounded / 2

unfoldable pub gp0_image_load : Gpu → Gpu
gp0_image_load g = record g { gp0_words_remaining = image_words (param g 2); gp0_mode = image_load }

unfoldable pub gp0_texture_window : Gpu → Gpu
gp0_texture_window g =
    let val = param g 0 in
    record g {
      texture_window_x_mask = low_bits val 5;
      texture_window_y_mask = low_bits (shr val 5) 5;
      texture_window_x_offset = low_bits (shr val 10) 5;
      texture_window_y_offset = low_bits (shr val 15) 5;
    }

unfoldable pub gp0_drawing_area_top_left : Gpu → Gpu
gp0_drawing_area_top_left g =
    let val = param g 0 in
    record g { drawing_area_left = low_bits val 10; drawing_area_top = low_bits (shr val 10) 10 }

unfoldable pub gp0_drawing_area_bottom_right : Gpu → Gpu
gp0_drawing_area_bottom_right g =
    let val = param g 0 in
    record g {
      drawing_area_right = low_bits val 10;
      drawing_area_bottom = low_bits (shr val 10) 10;
    }

-- `((int16_t)(x << 5)) >> 5`, on the bits of the number.
unfoldable pub sign_extend11 : ℕ → ℕ
sign_extend11 x =
    let w = x * 2 ^ 5 % 2 ^ 16 in
    if ltb w (2 ^ 15) then w / 2 ^ 5 else 2 ^ 16 - 1 - (2 ^ 16 - 1 - w) / 2 ^ 5

-- The two fields of the offset, from `val`.
abbrev pub with_offset : Gpu → ℕ → Gpu
with_offset g val = record g {
  drawing_x_offset = sign_extend11 (low_bits val 11);
  drawing_y_offset = sign_extend11 (low_bits (shr val 11) 11);
}

unfoldable pub gp0_drawing_offset : Gpu → Outcome Gpu
gp0_drawing_offset g = with_renderer (with_offset g (param g 0)) (display g.renderer)

unfoldable pub gp0_mask_bit_setting : Gpu → Gpu
gp0_mask_bit_setting g =
    let val = param g 0 in
    record g { force_set_mask_bit = test_bit val 0; preserve_masked_pixels = test_bit val 1 }

-- The call through `mGp0CommandMethod`. `gp0Nop`, `gp0ClearCache` and `gp0ImageStore` change nothing.
unfoldable pub run_command : Method → Gpu → Outcome Gpu
run_command nop g = ok g
run_command clear_cache g = ok g
run_command quad_mono_opaque g = gp0_quad_mono_opaque g
run_command quad_texture_blend_opaque g = gp0_quad_texture_blend_opaque g
run_command triangle_shaded_opaque g = gp0_triangle_shaded_opaque g
run_command quad_shaded_opaque g = gp0_quad_shaded_opaque g
run_command do_image_load g = ok (gp0_image_load g)
run_command image_store g = ok g
run_command draw_mode g = gp0_draw_mode g
run_command texture_window g = ok (gp0_texture_window g)
run_command drawing_area_top_left g = ok (gp0_drawing_area_top_left g)
run_command drawing_area_bottom_right g = ok (gp0_drawing_area_bottom_right g)
run_command drawing_offset g = gp0_drawing_offset g
run_command mask_bit_setting g = ok (gp0_mask_bit_setting g)
