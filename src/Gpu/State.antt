-- ===== src/Gpu/State.antt =====
-- The registers of `Gpu`, its command buffer, and the constructor.
use cpp_station.Prelude.{
  ℕ, ◌+◌, ◌*◌, ◌%◌, ◌^◌, Bool, true, false, ltb, update, bit_or, if◌then◌else◌,
}
use cpp_station.Word.{low_bits}
use cpp_station.Outcome.{Outcome, ok, fault}
use cpp_station.Gpu.Renderer.{Renderer}

pub data Gp0Mode : Type 0 where
  command image_load : Gp0Mode

pub data TextureDepth : Type 0 where
  t4_bit t8_bit t15_bit : TextureDepth

pub data Field : Type 0 where
  top bottom : Field

pub data VerticalRes : Type 0 where
  y240_lines y480_lines : VerticalRes

pub data VMode : Type 0 where
  ntsc pal : VMode

pub data DisplayDepth : Type 0 where
  d15_bits d24_bits : DisplayDepth

pub data DmaDirection : Type 0 where
  off fifo cpu_to_gp0 vram_to_cpu : DmaDirection

-- The methods that `mGp0CommandMethod` may point to.
pub data Method : Type 0 where
  nop clear_cache quad_mono_opaque quad_texture_blend_opaque : Method
  triangle_shaded_opaque quad_shaded_opaque do_image_load image_store : Method
  draw_mode texture_window drawing_area_top_left drawing_area_bottom_right : Method
  drawing_offset mask_bit_setting : Method

-- `HorizontalRes::fromFields`
unfoldable pub hres_from_fields : ℕ → ℕ → ℕ
hres_from_fields hr1 hr2 = bit_or (low_bits hr2 1) (low_bits hr1 2 * 2 ^ 1)

pub record CommandBuffer : Type 0 where
  pub words : ℕ → ℕ
  pub len : ℕ

unfoldable pub new_command_buffer : CommandBuffer
new_command_buffer = record { words = λ _. 0; len = 0 }

abbrev pub clear : CommandBuffer → CommandBuffer
clear b = record b { len = 0 }

-- The buffer has room for 12 words.
unfoldable pub push_word : CommandBuffer → ℕ → Outcome CommandBuffer
push_word b word =
    if ltb b.len 12
    then ok (record { words = update b.words b.len word; len = (b.len + 1) % 2 ^ 8 })
    else fault

pub record Gpu : Type 0 where
  pub renderer : Renderer
  pub page_base_x : ℕ
  pub page_base_y : ℕ
  pub rectangle_texture_x_flip : Bool
  pub rectangle_texture_y_flip : Bool
  pub semi_transparency : ℕ
  pub texture_depth : TextureDepth
  pub texture_window_x_mask : ℕ
  pub texture_window_y_mask : ℕ
  pub texture_window_x_offset : ℕ
  pub texture_window_y_offset : ℕ
  pub dithering : Bool
  pub draw_to_display : Bool
  pub force_set_mask_bit : Bool
  pub preserve_masked_pixels : Bool
  pub drawing_area_left : ℕ
  pub drawing_area_top : ℕ
  pub drawing_area_right : ℕ
  pub drawing_area_bottom : ℕ
  -- Two `int16_t`, as their bits.
  pub drawing_x_offset : ℕ
  pub drawing_y_offset : ℕ
  pub field : Field
  pub texture_disable : Bool
  pub hres : ℕ
  pub vres : VerticalRes
  pub vmode : VMode
  pub display_depth : DisplayDepth
  pub interlaced : Bool
  pub display_disabled : Bool
  pub display_vram_x_start : ℕ
  pub display_vram_y_start : ℕ
  pub display_horiz_start : ℕ
  pub display_horiz_end : ℕ
  pub display_line_start : ℕ
  pub display_line_end : ℕ
  pub interrupt : Bool
  pub dma_direction : DmaDirection
  pub gp0_command : CommandBuffer
  pub gp0_words_remaining : ℕ
  pub gp0_command_method : Method
  pub gp0_mode : Gp0Mode

unfoldable pub new_gpu : Renderer → Gpu
unfolding new_command_buffer hres_from_fields
new_gpu renderer = record {
  renderer = renderer;
  page_base_x = 0;
  page_base_y = 0;
  rectangle_texture_x_flip = false;
  rectangle_texture_y_flip = false;
  semi_transparency = 0;
  texture_depth = t4_bit;
  texture_window_x_mask = 0;
  texture_window_y_mask = 0;
  texture_window_x_offset = 0;
  texture_window_y_offset = 0;
  dithering = false;
  draw_to_display = false;
  force_set_mask_bit = false;
  preserve_masked_pixels = false;
  drawing_area_left = 0;
  drawing_area_top = 0;
  drawing_area_right = 0;
  drawing_area_bottom = 0;
  drawing_x_offset = 0;
  drawing_y_offset = 0;
  field = top;
  texture_disable = false;
  hres = hres_from_fields 0 0;
  vres = y240_lines;
  vmode = ntsc;
  display_depth = d15_bits;
  interlaced = false;
  display_disabled = true;
  display_vram_x_start = 0;
  display_vram_y_start = 0;
  display_horiz_start = 0x200;
  display_horiz_end = 0xc00;
  display_line_start = 0x10;
  display_line_end = 0x100;
  interrupt = false;
  dma_direction = off;
  gp0_command = new_command_buffer;
  gp0_words_remaining = 0;
  gp0_command_method = nop;
  gp0_mode = command;
}
