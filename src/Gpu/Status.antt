-- ===== src/Gpu/Status.antt =====
-- `Gpu::status` and `Gpu::read`.
use cpp_station.Prelude.{ℕ, ◌*◌, ◌^◌, List, [], ◌∷◌, bit_or, to_ℕ}
use cpp_station.Word.Fields.{or_fields}
use cpp_station.Word.{shr, low_bits}
use cpp_station.Gpu.State.{
  Gpu, TextureDepth, t4_bit, t8_bit, t15_bit, Field, top, bottom, VMode, ntsc, pal, DisplayDepth,
  d15_bits, d24_bits, DmaDirection, off, fifo, cpu_to_gp0, vram_to_cpu,
}

abbrev pub texture_depth_code : TextureDepth → ℕ
texture_depth_code t4_bit = 0
texture_depth_code t8_bit = 1
texture_depth_code t15_bit = 2

abbrev pub field_code : Field → ℕ
field_code top = 1
field_code bottom = 0

abbrev pub vmode_code : VMode → ℕ
vmode_code ntsc = 0
vmode_code pal = 1

abbrev pub display_depth_code : DisplayDepth → ℕ
display_depth_code d15_bits = 0
display_depth_code d24_bits = 1

abbrev pub dma_direction_code : DmaDirection → ℕ
dma_direction_code off = 0
dma_direction_code fifo = 1
dma_direction_code cpu_to_gp0 = 2
dma_direction_code vram_to_cpu = 3

-- The statements `r |= … << k` of `status`, but for the last.
abbrev pub status_fields : Gpu → List (ℕ × ℕ)
status_fields g =
    (0, g.page_base_x)
    ∷ (4, g.page_base_y)
    ∷ (5, g.semi_transparency)
    ∷ (7, texture_depth_code g.texture_depth)
    ∷ (9, to_ℕ g.dithering)
    ∷ (10, to_ℕ g.draw_to_display)
    ∷ (11, to_ℕ g.force_set_mask_bit)
    ∷ (12, to_ℕ g.preserve_masked_pixels)
    ∷ (13, field_code g.field)
    ∷ (15, to_ℕ g.texture_disable)
    ∷ (16, g.hres)
    ∷ (20, vmode_code g.vmode)
    ∷ (21, display_depth_code g.display_depth)
    ∷ (22, to_ℕ g.interlaced)
    ∷ (23, to_ℕ g.display_disabled)
    ∷ (24, to_ℕ g.interrupt)
    ∷ (26, 1)
    ∷ (27, 1)
    ∷ (28, 1)
    ∷ (29, dma_direction_code g.dma_direction)
    ∷ (31, 0)
    ∷ []

unfoldable pub dma_request : DmaDirection → ℕ → ℕ
dma_request off r = 0
dma_request fifo r = 1
dma_request cpu_to_gp0 r = low_bits (shr r 28) 1
dma_request vram_to_cpu r = low_bits (shr r 27) 1

unfoldable pub status : Gpu → ℕ
unfolding dma_request
status g =
    let r = or_fields 0 (status_fields g) in bit_or r (dma_request g.dma_direction r * 2 ^ 25)

-- Reads of the data port are not implemented.
abbrev pub read : Gpu → ℕ
read g = 0
