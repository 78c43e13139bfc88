-- ===== src/Gpu/Registers.antt =====
-- What the GPU shows of its state in the status register, and what the GP1 port sets.
use cpp_station.Prelude.{
  ℕ, ◌+◌, ◌*◌, ◌/◌, ◌%◌, ◌^◌, ◌<◌, ◌≡◌, refl, ◌∙◌, ap, bit_or, to_ℕ, to_ℕ-lt, ◌==◌, if◌then◌else◌,
  arith,
}
use cpp_station.Word.Bits.{bit_or-lt}
use cpp_station.Word.Fields.{
  or_fields, sum_fields, or_fields-eq-sum_fields, bit_or_low, bit_or_concat, bit_or-zero,
}
use cpp_station.Outcome.{ok, Safe}
use cpp_station.Gpu.State.{
  Gpu, TextureDepth, Field, VMode, DisplayDepth, DmaDirection, t4_bit, t8_bit, t15_bit, top, bottom,
  ntsc, pal, d15_bits, d24_bits, off, fifo, cpu_to_gp0, vram_to_cpu, y240_lines, y480_lines,
  hres_from_fields,
}
use cpp_station.Gpu.Status.{
  status, status_fields, texture_depth_code, field_code, vmode_code, display_depth_code,
  dma_direction_code, dma_request,
}
use cpp_station.Gpu.Gp1.{
  gp1, gp1_display_mode, gp1_reset, gp1_dma_direction, gp1_reset_command_buffer,
  gp1_acknowledge_irq, gp1_display_enable, gp1_display_vram_start, gp1_display_horizontal_range,
  gp1_display_vertical_range,
}
use cpp_station.Gpu.Gp0.Invariant.{IsGpu}

texture_depth_code-lt : (x : TextureDepth) → texture_depth_code x < 3
texture_depth_code-lt t4_bit = omega arith
texture_depth_code-lt t8_bit = omega arith
texture_depth_code-lt t15_bit = omega arith

field_code-lt : (x : Field) → field_code x < 2
field_code-lt top = omega arith
field_code-lt bottom = omega arith

vmode_code-lt : (x : VMode) → vmode_code x < 2
vmode_code-lt ntsc = omega arith
vmode_code-lt pal = omega arith

display_depth_code-lt : (x : DisplayDepth) → display_depth_code x < 2
display_depth_code-lt d15_bits = omega arith
display_depth_code-lt d24_bits = omega arith

dma_direction_code-lt : (x : DmaDirection) → dma_direction_code x < 4
dma_direction_code-lt off = omega arith
dma_direction_code-lt fifo = omega arith
dma_direction_code-lt cpu_to_gp0 = omega arith
dma_direction_code-lt vram_to_cpu = omega arith

pub code_bounds :
    (g : Gpu)
    → (texture_depth_code g.texture_depth < 3)
      × (field_code g.field < 2)
      × (vmode_code g.vmode < 2)
      × (display_depth_code g.display_depth < 2)
      × (dma_direction_code g.dma_direction < 4)
code_bounds g = (
  texture_depth_code-lt g.texture_depth,
  field_code-lt g.field,
  vmode_code-lt g.vmode,
  display_depth_code-lt g.display_depth,
  dma_direction_code-lt g.dma_direction,
)

flag_bounds :
    (g : Gpu)
    → (to_ℕ g.dithering < 2)
      × (to_ℕ g.draw_to_display < 2)
      × (to_ℕ g.force_set_mask_bit < 2)
      × (to_ℕ g.preserve_masked_pixels < 2)
      × (to_ℕ g.texture_disable < 2)
      × (to_ℕ g.interlaced < 2)
      × (to_ℕ g.display_disabled < 2)
      × (to_ℕ g.interrupt < 2)
flag_bounds g = (
  to_ℕ-lt g.dithering,
  to_ℕ-lt g.draw_to_display,
  to_ℕ-lt g.force_set_mask_bit,
  to_ℕ-lt g.preserve_masked_pixels,
  to_ℕ-lt g.texture_disable,
  to_ℕ-lt g.interlaced,
  to_ℕ-lt g.display_disabled,
  to_ℕ-lt g.interrupt,
)

fields_sum : (g : Gpu) → IsGpu g → or_fields 0 (status_fields g) ≡ sum_fields 0 (status_fields g)
fields_sum g h =
    or_fields-eq-sum_fields 0 (status_fields g) (omega (arith, code_bounds g, flag_bounds g))

-- The request bit is or'ed in last, below bits that are set already.
or_bit25 :
    (low high q : ℕ)
    → low < 2 ^ 25
    → q < 2
    → bit_or (low + high * 2 ^ 26) (q * 2 ^ 25) ≡ low + q * 2 ^ 25 + high * 2 ^ 26
or_bit25 low high q hl hq =
    let left : low + high * 2 ^ 26 ≡ low + (high * 2 ^ 1) * 2 ^ 25 = omega arith in
    let right : q * 2 ^ 25 ≡ 0 + q * 2 ^ 25 = omega arith in
    rw (left, right)
      (omega (
        arith,
        bit_or_concat 25 low 0 (high * 2 ^ 1) q hl (omega arith),
        bit_or-zero low,
        bit_or_low 1 q high hq,
      ))

-- 0 where the DMA direction is off, and else 1.
abbrev pub request_bit : DmaDirection → ℕ
request_bit off = 0
request_bit fifo = 1
request_bit cpu_to_gp0 = 1
request_bit vram_to_cpu = 1

request_bit-lt : (x : DmaDirection) → request_bit x < 2
request_bit-lt off = omega arith
request_bit-lt fifo = omega arith
request_bit-lt cpu_to_gp0 = omega arith
request_bit-lt vram_to_cpu = omega arith

dma_request-eq : (x : DmaDirection) (r : ℕ) → r / 2 ^ 26 % 8 ≡ 7 → dma_request x r ≡ request_bit x
unfolding dma_request
dma_request-eq off r h = refl
dma_request-eq fifo r h = refl
dma_request-eq cpu_to_gp0 r h = omega arith
dma_request-eq vram_to_cpu r h = omega arith

status_sum :
    (g : Gpu)
    → IsGpu g
    → status g ≡ sum_fields 0 (status_fields g) + request_bit g.dma_direction * 2 ^ 25
unfolding status
status_sum g h =
    let r = or_fields 0 (status_fields g) in
    let e : r ≡ sum_fields 0 (status_fields g) = fields_sum g h in
    let low : r % 2 ^ 26 < 2 ^ 25 = omega (arith, e, code_bounds g, flag_bounds g) in
    let ready : r / 2 ^ 26 % 8 ≡ 7 = omega (arith, e, code_bounds g, flag_bounds g) in
    let q = request_bit g.dma_direction in
    let split : r ≡ r % 2 ^ 26 + r / 2 ^ 26 * 2 ^ 26 = omega arith in
    rw (dma_request-eq g.dma_direction r ready) (
      ap (λ (t : ℕ). bit_or t (q * 2 ^ 25)) split
      ∙ or_bit25 (r % 2 ^ 26) (r / 2 ^ 26) q low (request_bit-lt g.dma_direction)
      ∙ omega arith)

-- In a valid state the status register has 31 bits. Each register that it shows stands at its
-- place, the bits 14 and 19 are clear, the three ready bits are set, and bit 25 is set unless the
-- DMA direction is off.
pub status_lem :
    (g : Gpu)
    → IsGpu g
    → (status g < 2 ^ 31)
      × (status g % 2 ^ 4 ≡ g.page_base_x)
      × (status g / 2 ^ 4 % 2 ≡ g.page_base_y)
      × (status g / 2 ^ 5 % 4 ≡ g.semi_transparency)
      × (status g / 2 ^ 7 % 4 ≡ texture_depth_code g.texture_depth)
      × (status g / 2 ^ 9 % 2 ≡ to_ℕ g.dithering)
      × (status g / 2 ^ 10 % 2 ≡ to_ℕ g.draw_to_display)
      × (status g / 2 ^ 11 % 2 ≡ to_ℕ g.force_set_mask_bit)
      × (status g / 2 ^ 12 % 2 ≡ to_ℕ g.preserve_masked_pixels)
      × (status g / 2 ^ 13 % 4 ≡ field_code g.field)
      × (status g / 2 ^ 15 % 2 ≡ to_ℕ g.texture_disable)
      × (status g / 2 ^ 16 % 16 ≡ g.hres)
      × (status g / 2 ^ 20 % 2 ≡ vmode_code g.vmode)
      × (status g / 2 ^ 21 % 2 ≡ display_depth_code g.display_depth)
      × (status g / 2 ^ 22 % 2 ≡ to_ℕ g.interlaced)
      × (status g / 2 ^ 23 % 2 ≡ to_ℕ g.display_disabled)
      × (status g / 2 ^ 24 % 2 ≡ to_ℕ g.interrupt)
      × (status g / 2 ^ 25 % 2 ≡ request_bit g.dma_direction)
      × (status g / 2 ^ 26 % 8 ≡ 7)
      × (status g / 2 ^ 29 ≡ dma_direction_code g.dma_direction)
status_lem g h =
    omega (arith, status_sum g h, code_bounds g, flag_bounds g, request_bit-lt g.dma_direction)

hres_from_fields-lt : (a b : ℕ) → hres_from_fields a b < 2 ^ 3
unfolding hres_from_fields
hres_from_fields-lt a b = bit_or-lt 3 (b % 2) (a % 4 * 2 ^ 1) (omega arith) (omega arith)

gp1_display_mode-IsGpu : (g : Gpu) (v : ℕ) → IsGpu g → Safe IsGpu (gp1_display_mode g v)
unfolding gp1_display_mode
gp1_display_mode-IsGpu g v h = ground (arith, hres_from_fields-lt (v % 2 ^ 2) (v / 2 ^ 6 % 2 ^ 1))

gp1_reset-IsGpu : (g : Gpu) → IsGpu g → IsGpu (gp1_reset g)
unfolding gp1_reset
gp1_reset-IsGpu g h = ground (arith, hres_from_fields-lt 0 0)

-- From a valid state every GP1 command leaves a valid state or stops the emulator.
pub gp1-IsGpu : (g : Gpu) (v : ℕ) → IsGpu g → Safe IsGpu (gp1 g v)
unfolding gp1 gp1_reset_command_buffer gp1_acknowledge_irq gp1_display_enable gp1_dma_direction
    gp1_display_vram_start gp1_display_horizontal_range gp1_display_vertical_range
gp1-IsGpu g v h = ground (arith, gp1_display_mode-IsGpu g v h, gp1_reset-IsGpu g h)

-- In a display mode command without bit 7, bit 0 alone decides the vertical resolution, the video
-- standard, the colour depth and the interlacing; the bits 2 to 5 have no effect.
pub gp1_display_mode-bit0 :
    (g : Gpu) (v : ℕ)
    → v / 2 ^ 7 % 2 ≡ 0
    → let bit = v % 2 == 1 in
      gp1_display_mode g v
      ≡ ok (record g {
        hres = hres_from_fields (v % 4) (v / 2 ^ 6 % 2);
        vres = if bit then y480_lines else y240_lines;
        vmode = if bit then pal else ntsc;
        display_depth = if bit then d15_bits else d24_bits;
        interlaced = bit;
      })
unfolding gp1_display_mode
gp1_display_mode-bit0 g v h = ground arith
