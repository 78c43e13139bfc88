-- ===== src/Gpu/Gp1.antt =====
-- The GP1 port: `Gpu::gp1` and its nine commands.
use cpp_station.Prelude.{ℕ, true, false, bit_and, ◌==◌, if◌then◌else◌}
use cpp_station.Word.{low_bits, shr, test_bit}
use cpp_station.Outcome.{Outcome, ok, panic, unhandled_gp1, unsupported_display_mode}
use cpp_station.Gpu.State.{
  Gpu, clear, command, t4_bit, y240_lines, y480_lines, ntsc, pal, d15_bits, d24_bits, off, fifo,
  cpu_to_gp0, vram_to_cpu, hres_from_fields,
}

unfoldable pub gp1_reset_command_buffer : Gpu → Gpu
gp1_reset_command_buffer g = record g {
  gp0_command = clear g.gp0_command;
  gp0_words_remaining = 0;
  gp0_mode = command;
}

unfoldable pub gp1_acknowledge_irq : Gpu → Gpu
gp1_acknowledge_irq g = record g { interrupt = false }

unfoldable pub gp1_reset : Gpu → Gpu
unfolding gp1_reset_command_buffer gp1_acknowledge_irq hres_from_fields
gp1_reset g = gp1_acknowledge_irq (
    gp1_reset_command_buffer (record g {
      interrupt = false;
      page_base_x = 0;
      page_base_y = 0;
      semi_transparency = 0;
      texture_depth = t4_bit;
      texture_window_x_mask = 0;
      texture_window_y_mask = 0;
      texture_window_x_offset = 0;
      texture_window_y_offset = 0;
      dithering = false;
      draw_to_display = false;
      texture_disable = false;
      rectangle_texture_x_flip = false;
      rectangle_texture_y_flip = false;
      drawing_area_left = 0;
      drawing_area_top = 0;
      drawing_area_right = 0;
      drawing_area_bottom = 0;
      drawing_x_offset = 0;
      drawing_y_offset = 0;
      force_set_mask_bit = false;
      preserve_masked_pixels = false;
      dma_direction = off;
      display_disabled = true;
      display_vram_x_start = 0;
      display_vram_y_start = 0;
      hres = hres_from_fields 0 0;
      vres = y240_lines;
      vmode = ntsc;
      interlaced = true;
      display_horiz_start = 0x200;
      display_horiz_end = 0xc00;
      display_line_start = 0x10;
      display_line_end = 0x100;
      display_depth = d15_bits;
    }))

unfoldable pub gp1_display_enable : Gpu → ℕ → Gpu
gp1_display_enable g val = record g { display_disabled = test_bit val 0 }

unfoldable pub gp1_dma_direction : Gpu → ℕ → Gpu
gp1_dma_direction g val =
    let n = low_bits val 2 in
    record g {
      dma_direction =
          if n == 0
          then off
          else if n == 1
          then fifo
          else if n == 2
          then cpu_to_gp0
          else vram_to_cpu;
    }

unfoldable pub gp1_display_vram_start : Gpu → ℕ → Gpu
gp1_display_vram_start g val = record g {
  display_vram_x_start = bit_and val 0x3fe;
  display_vram_y_start = low_bits (shr val 10) 9;
}

unfoldable pub gp1_display_horizontal_range : Gpu → ℕ → Gpu
gp1_display_horizontal_range g val = record g {
  display_horiz_start = low_bits val 12;
  display_horiz_end = low_bits (shr val 12) 12;
}

unfoldable pub gp1_display_vertical_range : Gpu → ℕ → Gpu
gp1_display_vertical_range g val = record g {
  display_line_start = low_bits val 10;
  display_line_end = low_bits (shr val 10) 10;
}

-- `val & 0x4 != 0` is `val & (0x4 != 0)` in C++, which tests bit 0; so for the masks 0x8, 0x10 and
-- 0x20. Only the last test has its parentheses.
unfoldable pub gp1_display_mode : Gpu → ℕ → Outcome Gpu
unfolding hres_from_fields
gp1_display_mode g val =
    let hr1 = low_bits val 2 in
    let hr2 = low_bits (shr val 6) 1 in
    let g' : Gpu = record g {
      hres = hres_from_fields hr1 hr2;
      vres = if test_bit val 0 then y480_lines else y240_lines;
      vmode = if test_bit val 0 then pal else ntsc;
      display_depth = if test_bit val 0 then d15_bits else d24_bits;
      interlaced = test_bit val 0;
    } in
    if test_bit val 7 then panic (unsupported_display_mode val) else ok g'

unfoldable pub gp1 : Gpu → ℕ → Outcome Gpu
gp1 g val =
    let opcode = low_bits (shr val 24) 8 in
    if opcode == 0x00
    then ok (gp1_reset g)
    else if opcode == 0x01
    then ok (gp1_reset_command_buffer g)
    else if opcode == 0x02
    then ok (gp1_acknowledge_irq g)
    else if opcode == 0x03
    then ok (gp1_display_enable g val)
    else if opcode == 0x04
    then ok (gp1_dma_direction g val)
    else if opcode == 0x05
    then ok (gp1_display_vram_start g val)
    else if opcode == 0x06
    then ok (gp1_display_horizontal_range g val)
    else if opcode == 0x07
    then ok (gp1_display_vertical_range g val)
    else if opcode == 0x08
    then gp1_display_mode g val
    else panic (unhandled_gp1 val)
