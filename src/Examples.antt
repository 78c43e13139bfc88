-- ===== src/Examples.antt =====
-- Concrete inputs at which the theorems apply.
mod Runs
mod Buses
mod Host
mod Processor
use cpp_station.Prelude.{
  ℕ, ◌+◌, ◌*◌, ◌%◌, ◌^◌, ◌<◌, ◌≡◌, ◌≢◌, ◌⊎◌, refl, true, false, List, [], ◌∷◌, ◌==◌, if◌then◌else◌,
  arith,
}
use cpp_station.Outcome.{ok, ◌>>=◌, Safe}
use cpp_station.Memory.Ram
use cpp_station.Memory.Ram.Access
use cpp_station.Dma.Channel.{Channel, to_ram, increment, manual, control}
use cpp_station.Dma.Channel.Registers.{IsChannel}
use cpp_station.Dma.Controller.{Dma, set_interrupt, interrupt}
use cpp_station.Dma.Interrupts.{IsDma, interrupt-set_interrupt}
use cpp_station.Gpu.Renderer.{Renderer, Vertex, push_triangle}
use cpp_station.Gpu.Renderer.Queue.{Pushed, push_keeps_stream}
use cpp_station.Gpu.State.{Gpu, new_gpu, image_load}
use cpp_station.Gpu.Status.{status}
use cpp_station.Gpu.Gp0.{gp0}
use cpp_station.Gpu.Gp0.Commands.{image_words}
use cpp_station.Gpu.Gp0.Collect.{image_words_lem}
use cpp_station.Gpu.Gp0.Invariant.{IsGpu, gp0-IsGpu}
use cpp_station.Gpu.Registers.{status_lem}
use cpp_station.Prelude.Int.{pos, negsuc, ◌-ℤ◌}
use cpp_station.Word.{signed32}
use cpp_station.Cpu.State.{Cpu, reg, new_cpu, set_reg, exception, overflow}
use cpp_station.Cpu.Alu.{op_add, op_addi, op_sub}
use cpp_station.Cpu.MulDiv.{op_multu, op_div}
use cpp_station.Cpu.Coprocessor.{op_rfe}
use cpp_station.Cpu.Overflow.{IsInt32}
use cpp_station.Cpu.Products.{IsDivision, products_in_hi_lo, op_div-cases}
use cpp_station.Cpu.Exceptions.{
  AddsTrapping, sr-op_rfe-exception, op_add-AddsTrapping, op_sub-cases,
}

abbrev channel : Channel
channel = record {
  enable = false;
  direction = to_ram;
  step = increment;
  sync = manual;
  trigger = false;
  chop = false;
  chop_dma_size = 0;
  chop_cpu_size = 0;
  base = 0;
  block_size = 0;
  block_count = 0;
  dummy = 0;
}

channel-IsChannel : IsChannel channel
channel-IsChannel = ground arith

abbrev dma : Dma
dma = record {
  control = 0x07654321;
  irq_en = false;
  channel_irq_en = 0;
  channel_irq_flags = 0x7f;
  force_irq = false;
  irq_dummy = 0;
  channels = λ p. channel;
}

dma-IsDma : IsDma dma
dma-IsDma = ground arith

interrupt-set_interrupt_example : interrupt (set_interrupt dma 0x00ff803f) % 2 ^ 24 ≡ 0x00ff803f
interrupt-set_interrupt_example = interrupt-set_interrupt dma 0x00ff803f dma-IsDma

abbrev vertex : Vertex
vertex = record { pos = record { x = 1; y = 2 }; color = record { r = 255; g = 0; b = 0 } }

abbrev renderer : Renderer
renderer = record { vertex_buf = λ _. vertex; vertices_num = 16382; events = [] }

push_keeps_stream_example :
    Safe
      (Pushed renderer (vertex ∷ vertex ∷ vertex ∷ []))
      (push_triangle renderer vertex vertex vertex)
push_keeps_stream_example = (push_keeps_stream renderer vertex vertex vertex vertex (omega arith)).0

abbrev gpu : Gpu
gpu = new_gpu renderer

gpu-IsGpu : IsGpu gpu
unfolding new_gpu
gpu-IsGpu = ground arith

gp0-IsGpu_example : Safe IsGpu (gp0 gpu 0x280000ff)
gp0-IsGpu_example = gp0-IsGpu gpu 0x280000ff gpu-IsGpu

status_lem_example : status gpu < 2 ^ 31
status_lem_example = (status_lem gpu gpu-IsGpu).0

abbrev quad : List ℕ
quad = 0 ∷ 0x00100000 ∷ 0x00000010 ∷ 0x00100010 ∷ []

image_words_lem_example : image_words (3 + 5 * 2 ^ 16) ≡ 8
image_words_lem_example = image_words_lem 3 5 (omega arith) (omega arith)

abbrev loading : ℕ → Gpu
loading n = record gpu { gp0_mode = image_load; gp0_words_remaining = n }

abbrev cpu : Cpu
cpu = record new_cpu {
  regs = λ k. if k == 1 then 0x7fffffff else if k == 2 then 0xfffffff9 else 3;
  delay_slot = true;
  sr = 0x0040ff05;
}

-- Instructions from the registers 1 and 2, or 2 and 3, to 4: bits 21 to 25, 16 to 20 and 11 to 15.
abbrev from_1_and_2 : ℕ
from_1_and_2 = 1 * 2 ^ 21 + 2 * 2 ^ 16 + 4 * 2 ^ 11

abbrev from_2_and_3 : ℕ
from_2_and_3 = 2 * 2 ^ 21 + 3 * 2 ^ 16 + 4 * 2 ^ 11

products_in_hi_lo_example :
    (op_multu cpu from_1_and_2).hi * 2 ^ 32 + (op_multu cpu from_1_and_2).lo
    ≡ 0x7fffffff * 0xfffffff9
products_in_hi_lo_example = (products_in_hi_lo cpu from_1_and_2 (omega arith) (omega arith)).0

op_div-cases_example :
    ((reg cpu 3 ≡ 0)
      × ((op_div cpu from_2_and_3).hi ≡ 0xfffffff9)
      × (signed32 (op_div cpu from_2_and_3).lo ≡ pos 1))
    ⊎ ((reg cpu 2 ≡ 0x80000000)
        × (reg cpu 3 ≡ 0xffffffff)
        × ((op_div cpu from_2_and_3).lo ≡ 0x80000000)
        × ((op_div cpu from_2_and_3).hi ≡ 0))
    ⊎ ((reg cpu 3 ≢ 0)
        × IsDivision 0xfffffff9 3 (op_div cpu from_2_and_3).lo (op_div cpu from_2_and_3).hi)
op_div-cases_example = op_div-cases cpu from_2_and_3 (omega arith) (omega arith)

op_add-AddsTrapping_example :
    AddsTrapping cpu 4 0x7fffffff 0xfffffff9 (op_add cpu from_1_and_2)
    × AddsTrapping cpu 2 0x7fffffff 0x2000 (op_addi cpu from_1_and_2)
op_add-AddsTrapping_example = op_add-AddsTrapping cpu from_1_and_2 (omega arith) (omega arith)

op_sub-cases_example :
    (IsInt32 (pos 0x7fffffff -ℤ negsuc 6)
      × (op_sub cpu from_1_and_2 ≡ set_reg cpu 4 0x80000006)
      × (signed32 0x80000006 ≡ pos 0x7fffffff -ℤ negsuc 6))
    ⊎ ((¬ IsInt32 (pos 0x7fffffff -ℤ negsuc 6))
        × (op_sub cpu from_1_and_2 ≡ exception cpu overflow))
op_sub-cases_example = op_sub-cases cpu from_1_and_2 (omega arith) (omega arith)

sr-op_rfe-exception_example : (op_rfe (exception cpu overflow) 0x42000010 >>= λ c. ok c.sr) ≡ ok 5
sr-op_rfe-exception_example = sr-op_rfe-exception cpu overflow 0x42000010 refl

-- The port after an image load of no pixels.
abbrev waiting : Gpu
waiting = record gpu { gp0_mode = image_load }
