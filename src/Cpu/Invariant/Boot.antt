-- ===== src/Cpu/Invariant/Boot.antt =====
-- The machine as the constructors and the loading of the BIOS leave it.
use cpp_station.Prelude.{ℕ, ◌^◌, ◌<◌, inl, inr, refl, Bool-cases, some, ◌==◌, arith}
use cpp_station.Outcome.{◌>>=◌, Ensures, Ensures-bind}
use cpp_station.Bus.State.{new_bus}
use cpp_station.Bus.Invariant.{IsBus}
use cpp_station.Memory.Bios.{Bios, bios_size, File, boot_image, load_from_file, new_bios}
use cpp_station.Memory.Ram.{new_ram, IsBytes}
use cpp_station.Dma.Interrupts.{IsDma}
use cpp_station.Dma.Channel.Registers.{IsChannel}
use cpp_station.Dma.Controller.{new_dma}
use cpp_station.Dma.Channel.{new_channel}
use cpp_station.Gpu.Gp0.Invariant.{IsGpu}
use cpp_station.Gpu.State.{new_gpu}
use cpp_station.Gpu.Renderer.{Vertex, new_renderer}
use cpp_station.Cpu.State.{new_cpu}
use cpp_station.Cpu.Step.{run_instructions}
use cpp_station.Cpu.Invariant.{IsCpu}
use cpp_station.Cpu.Invariant.MemoryOps.{IsMachine}
use cpp_station.Cpu.Invariant.Run.{run_instructions-IsMachine}

pub new_cpu-IsCpu : IsCpu new_cpu
unfolding new_cpu
new_cpu-IsCpu = record {
  zero_in = refl;
  zero_out = refl;
  words_in = λ k. ground arith;
  words_out = λ k. ground arith;
  load_word = omega arith;
  hi_word = omega arith;
  lo_word = omega arith;
  sr_word = omega arith;
  cause_word = omega arith;
  epc_word = omega arith;
  pc_word = omega arith;
  next_word = omega arith;
  current_word = omega arith;
}

new_dma-fields :
    IsDma new_dma × ((i : ℕ) → IsChannel (new_dma.channels i)) × (new_dma.control < 2 ^ 32)
unfolding new_dma new_channel
new_dma-fields = (ground arith, λ i. ground arith, omega arith)

new_gpu-IsGpu : (vertex : Vertex) → IsGpu (new_gpu (new_renderer vertex))
unfolding new_gpu new_renderer
new_gpu-IsGpu vertex = ground arith

new_ram-IsBytes : IsBytes new_ram
unfolding new_ram
new_ram-IsBytes i = omega arith

booted-IsBus :
    (b : Bios) (vertex : Vertex)
    → ((i : ℕ) → b.buffer i < 256)
    → IsBus (record { ram = new_ram; bios = b; dma = new_dma; gpu = new_gpu (new_renderer vertex) })
booted-IsBus b vertex h = record {
  ram_bytes = new_ram-IsBytes;
  bios_bytes = h;
  control32 = new_dma-fields.2;
  dma_fields = new_dma-fields.0;
  channels = new_dma-fields.1;
  gpu_valid = new_gpu-IsGpu vertex;
}

boot_image-bytes :
    (f : File) (errno : ℕ) (garbage : ℕ → ℕ)
    → ((i : ℕ) → f.bytes i < 256)
    → ((i : ℕ) → garbage i < 256)
    → Ensures (λ b. (i : ℕ) → b.buffer i < 256) (boot_image (some f) errno (new_bios garbage))
unfolding boot_image load_from_file new_bios
boot_image-bytes f errno garbage hf hg = elim (Bool-cases (f.size == bios_size)) [
  | inl e ↦ rw e (λ i. ground (arith, hf i, hg i))
  | inr e ↦ rw e hg
]

-- From the constructors, with bytes in the BIOS file and in the buffer for it, any number of
-- instructions that ends normally leaves a well-formed machine: R0 holds 0, every register of the
-- processor holds a word of 32 bits, the memories hold bytes, and the registers of the DMA
-- controller and of the GPU are within their fields, and the vertex queue is within its buffer.
pub boot-IsMachine :
    (f : File) (errno : ℕ) (garbage : ℕ → ℕ) (vertex : Vertex) (fuel n : ℕ)
    → ((i : ℕ) → f.bytes i < 256)
    → ((i : ℕ) → garbage i < 256)
    → Ensures IsMachine (
        new_bus (some f) errno garbage (new_renderer vertex) >>= λ b.
        run_instructions fuel n (record { cpu = new_cpu; bus = b }))
unfolding new_bus
boot-IsMachine f errno garbage vertex fuel n hf hg =
    Ensures-bind IsBus IsMachine (new_bus (some f) errno garbage (new_renderer vertex)) _
      (Ensures-bind (λ b. (i : ℕ) → b.buffer i < 256) IsBus
        (boot_image (some f) errno (new_bios garbage)) _ (boot_image-bytes f errno garbage hf hg)
        (λ b k. booted-IsBus b vertex k))
      (λ b k.
        run_instructions-IsMachine fuel n (record { cpu = new_cpu; bus = b })
          (record { cpu_valid = new_cpu-IsCpu; bus_valid = k }))
