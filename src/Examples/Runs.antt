-- ===== src/Examples/Runs.antt =====
-- Concrete machines and transfers at which the theorems on the processor and the bus apply.
use cpp_station.Prelude.{◌≡◌, inl, refl, true, false, [], ◌∷◌, some, ◌==◌, if◌then◌else◌, arith}
use cpp_station.Outcome.{ok, ◌>>=◌, Ensures}
use cpp_station.Memory.Bytes.{join32}
use cpp_station.Memory.Ram.{Ram, new_ram}
use cpp_station.Memory.Ram
use cpp_station.Memory.Map.{mask_region}
use cpp_station.Memory.Map.Regions.{mask_region_lem}
use cpp_station.Dma.Channel.{
  Channel, to_ram, from_ram, increment, decrement, manual, linked_list, otc, gpu, active, done,
}
use cpp_station.Gpu.Renderer.{Vertex, Renderer, new_renderer}
use cpp_station.Gpu.State.{new_gpu}
use cpp_station.Gpu.Gp0.Feed.{feed}
use cpp_station.Bus.State.{Bus, new_bus, channel_of, with_channel}
use cpp_station.Bus.Transfer.{do_dma, word_address}
use cpp_station.Bus.Access
use cpp_station.Bus.Mirrors.{load32-store32_mirrors}
use cpp_station.Bus.OrderingTable.{do_dma-ClearsTable}
use cpp_station.Bus.Blocks.{do_dma_feeds_block}
use cpp_station.Dma.Channel.Registers.{IsChannel}
use cpp_station.Bus.DmaWindow.{of_channel, control_field}
use cpp_station.Bus.DmaWindow.Stores.{HasStored, store32-HasStored}
use cpp_station.Bus.LinkedList.{PacketsAt, do_dma_feeds_packets}
use cpp_station.Cpu.State.{Machine, new_cpu, reg}
use cpp_station.Cpu.Step.{run_instructions, run_next_instruction}
use cpp_station.Cpu.Delay.{lw_delay}
use cpp_station.Cpu.Flow.Step.{Continues, run_next_instruction-Continues}
use cpp_station.Cpu.Invariant.MemoryOps.{IsMachine}
use cpp_station.Cpu.Invariant.Boot.{boot-IsMachine}

abbrev vertex : Vertex
vertex = record { pos = record { x = 1; y = 2 }; color = record { r = 255; g = 0; b = 0 } }

abbrev renderer : Renderer
renderer = record { vertex_buf = λ _. vertex; vertices_num = 0; events = [] }

-- `lw r4, 16(r0)` at 0, a word 0x2a at 16, a header of one word at 64 with its word, and zeroes.
abbrev ram : Ram
ram = record {
  cells = λ k.
      if k == 0
      then 0x10
      else if k == 2
      then 0x04
      else if k == 3
      then 0x8c
      else if k == 16
      then 0x2a
      else if k == 64
      then 0xff
      else if k == 67
      then 1
      else 0;
}

abbrev channel : Channel
channel = record {
  enable = true;
  direction = to_ram;
  step = decrement;
  sync = manual;
  trigger = true;
  chop = false;
  chop_dma_size = 0;
  chop_cpu_size = 0;
  base = 0x1000;
  block_size = 3;
  block_count = 0;
  dummy = 0;
}

abbrev list_channel : Channel
list_channel = record channel {
  direction = from_ram;
  step = increment;
  sync = linked_list;
  base = 64;
}

abbrev bus : Channel → Bus
bus c = record {
  ram = ram;
  bios = record { buffer = λ _. 0; is_valid_image = true };
  dma = record {
    control = 0x07654321;
    irq_en = false;
    channel_irq_en = 0;
    channel_irq_flags = 0;
    force_irq = false;
    irq_dummy = 0;
    channels = λ _. c;
  };
  gpu = new_gpu renderer;
}

boot-IsMachine_example : Ensures IsMachine (
    new_bus (some (record { size = 524288; bytes = λ _. 0 })) 0 (λ _. 7) (new_renderer vertex)
    >>= λ b. run_instructions 100 1000000 (record { cpu = new_cpu; bus = b }))
boot-IsMachine_example =
    boot-IsMachine (record { size = 524288; bytes = λ _. 0 }) 0 (λ _. 7) vertex 100 1000000
      (λ i. omega arith) (λ i. omega arith)

abbrev pub machine : Machine
machine = record {
  cpu = record new_cpu { pc = 0; next_pc = 4; regs = λ _. 0; sr = 0 };
  bus = bus channel;
}

run_next_instruction-Continues_example :
    Ensures (Continues machine) (run_next_instruction 1 machine)
run_next_instruction-Continues_example = run_next_instruction-Continues 1 machine

load_at_0 : Access.load32 (bus channel) 0 ≡ ok 0x8c040010
unfolding Access.load32 mask_region Ram.load32 join32
load_at_0 = refl

load_at_4 : Access.load32 (bus channel) 4 ≡ ok 0
unfolding Access.load32 mask_region Ram.load32 join32
load_at_4 = refl

load_at_16 : Access.load32 (bus channel) 16 ≡ ok 0x2a
unfolding Access.load32 mask_region Ram.load32 join32
load_at_16 = refl

lw_delay_example :
    (m1 : Machine) × (m2 : Machine) × (run_next_instruction 1 machine ≡ ok m1)
    × (reg m1.cpu 4 ≡ 0xdeadc0de)
    × (run_next_instruction 1 m1 ≡ ok m2)
    × (reg m2.cpu 4 ≡ 0x2a)
    × (m2.cpu.pc ≡ 8)
unfolding new_cpu
lw_delay_example =
    lw_delay 1 machine 0x8c040010 0x2a refl refl load_at_0 refl (omega arith) refl (omega arith)
      load_at_16 load_at_4

do_dma-ClearsTable_example :
    (b' : Bus) × (do_dma 1 (bus channel) otc ≡ ok b')
    × (Ram.load32 b'.ram 0xffc ≡ ok 0xff8)
    × (active (channel_of b' otc) ≡ false)
    × (b'.gpu ≡ (bus channel).gpu)
do_dma-ClearsTable_example =
    do_dma-ClearsTable 1 (bus channel) 2 1 (refl, refl, refl, refl, refl, omega arith, omega arith)
      (omega arith)

packet_at_64 : PacketsAt ram (word_address 64) (0 ∷ []) []
unfolding word_address Ram.load32 join32
packet_at_64 = (0x010000ff, refl, record { header_at = refl; size = refl; words = (refl, tt) })

do_dma_feeds_packets_example : do_dma 1 (bus list_channel) gpu ≡ (
    feed (0 ∷ []) (new_gpu renderer) >>= λ g.
    ok (with_channel (record (bus list_channel) { gpu = g }) gpu (done list_channel)))
do_dma_feeds_packets_example =
    do_dma_feeds_packets 1 (bus list_channel) (0 ∷ []) [] refl refl packet_at_64 (omega arith)

load32-store32_mirrors_example :
    (Access.store32 1 (bus channel) 0x80000010 0x12345678 >>= λ b. Access.load32 b 0xa0000010)
    ≡ ok 0x12345678
load32-store32_mirrors_example =
    load32-store32_mirrors 1 (bus channel) 0x80000010 0xa0000010 0x12345678 0x10
      (mask_region_lem 0x80000010 (omega arith)) (mask_region_lem 0xa0000010 (omega arith)) refl
      (omega arith) (omega arith)

-- Three words from 0 on.
abbrev block_channel : Channel
block_channel = record channel { direction = from_ram; step = increment; base = 0 }

do_dma_feeds_block_example : do_dma 1 (bus block_channel) gpu ≡ (
    feed (0x8c040010 ∷ 0 ∷ 0 ∷ []) (bus block_channel).gpu >>= λ g.
    ok (with_channel (record (bus block_channel) { gpu = g }) gpu (done block_channel)))
unfolding join32
do_dma_feeds_block_example =
    do_dma_feeds_block 1 (bus block_channel) 3 (omega arith) (inl (refl, refl)) refl

-- Through KSEG1, to the control register of the GPU's channel: linked list mode, without the enable bit.
channel-IsChannel : IsChannel channel
channel-IsChannel = record {
  dma_size = omega arith;
  cpu_size = omega arith;
  dummy_bits = omega arith;
  size16 = omega arith;
  count16 = omega arith;
  base24 = omega arith;
}

store32-HasStored_example :
    (b' : Bus) × (Access.store32 1 (bus channel) 0xbf8010a8 0x00000401 ≡ ok b')
    × HasStored (bus channel) (of_channel gpu control_field) 0x401 b'
unfolding mask_region
store32-HasStored_example =
    store32-HasStored 1 (bus channel) (of_channel gpu control_field) 0xbf8010a8 0x401 refl
      (omega arith) (λ p. channel-IsChannel) (refl, λ e. ground arith)
