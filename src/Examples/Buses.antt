-- ===== src/Examples/Buses.antt =====
-- Concrete accesses through the bus, the start from a file, and a sequence of GPU commands.
use cpp_station.Prelude.{
  ℕ, ◌*◌, ◌/◌, ◌%◌, ◌^◌, ◌≡◌, ◌≢◌, ◌⊎◌, refl, List, [], ◌∷◌, none, some, arith,
}
use cpp_station.Outcome.{ok, panic, bios_not_loaded, Safe, ◌>>=◌}
use cpp_station.Memory.Map.{mask_region}
use cpp_station.Memory.Bytes.{join32}
use cpp_station.Memory.Ram.{IsBytes}
use cpp_station.Memory.Ram
use cpp_station.Dma.Channel.{gpu}
use cpp_station.Memory.Bios.{File, bios_size, boot_image, load32}
use cpp_station.Memory.Bios.Boot.{boot_image_lem, file_word}
use cpp_station.Gpu.Renderer.Queue.{IsBounded}
use cpp_station.Gpu.State.{new_gpu, quad_mono_opaque, do_image_load}
use cpp_station.Gpu.Gp0.Commands.{image_words}
use cpp_station.Gpu.Gp0.Feed.{nth, feed, parked}
use cpp_station.Gpu.Gp0.Interpreter.{Command, encode, interpret, AllCommands, IsIdle}
use cpp_station.Gpu.Gp0.Interpreter.Draws.{Draws, drawn_by_all, feed-Draws}
use cpp_station.Gpu.Gp0.Interpreter.Refines.{feed-interpret}
use cpp_station.Bus.State.{Bus, channel_of, with_channel}
use cpp_station.Bus.Access
use cpp_station.Bus.Ports.{store_all, store_all-interpret}
use cpp_station.Bus.DisplayList.{IsDrawn, store32-IsDrawn}
use cpp_station.Bus.LinkedList.{PacketsAt}
use cpp_station.Bus.Transfer.{word_address}
use cpp_station.Bus.Widths.{widths_agree}
use cpp_station.Cpu.Unaligned.{merge_lwl, merge_swr, merge_lwr, merge_swl}
use cpp_station.Cpu.Unaligned.Merge.{merges_lem}
use cpp_station.Examples.Runs.{machine}

abbrev quad : List ℕ
quad = 0 ∷ 0x00100000 ∷ 0x00000010 ∷ 0x00100010 ∷ []

-- A rectangle, and an image of one word.
abbrev commands : List Command
commands =
    record { method = quad_mono_opaque; words = 0x280000ff ∷ quad; pixels = [] }
    ∷ record {
      method = do_image_load;
      words = 0xa0000000 ∷ 0 ∷ 0x00010002 ∷ [];
      pixels = 0x7fff7fff ∷ [];
    }
    ∷ []

commands-IsCommand : AllCommands commands
unfolding image_words
commands-IsCommand = (
  record { first = 0x280000ff; rest = quad; words_lem = refl; opcode = refl; image = refl },
  (
    record {
      first = 0xa0000000;
      rest = 0 ∷ 0x00010002 ∷ [];
      words_lem = refl;
      opcode = refl;
      image = (refl, omega arith, omega arith);
    },
    tt,
  ),
)

abbrev bus : Bus
bus = machine.bus

gpu-IsIdle : IsIdle bus.gpu
unfolding new_gpu
gpu-IsIdle = (refl, refl)

gpu-IsBounded : IsBounded bus.gpu.renderer
unfolding new_gpu
gpu-IsBounded = omega arith

feed-interpret_example :
    (feed (encode commands) bus.gpu >>= λ g. ok (parked g)) ≡ interpret commands (parked bus.gpu)
feed-interpret_example = (feed-interpret commands bus.gpu gpu-IsIdle commands-IsCommand).0

store_all-interpret_example :
    (store_all 1 0x9f801810 (encode commands) bus >>= λ b. ok (record b { gpu = parked b.gpu }))
    ≡ (interpret commands (parked bus.gpu) >>= λ g. ok (record bus { gpu = g }))
unfolding mask_region
store_all-interpret_example =
    store_all-interpret 1 0x9f801810 commands bus refl gpu-IsIdle commands-IsCommand

ram-IsBytes : IsBytes bus.ram
ram-IsBytes i = ground arith

widths_agree_example : Access.store32 1 bus 0xa0000040 0xdeadbeef ≡ (
    Access.store8 bus 0xa0000040 0xef >>= λ b1. Access.store8 b1 0xa0000041 0xbe >>= λ b2.
    Access.store8 b2 0xa0000042 0xad >>= λ b3. Access.store8 b3 0xa0000043 0xde)
unfolding mask_region
widths_agree_example =
    (widths_agree 1 bus 0xa0000040 0xdeadbeef (omega arith) refl (omega arith) ram-IsBytes).1

abbrev file : File
file = record { size = 524288; bytes = λ i. i % 256 }

boot_image_lem_example :
    (boot_image none 2 machine.bus.bios ≡ panic bios_not_loaded)
    × (((524288 ≡ bios_size)
          × ((boot_image (some file) 2 bus.bios >>= λ b'. load32 b' 0x180) ≡ file_word file 0x180))
        ⊎ ((524288 ≢ bios_size) × (boot_image (some file) 2 bus.bios ≡ ok bus.bios)))
boot_image_lem_example = boot_image_lem bus.bios file 2 0x180

merges_lem_example :
    (merge_lwl 0x101 0x11223344 0xaabbccdd ≡ 0xccdd3344)
    × (merge_swr 0x101 0x11223344 0xaabbccdd ≡ 0xccdd3344)
    × (merge_lwr 0x101 0x11223344 0xaabbccdd ≡ 0xbbff)
    × (merge_swl 0x101 0x11223344 0xaabbccdd ≡ 0xbbff)
merges_lem_example = merges_lem 0x101 0x11223344 0xaabbccdd (omega arith)

feed-Draws_example : Safe (Draws bus.gpu (drawn_by_all commands)) (feed (encode commands) bus.gpu)
feed-Draws_example = feed-Draws commands bus.gpu gpu-IsIdle gpu-IsBounded commands-IsCommand

-- A packet of a rectangle at 0, and the channel of the GPU set to it.
abbrev rectangle : List Command
rectangle = record { method = quad_mono_opaque; words = 0x280000ff ∷ quad; pixels = [] } ∷ []

abbrev list_bus : Bus
list_bus = record (with_channel bus gpu (record (channel_of bus gpu) { base = 0 })) {
  ram = record {
    cells = λ k. nth (0x05ffffff ∷ 0x280000ff ∷ quad) (k / 4) / 2 ^ (8 * (k % 4)) % 256;
  };
}

rectangle-Packet : PacketsAt list_bus.ram (word_address 0) (0x280000ff ∷ quad) []
unfolding word_address Ram.load32 join32
rectangle-Packet = (
  0x05ffffff,
  refl,
  record { header_at = refl; size = refl; words = (refl, (refl, (refl, (refl, (refl, tt))))) },
)

-- The control register of the GPU's channel is written in KSEG1.
store32-IsDrawn_example :
    Safe (IsDrawn list_bus rectangle) (Access.store32 1 list_bus 0xbf8010a8 0x01000401)
unfolding mask_region
store32-IsDrawn_example =
    store32-IsDrawn 1 list_bus 0xbf8010a8 0x01000401 (0x280000ff ∷ quad) [] rectangle refl refl refl
      refl rectangle-Packet refl (omega arith) gpu-IsIdle gpu-IsBounded (commands-IsCommand.0, tt)
