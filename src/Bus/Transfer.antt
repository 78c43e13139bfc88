-- ===== src/Bus/Transfer.antt =====
-- The DMA transfers: `doDma`, `doDmaLinkedList` and `doDmaBlock`.
use cpp_station.Prelude.{ℕ, zero, suc, true, false, bit_and, ◌==◌, if◌then◌else◌}
use cpp_station.Word.{add32, sub32, shr, low_bits, test_bit}
use cpp_station.Outcome.{
  Outcome, ok, panic, timeout, ◌>>=◌, bad_linked_list_direction, linked_list_on_port, no_block_size,
  unhandled_destination_port, unhandled_source_port,
}
use cpp_station.Memory.Ram.{Ram, load32, store32}
use cpp_station.Dma.Channel.{
  Direction, to_ram, from_ram, Step, increment, decrement, linked_list, Port, gpu, otc, port_code,
  transfer_size, done,
}
use cpp_station.Gpu.State.{Gpu}
use cpp_station.Gpu.Gp0.{gp0}
use cpp_station.Bus.State.{Bus, channel_of, with_channel}

-- The word addresses of the RAM: `addr & 0x1ffffc`.
unfoldable pub word_address : ℕ → ℕ
word_address addr = bit_and addr 0x1ffffc

-- The inner loop of `doDmaLinkedList`: `remsz` words after `addr` go to the GPU.
unfoldable pub send_packet : Ram → ℕ → ℕ → Gpu → Outcome Gpu
send_packet ram zero addr g = ok g
send_packet ram (suc remsz) addr g =
    let next = word_address (add32 addr 4) in
    load32 ram next >>= λ word. gp0 g word >>= λ g'. send_packet ram remsz next g'

-- The outer loop, one round for each unit of fuel. The source tests `header & 0x800000 != 0`, which
-- in C++ is `header & (0x800000 != 0)`: bit 0 of the header.
unfoldable pub walk_list : ℕ → Ram → ℕ → Gpu → Outcome Gpu
unfolding send_packet
walk_list zero ram addr g = timeout
walk_list (suc fuel) ram addr g = load32 ram addr >>= λ header.
    send_packet ram (shr header 24) addr g >>= λ g'. elim (test_bit header 0) [
      | true ↦ ok g'
      | false ↦ walk_list fuel ram (word_address header) g'
    ]

unfoldable pub do_dma_linked_list : ℕ → Bus → Port → Outcome Bus
do_dma_linked_list fuel b port = elim (channel_of b port).direction [
  | to_ram ↦ panic bad_linked_list_direction
  | from_ram ↦ elim port [
    | gpu ↦ do
      g ← walk_list fuel b.ram (word_address (channel_of b gpu).base) b.gpu
      let b' = record b { gpu = g }
      ok (with_channel b' gpu (done (channel_of b' gpu)))
    | other ↦ panic (linked_list_on_port (port_code other))
  ]
]

-- The body of the loop of `doDmaBlock`, with `remsz` words to go.
unfoldable pub transfer_word : Port → Direction → ℕ → ℕ → Bus → Outcome Bus
transfer_word port from_ram remsz addr b = do
  word ← load32 b.ram (word_address addr)
  elim port [
    | gpu ↦ gp0 b.gpu word >>= λ g. ok (record b { gpu = g })
    | other ↦ panic (unhandled_destination_port (port_code other))
  ]
transfer_word port to_ram remsz addr b = elim port [
  | otc ↦ do
    let word = if remsz == 1 then 0xffffff else low_bits (sub32 addr 4) 21
    ram ← store32 b.ram (word_address addr) word
    ok (record b { ram = ram })
  | other ↦ panic (unhandled_source_port (port_code other))
]

unfoldable pub transfer_words : Port → Direction → ℕ → ℕ → ℕ → Bus → Outcome Bus
unfolding transfer_word
transfer_words port dir step zero addr b = ok b
transfer_words port dir step (suc remsz) addr b =
    transfer_word port dir (suc remsz) addr b >>= λ b'.
    transfer_words port dir step remsz (add32 addr step) b'

-- 4, or -4 as a `uint32_t`.
abbrev pub step_size : Step → ℕ
step_size increment = 4
step_size decrement = 0xfffffffc

unfoldable pub do_dma_block : Bus → Port → Outcome Bus
do_dma_block b port = do
  let c = channel_of b port
  remsz ← transfer_size c
  if remsz == 0xffffffff
      then panic no_block_size
      else transfer_words port c.direction (step_size c.step) remsz c.base b >>= λ b'.
          ok (with_channel b' port (done (channel_of b' port)))

unfoldable pub do_dma : ℕ → Bus → Port → Outcome Bus
do_dma fuel b port = elim (channel_of b port).sync [
  | linked_list ↦ do_dma_linked_list fuel b port
  | _ ↦ do_dma_block b port
]
