-- ===== src/Bus/DisplayList.antt =====
-- A display list in the RAM: the commands of its packets, transferred to the GPU and drawn.
use cpp_station.Prelude.{ℕ, ◌≡◌, ◌<◌, refl, true, false, if◌then◌else◌, List}
use cpp_station.Outcome.{ok, Safe, Safe-bind}
use cpp_station.Dma.Channel.{
  from_ram, linked_list, gpu, done, active, set_control, port_from_index, decrement, increment,
}
use cpp_station.Memory.Map.{mask_region}
use cpp_station.Word.{low_bits, shr, test_bit}
use cpp_station.Bus.Access.{store32}
use cpp_station.Bus.Registers.{set_dma_reg}
use cpp_station.Gpu.Gp0.Feed.{feed}
use cpp_station.Gpu.Gp0.Interpreter.{Command, AllCommands, IsIdle, encode}
use cpp_station.Gpu.Gp0.Interpreter.Draws.{Draws, drawn_by_all, feed-Draws}
use cpp_station.Gpu.Renderer.Queue.{IsBounded}
use cpp_station.Bus.State.{Bus, channel_of, with_channel}
use cpp_station.Bus.Transfer.{do_dma, word_address}
use cpp_station.Bus.LinkedList.{PacketsAt, concat, count, do_dma_feeds_packets}

-- The state after the transfer.
abbrev pub IsDrawn : Bus → List Command → Bus → Type 0
IsDrawn b cs b' =
    Draws b.gpu (drawn_by_all cs) b'.gpu × (active (channel_of b' gpu) ≡ false) × (b'.ram ≡ b.ram)

-- The transfer itself, on a channel that is set to it.
pub do_dma-IsDrawn :
    (fuel : ℕ) (b : Bus) (ws : List ℕ) (rest : List (List ℕ)) (cs : List Command)
    → (channel_of b gpu).sync ≡ linked_list
    → (channel_of b gpu).direction ≡ from_ram
    → PacketsAt b.ram (word_address (channel_of b gpu).base) ws rest
    → concat ws rest ≡ encode cs
    → count rest < fuel
    → IsIdle b.gpu
    → IsBounded b.gpu.renderer
    → AllCommands cs
    → Safe (IsDrawn b cs) (do_dma fuel b gpu)
unfolding active done
do_dma-IsDrawn fuel b ws rest cs sync dir p e enough i q h =
    rw (do_dma_feeds_packets fuel b ws rest sync dir p enough, e)
      (Safe-bind (Draws b.gpu (drawn_by_all cs)) (IsDrawn b cs) (feed (encode cs) b.gpu)
        (λ g. ok (with_channel (record b { gpu = g }) gpu (done (channel_of b gpu))))
        (feed-Draws cs b.gpu i q h) (λ g d. (d, refl, refl)))

-- The store that starts a linked list transfer: a word store to the control register of the GPU's
-- channel, with bit 0 (from the RAM), the synchronisation mode 2 and bit 24 (enable), where the
-- channel's base is that of a list of packets in the RAM whose words one after another are those
-- of a sequence of commands, with the GPU's port idle, the vertex queue within its buffer and
-- fuel for each packet, ends normally or by panic. When it ends normally the vertices that the
-- commands name, and no other, have been added to the stream of those drawn or queued, the queue
-- is within its buffer, the channel is no longer active, and the RAM is unchanged.
pub store32-IsDrawn :
    (fuel : ℕ) (b : Bus) (addr val : ℕ) (ws : List ℕ) (rest : List (List ℕ)) (cs : List Command)
    → mask_region addr ≡ 0x1f8010a8
    → test_bit val 0 ≡ true
    → low_bits (shr val 9) 2 ≡ 2
    → test_bit val 24 ≡ true
    → PacketsAt b.ram (word_address (channel_of b gpu).base) ws rest
    → concat ws rest ≡ encode cs
    → count rest < fuel
    → IsIdle b.gpu
    → IsBounded b.gpu.renderer
    → AllCommands cs
    → Safe (IsDrawn b cs) (store32 fuel b addr val)
unfolding store32 set_dma_reg set_control active port_from_index
store32-IsDrawn fuel b addr val ws rest cs m dir sync on p e enough i q h =
    let c = record (channel_of b gpu) {
      direction = from_ram;
      step = if test_bit val 1 then decrement else increment;
      chop = test_bit val 8;
      sync = linked_list;
      chop_dma_size = low_bits (shr val 16) 3;
      chop_cpu_size = low_bits (shr val 20) 3;
      enable = true;
      trigger = test_bit val 28;
      dummy = low_bits (shr val 29) 2;
    } in
    rw (m, dir, sync, on)
      (do_dma-IsDrawn fuel (with_channel b gpu c) ws rest cs refl refl p e enough i q h)
