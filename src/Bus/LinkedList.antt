-- ===== src/Bus/LinkedList.antt =====
-- The transfer of a linked list of packets: `doDmaLinkedList`.
use cpp_station.Prelude.{
  ℕ, zero, suc, ◌%◌, ◌<◌, ◌≡◌, refl, ◌∙◌, ap, sym, fun_ext, true, false, List, [], ◌∷◌, ◌++◌, arith,
}
use cpp_station.Word.{add32, shr, test_bit}
use cpp_station.Outcome.{Outcome, ok, ◌>>=◌, >>=-ok}
use cpp_station.Memory.Ram.{Ram, load32}
use cpp_station.Dma.Channel.{from_ram, linked_list, gpu, done}
use cpp_station.Gpu.State.{Gpu}
use cpp_station.Gpu.Gp0.{gp0}
use cpp_station.Gpu.Gp0.Feed.{feed, length, feed-++}
use cpp_station.Bus.State.{Bus, channel_of, with_channel}
use cpp_station.Bus.Transfer.{word_address, send_packet, walk_list, do_dma_linked_list, do_dma}

-- The words that follow `addr`, each at the next word address.
abbrev pub WordsAt : Ram → ℕ → List ℕ → Type 0
WordsAt ram addr [] = Unit
WordsAt ram addr (w ∷ ws) =
    let next = word_address (add32 addr 4) in (load32 ram next ≡ ok w) × WordsAt ram next ws

-- A packet at `addr`: a header with the number of its words in the upper byte, and the words.
pub record Packet (ram : Ram) (addr : ℕ) (header : ℕ) (ws : List ℕ) : Type 0 where
  pub header_at : load32 ram addr ≡ ok header
  pub size : shr header 24 ≡ length ws
  pub words : WordsAt ram addr ws

-- A list of packets from `addr` on. Every header but the last has bit 0 clear and holds the address
-- of the next; the last has bit 0 set.
abbrev pub PacketsAt : Ram → ℕ → List ℕ → List (List ℕ) → Type 0
PacketsAt ram addr ws [] = (header : ℕ) × (header % 2 ≡ 1) × Packet ram addr header ws
PacketsAt ram addr ws (next ∷ rest) =
    (header : ℕ) × (header % 2 ≡ 0)
    × Packet ram addr header ws
    × PacketsAt ram (word_address header) next rest

abbrev pub concat : List ℕ → List (List ℕ) → List ℕ
concat ws [] = ws
concat ws (next ∷ rest) = ws ++ concat next rest

abbrev pub count : List (List ℕ) → ℕ
count [] = 0
count (ws ∷ rest) = suc (count rest)

send_packet_lem :
    (ram : Ram) (ws : List ℕ) (addr : ℕ) (g : Gpu)
    → WordsAt ram addr ws
    → send_packet ram (length ws) addr g ≡ feed ws g
unfolding send_packet feed
send_packet_lem ram [] addr g h = refl
send_packet_lem ram (w ∷ ws) addr g (e, h) = rw e (
    ap (λ (k : Gpu → Outcome Gpu). gp0 g w >>= k)
      (fun_ext (λ g'. send_packet_lem ram ws (word_address (add32 addr 4)) g' h)))

send_packet-Packet :
    (ram : Ram) (addr header : ℕ) (ws : List ℕ) (g : Gpu)
    → Packet ram addr header ws
    → send_packet ram (shr header 24) addr g ≡ feed ws g
send_packet-Packet ram addr header ws g p = rw p.size (send_packet_lem ram ws addr g p.words)

bit_0 : (header : ℕ) → header % 2 ≡ 1 → test_bit header 0 ≡ true
bit_0 header h = ground arith

no_bit_0 : (header : ℕ) → header % 2 ≡ 0 → test_bit header 0 ≡ false
no_bit_0 header h = ground arith

-- The walk of a list writes the words of its packets to GP0 in their order, with fuel for each.
pub walk_list_lem :
    (ram : Ram) (rest : List (List ℕ)) (ws : List ℕ) (addr fuel : ℕ) (g : Gpu)
    → PacketsAt ram addr ws rest
    → count rest < fuel
    → walk_list fuel ram addr g ≡ feed (concat ws rest) g
unfolding walk_list
walk_list_lem ram rest ws addr zero g h enough = absurd (omega arith)
walk_list_lem ram [] ws addr (suc fuel) g (header, last, p) enough =
    rw (p.header_at, send_packet-Packet ram addr header ws g p, bit_0 header last)
      (>>=-ok (feed ws g))
walk_list_lem ram (next ∷ rest) ws addr (suc fuel) g (header, more, p, h) enough =
    rw (p.header_at, send_packet-Packet ram addr header ws g p, no_bit_0 header more)
      (ap (λ (k : Gpu → Outcome Gpu). feed ws g >>= k)
          (fun_ext
            (λ g'. walk_list_lem ram rest next (word_address header) fuel g' h (omega arith)))
        ∙ sym (feed-++ ws (concat next rest) g))

do_dma-linked_list :
    (fuel : ℕ) (b : Bus)
    → (channel_of b gpu).sync ≡ linked_list
    → (channel_of b gpu).direction ≡ from_ram
    → do_dma fuel b gpu ≡ (
        walk_list fuel b.ram (word_address (channel_of b gpu).base) b.gpu >>= λ g.
        ok (with_channel (record b { gpu = g }) gpu (done (channel_of b gpu))))
unfolding do_dma do_dma_linked_list
do_dma-linked_list fuel b sync dir = ground arith

-- A linked list transfer to the GPU from a list of packets in the RAM, whose last header alone
-- has bit 0 set, writes the words of the packets to GP0 in their order and then completes the
-- channel; one unit of fuel for each packet is enough.
pub do_dma_feeds_packets :
    (fuel : ℕ) (b : Bus) (ws : List ℕ) (rest : List (List ℕ))
    → (channel_of b gpu).sync ≡ linked_list
    → (channel_of b gpu).direction ≡ from_ram
    → PacketsAt b.ram (word_address (channel_of b gpu).base) ws rest
    → count rest < fuel
    → do_dma fuel b gpu ≡ (
        feed (concat ws rest) b.gpu >>= λ g.
        ok (with_channel (record b { gpu = g }) gpu (done (channel_of b gpu))))
do_dma_feeds_packets fuel b ws rest sync dir h enough =
    do_dma-linked_list fuel b sync dir
    ∙ ap
        (λ (m : Outcome Gpu).
          m >>= λ g. ok (with_channel (record b { gpu = g }) gpu (done (channel_of b gpu))))
        (walk_list_lem b.ram rest ws (word_address (channel_of b gpu).base) fuel b.gpu h enough)
