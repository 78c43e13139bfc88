-- ===== src/Bus/Invariant.antt =====
-- The state behind the bus stays well formed, and a load gives a word of its size.
use cpp_station.Prelude.{ℕ, zero, suc, ◌^◌, ◌<◌, inl, inr, Bool-cases, ◌==◌, arith}
use cpp_station.Word.{shr, test_bit}
use cpp_station.Outcome.{Outcome, ok, panic, fault, timeout, Ensures, Ensures-bind, Safe-Ensures}
use cpp_station.Memory.Ram.{Ram, IsBytes}
use cpp_station.Memory.Ram
use cpp_station.Memory.Ram.Contents.{store32-IsBytes}
use cpp_station.Dma.Channel.{
  Channel, Port, Direction, to_ram, from_ram, otc, gpu, transfer_size, done, port_code,
}
use cpp_station.Dma.Channel.Registers.{IsChannel, setters-IsChannel}
use cpp_station.Dma.Interrupts.{IsDma}
use cpp_station.Gpu.State.{Gpu}
use cpp_station.Gpu.Gp0.{gp0}
use cpp_station.Gpu.Gp0.Invariant.{IsGpu, gp0-IsGpu}
use cpp_station.Bus.State.{Bus, channel_of, with_channel}
use cpp_station.Bus.Transfer.{
  word_address, send_packet, walk_list, do_dma_linked_list, transfer_word, transfer_words,
  do_dma_block, do_dma,
}

-- Bytes in the memories, and fields of their size in the registers.
pub record IsBus (b : Bus) : Type 0 where
  pub ram_bytes : IsBytes b.ram
  pub bios_bytes : (i : ℕ) → b.bios.buffer i < 256
  pub control32 : b.dma.control < 2 ^ 32
  pub dma_fields : IsDma b.dma
  pub channels : (i : ℕ) → IsChannel (b.dma.channels i)
  pub gpu_valid : IsGpu b.gpu

abbrev pub IsWord : ℕ → Type 0
IsWord v = v < 2 ^ 32

pub with_gpu-IsBus : (b : Bus) (g : Gpu) → IsBus b → IsGpu g → IsBus (record b { gpu = g })
with_gpu-IsBus b g h k = record {
  ram_bytes = h.ram_bytes;
  bios_bytes = h.bios_bytes;
  control32 = h.control32;
  dma_fields = h.dma_fields;
  channels = h.channels;
  gpu_valid = k;
}

pub with_ram-IsBus : (b : Bus) (r : Ram) → IsBus b → IsBytes r → IsBus (record b { ram = r })
with_ram-IsBus b r h k = record {
  ram_bytes = k;
  bios_bytes = h.bios_bytes;
  control32 = h.control32;
  dma_fields = h.dma_fields;
  channels = h.channels;
  gpu_valid = h.gpu_valid;
}

pub with_channel-IsBus :
    (b : Bus) (p : Port) (c : Channel) → IsBus b → IsChannel c → IsBus (with_channel b p c)
with_channel-IsBus b p c h k = record {
  ram_bytes = h.ram_bytes;
  bios_bytes = h.bios_bytes;
  control32 = h.control32;
  dma_fields = record {
    dummy6 = h.dma_fields.dummy6;
    en7 = h.dma_fields.en7;
    flags7 = h.dma_fields.flags7;
  };
  channels =
      λ i. elim (Bool-cases (port_code p == i)) [ inl e ↦ rw e k | inr e ↦ rw e (h.channels i) ];
  gpu_valid = h.gpu_valid;
}

gp0-Ensures : (g : Gpu) (v : ℕ) → IsGpu g → Ensures IsGpu (gp0 g v)
gp0-Ensures g v h = Safe-Ensures IsGpu (gp0 g v) (gp0-IsGpu g v h)

abbrev pub Any : {A : Type 0} → A → Type 0
Any a = Unit

pub trivially : {A : Type 0} (m : Outcome A) → Ensures Any m
trivially (ok a) = tt
trivially (panic p) = tt
trivially fault = tt
trivially timeout = tt

send_packet-IsGpu :
    (ram : Ram) (n addr : ℕ) (g : Gpu) → IsGpu g → Ensures IsGpu (send_packet ram n addr g)
unfolding send_packet
send_packet-IsGpu ram zero addr g h = h
send_packet-IsGpu ram (suc n) addr g h =
    Ensures-bind Any IsGpu (Ram.load32 ram _) _ (trivially _) (λ w u.
      Ensures-bind IsGpu IsGpu (gp0 g w) _ (gp0-Ensures g w h)
        (λ g' k. send_packet-IsGpu ram n _ g' k))

walk_list-IsGpu :
    (fuel : ℕ) (ram : Ram) (addr : ℕ) (g : Gpu)
    → IsGpu g
    → Ensures IsGpu (walk_list fuel ram addr g)
unfolding walk_list
walk_list-IsGpu zero ram addr g h = tt
walk_list-IsGpu (suc fuel) ram addr g h =
    Ensures-bind Any IsGpu (Ram.load32 ram addr) _ (trivially _) (λ w u.
      Ensures-bind IsGpu IsGpu (send_packet ram (shr w 24) addr g) _
        (send_packet-IsGpu ram _ addr g h)
        (λ g' k. elim (Bool-cases (test_bit w 0)) [
          | inl e ↦ rw e k
          | inr e ↦ rw e (walk_list-IsGpu fuel ram (word_address w) g' k)
        ]))

transfer_word-IsBus :
    (p : Port) (dir : Direction) (n addr : ℕ) (b : Bus)
    → IsBus b
    → Ensures IsBus (transfer_word p dir n addr b)
unfolding transfer_word
transfer_word-IsBus otc to_ram n addr b h =
    Ensures-bind IsBytes IsBus (Ram.store32 b.ram (word_address addr) _) _
      (store32-IsBytes b.ram _ _ h.ram_bytes) (λ r k. with_ram-IsBus b r h k)
transfer_word-IsBus gpu from_ram n addr b h =
    Ensures-bind Any IsBus (Ram.load32 b.ram (word_address addr)) _ (trivially _) (λ w u.
      Ensures-bind IsGpu IsBus (gp0 b.gpu w) _ (gp0-Ensures b.gpu w h.gpu_valid)
        (λ g k. with_gpu-IsBus b g h k))
transfer_word-IsBus p from_ram n addr b h =
    Ensures-bind Any IsBus (Ram.load32 b.ram (word_address addr)) _ (trivially _) (λ w u. tt)
transfer_word-IsBus p to_ram n addr b h = tt

transfer_words-IsBus :
    (p : Port) (dir : Direction) (step n addr : ℕ) (b : Bus)
    → IsBus b
    → Ensures IsBus (transfer_words p dir step n addr b)
unfolding transfer_words
transfer_words-IsBus p dir step zero addr b h = h
transfer_words-IsBus p dir step (suc n) addr b h =
    Ensures-bind IsBus IsBus (transfer_word p dir (suc n) addr b) _
      (transfer_word-IsBus p dir (suc n) addr b h)
      (λ b' k. transfer_words-IsBus p dir step n _ b' k)

done-IsBus : (b : Bus) (p : Port) → IsBus b → IsBus (with_channel b p (done (channel_of b p)))
done-IsBus b p h =
    with_channel-IsBus b p _ h (setters-IsChannel (channel_of b p) 0 (h.channels (port_code p))).3

do_dma_block-IsBus : (b : Bus) (p : Port) → IsBus b → Ensures IsBus (do_dma_block b p)
unfolding do_dma_block
do_dma_block-IsBus b p h =
    Ensures-bind Any IsBus (transfer_size (channel_of b p)) _ (trivially _) (λ n u.
      elim (Bool-cases (n == 0xffffffff)) [
        | inl e ↦ rw e tt
        | inr e ↦ rw e (
            Ensures-bind IsBus IsBus (transfer_words p _ _ n _ b) _
              (transfer_words-IsBus p _ _ n _ b h) (λ b' k. done-IsBus b' p k))
      ])

do_dma_linked_list-IsBus :
    (fuel : ℕ) (b : Bus) (p : Port) → IsBus b → Ensures IsBus (do_dma_linked_list fuel b p)
unfolding do_dma_linked_list
do_dma_linked_list-IsBus fuel b gpu h = ground (
  arith,
  Ensures-bind IsGpu IsBus (walk_list fuel b.ram (word_address (channel_of b gpu).base) b.gpu)
      (λ g. ok (with_channel (record b { gpu = g }) gpu (done (channel_of b gpu))))
      (walk_list-IsGpu fuel b.ram _ b.gpu h.gpu_valid)
      (λ g k. done-IsBus (record b { gpu = g }) gpu (with_gpu-IsBus b g h k)),
)
do_dma_linked_list-IsBus fuel b p h = ground arith

pub do_dma-IsBus : (fuel : ℕ) (b : Bus) (p : Port) → IsBus b → Ensures IsBus (do_dma fuel b p)
unfolding do_dma
do_dma-IsBus fuel b p h =
    ground (arith, do_dma_block-IsBus b p h, do_dma_linked_list-IsBus fuel b p h)
