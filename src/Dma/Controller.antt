-- ===== src/Dma/Controller.antt =====
-- `dma::Dma`: the seven channels, and the control and interrupt registers.
use cpp_station.Prelude.{
  ℕ, Bool, false, not, List, [], ◌∷◌, ◌&&◌, ◌||◌, bit_and, ◌==◌, to_ℕ, update,
}
use cpp_station.Word.Fields.{or_fields}
use cpp_station.Word.{shr, low_bits, test_bit}
use cpp_station.Dma.Channel.{Channel, Port, new_channel, port_code}

pub record Dma : Type 0 where
  pub control : ℕ
  pub irq_en : Bool
  pub channel_irq_en : ℕ
  pub channel_irq_flags : ℕ
  pub force_irq : Bool
  pub irq_dummy : ℕ
  pub channels : ℕ → Channel

unfoldable pub new_dma : Dma
unfolding new_channel
new_dma = record {
  control = 0x07654321;
  irq_en = false;
  channel_irq_en = 0;
  channel_irq_flags = 0;
  force_irq = false;
  irq_dummy = 0;
  channels = λ _. new_channel;
}

-- `Dma::channel`, and a change of the channel that the pointer refers to.
abbrev pub channel : Dma → Port → Channel
channel d p = d.channels (port_code p)

abbrev pub set_channel : Dma → Port → Channel → Dma
set_channel d p c = record d { channels = update d.channels (port_code p) c }

unfoldable pub irq : Dma → Bool
irq d =
    let channel_irq = bit_and d.channel_irq_flags d.channel_irq_en in
    d.force_irq || (d.irq_en && not (channel_irq == 0))

abbrev pub set_control : Dma → ℕ → Dma
set_control d val = record d { control = val }

abbrev pub interrupt_fields : Dma → List (ℕ × ℕ)
interrupt_fields d =
    (0, d.irq_dummy)
    ∷ (15, to_ℕ d.force_irq)
    ∷ (16, d.channel_irq_en)
    ∷ (23, to_ℕ d.irq_en)
    ∷ (24, d.channel_irq_flags)
    ∷ (31, to_ℕ (irq d))
    ∷ []

unfoldable pub interrupt : Dma → ℕ
interrupt d = or_fields 0 (interrupt_fields d)

-- `mChannelIrqFlags &= !ack` with the logical `!`: the mask is 1 where `ack` is 0, and else 0.
unfoldable pub set_interrupt : Dma → ℕ → Dma
set_interrupt d val =
    let ack = low_bits (shr val 24) 6 in
    record d {
      irq_dummy = low_bits val 6;
      force_irq = test_bit val 15;
      channel_irq_en = low_bits (shr val 16) 7;
      irq_en = test_bit val 23;
      channel_irq_flags = bit_and d.channel_irq_flags (to_ℕ (ack == 0));
    }
