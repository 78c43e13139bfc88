-- ===== src/Bus/Registers.antt =====
-- The DMA registers as the CPU sees them: `dmaReg` and `setDmaReg`.
use cpp_station.Prelude.{ℕ, ltb, ◌==◌, if◌then◌else◌}
use cpp_station.Word.{shr, low_bits}
use cpp_station.Outcome.{Outcome, ok, panic, ◌>>=◌, unhandled_dma_read, unhandled_dma_write}
use cpp_station.Dma.Channel.{
  Channel, port_from_index, control, set_control, block_control, set_block_control, set_base,
  active,
}
use cpp_station.Dma.Controller
use cpp_station.Dma.Controller.{Dma}
use cpp_station.Bus.State.{Bus, channel_of, with_channel}
use cpp_station.Bus.Transfer.{do_dma}

-- `(offset & 0x70) >> 4` and `offset & 0xf`.
abbrev pub major : ℕ → ℕ
major offset = low_bits (shr offset 4) 3

abbrev pub minor : ℕ → ℕ
minor offset = low_bits offset 4

unfoldable pub dma_reg : Bus → ℕ → Outcome ℕ
dma_reg b offset =
    if ltb (major offset) 7
    then (port_from_index (major offset) >>= λ port.
        let c = channel_of b port in
        if minor offset == 0
        then ok c.base
        else if minor offset == 4
        then ok (block_control c)
        else if minor offset == 8
        then ok (control c)
        else panic (unhandled_dma_read offset))
    else if minor offset == 0
    then ok b.dma.control
    else if minor offset == 4
    then ok (Controller.interrupt b.dma)
    else panic (unhandled_dma_read offset)

-- The write to one register of a channel.
unfoldable pub set_channel_reg : Channel → ℕ → ℕ → Outcome Channel
set_channel_reg c offset val =
    if minor offset == 0
    then ok (set_base c val)
    else if minor offset == 4
    then ok (set_block_control c val)
    else if minor offset == 8
    then set_control c val
    else panic (unhandled_dma_write offset val)

-- A write that leaves the channel active starts the transfer at once.
unfoldable pub set_dma_reg : ℕ → Bus → ℕ → ℕ → Outcome Bus
unfolding set_channel_reg
set_dma_reg fuel b offset val =
    if ltb (major offset) 7
    then (do
      port ← port_from_index (major offset)
      c ← set_channel_reg (channel_of b port) offset val
      let b' = with_channel b port c
      if active c then do_dma fuel b' port else ok b')
    else if minor offset == 0
    then ok (record b { dma = Controller.set_control b.dma val })
    else if minor offset == 4
    then ok (record b { dma = Controller.set_interrupt b.dma val })
    else panic (unhandled_dma_write offset val)
