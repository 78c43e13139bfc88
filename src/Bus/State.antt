-- ===== src/Bus/State.antt =====
-- The members of `Bus` but for `mCpu`, which only a message reads, and `mMap`, which never changes.
-- A pointer to a channel is its port.
use cpp_station.Prelude.{ℕ, Option}
use cpp_station.Outcome.{Outcome, ok, ◌>>=◌}
use cpp_station.Memory.Ram.{Ram, new_ram}
use cpp_station.Memory.Bios.{Bios, File, new_bios, boot_image}
use cpp_station.Dma.Controller.{Dma, new_dma, channel, set_channel}
use cpp_station.Dma.Channel.{Channel, Port}
use cpp_station.Gpu.State.{Gpu, new_gpu}
use cpp_station.Gpu.Renderer.{Renderer}

pub record Bus : Type 0 where
  pub ram : Ram
  pub bios : Bios
  pub dma : Dma
  pub gpu : Gpu

-- The constructor: the image is read from `file`, and an error in it ends the program.
unfoldable pub new_bus : Option File → ℕ → (ℕ → ℕ) → Renderer → Outcome Bus
new_bus file errno garbage renderer = do
  bios ← boot_image file errno (new_bios garbage)
  ok (record { ram = new_ram; bios = bios; dma = new_dma; gpu = new_gpu renderer })

abbrev pub channel_of : Bus → Port → Channel
channel_of b p = channel b.dma p

abbrev pub with_channel : Bus → Port → Channel → Bus
with_channel b p c = record b { dma = set_channel b.dma p c }
