-- ===== src/Bus/DmaWindow.antt =====
-- The registers of the DMA controller through the bus, and what a load finds in them.
pub mod Stores
use cpp_station.Prelude.{
  ℕ, ◌+◌, ◌*◌, ◌/◌, ◌%◌, ◌^◌, ◌<◌, ◌≡◌, ◌≢◌, refl, ◌∙◌, inl, inr, Bool, true, false, Bool-cases,
  bit_and, ltb, update, ◌==◌, if◌then◌else◌, ==_true, ==_false, arith,
}
use cpp_station.Word.{test_bit}
use cpp_station.Outcome.{ok}
use cpp_station.Memory.Map.{mask_region}
use cpp_station.Dma.Channel.{
  Channel, Port, Sync, sync_code, mdec_in, mdec_out, gpu, cd_rom, spu, pio, otc, port_code,
  port_from_index, control, block_control, set_block_control, set_base, active,
}
use cpp_station.Dma.Channel.Registers.{
  IsChannel, control_mask, configured, set_control-configured, control-configured, sync_of_code,
  block_control-set_block_control,
}
use cpp_station.Dma.Controller
use cpp_station.Dma.Controller.{Dma, channel, set_channel}
use cpp_station.Bus.State.{Bus, channel_of, with_channel}
use cpp_station.Bus.Registers.{major, minor, dma_reg, set_channel_reg, set_dma_reg}
use cpp_station.Bus.Access.{load32, store32}

pub data Field : Type 0 where
  base_field block_field control_field : Field

pub data Register : Type 0 where
  of_channel : Port → Field → Register
  general interrupts : Register

abbrev pub field_offset : Field → ℕ
field_offset base_field = 0
field_offset block_field = 4
field_offset control_field = 8

-- The place in the window at 0x1f801080.
abbrev pub place_of : Register → ℕ
place_of (of_channel p k) = 16 * port_code p + field_offset k
place_of general = 0x70
place_of interrupts = 0x74

abbrev pub field : Field → Channel → ℕ
field base_field c = c.base
field block_field c = block_control c
field control_field c = control c

-- What the register shows.
abbrev pub value : Dma → Register → ℕ
value d (of_channel p k) = field k (channel d p)
value d general = d.control
value d interrupts = Controller.interrupt d

-- What a channel's register keeps of a word.
abbrev pub field_kept : Field → ℕ → ℕ
field_kept base_field v = v % 2 ^ 24
field_kept block_field v = v
field_kept control_field v = bit_and v control_mask

abbrev pub kept : Register → ℕ → ℕ
kept (of_channel p k) v = field_kept k v
kept general v = v
kept interrupts v = 0

-- A store that starts no transfer: to a channel that is not active, or to its control register with
-- bit 24 clear and a mode that there is. The interrupt register, whose flags a store acknowledges,
-- is left out.
abbrev pub IsQuiet : Bus → Register → ℕ → Type 0
IsQuiet b (of_channel p control_field) v = (test_bit v 24 ≡ false) × (v / 2 ^ 9 % 4 ≢ 3)
IsQuiet b (of_channel p k) v = active (channel_of b p) ≡ false
IsQuiet b general v = Unit
IsQuiet b interrupts v = ⊥

port_code-lt : (p : Port) → port_code p < 7
port_code-lt mdec_in = omega arith
port_code-lt mdec_out = omega arith
port_code-lt gpu = omega arith
port_code-lt cd_rom = omega arith
port_code-lt spu = omega arith
port_code-lt pio = omega arith
port_code-lt otc = omega arith

port_from_index-port_code : (p : Port) → port_from_index (port_code p) ≡ ok p
unfolding port_from_index
port_from_index-port_code mdec_in = refl
port_from_index-port_code mdec_out = refl
port_from_index-port_code gpu = refl
port_from_index-port_code cd_rom = refl
port_from_index-port_code spu = refl
port_from_index-port_code pio = refl
port_from_index-port_code otc = refl

field_offset-lt : (k : Field) → field_offset k < 9
field_offset-lt base_field = omega arith
field_offset-lt block_field = omega arith
field_offset-lt control_field = omega arith

place_lem :
    (p : Port) (k : Field)
    → (major (place_of (of_channel p k)) ≡ port_code p)
      × (minor (place_of (of_channel p k)) ≡ field_offset k)
      × (ltb (port_code p) 7 ≡ true)
place_lem p k = (
  omega (arith, field_offset-lt k, port_code-lt p),
  omega (arith, field_offset-lt k),
  ground (arith, port_code-lt p),
)

place-lt : (r : Register) → place_of r < 0x80
place-lt (of_channel p k) = omega (arith, field_offset-lt k, port_code-lt p)
place-lt general = omega arith
place-lt interrupts = omega arith

dma_reg-value : (b : Bus) (r : Register) → dma_reg b (place_of r) ≡ ok (value b.dma r)
unfolding dma_reg
dma_reg-value b (of_channel p base_field) =
    let (at, in_channel, below) = place_lem p base_field in
    rw (at, in_channel, below, port_from_index-port_code p) refl
dma_reg-value b (of_channel p block_field) =
    let (at, in_channel, below) = place_lem p block_field in
    rw (at, in_channel, below, port_from_index-port_code p) refl
dma_reg-value b (of_channel p control_field) =
    let (at, in_channel, below) = place_lem p control_field in
    rw (at, in_channel, below, port_from_index-port_code p) refl
dma_reg-value b general = refl
dma_reg-value b interrupts = refl

load32-window :
    (b : Bus) (addr o : ℕ)
    → mask_region addr ≡ 0x1f801080 + o
    → o < 0x80
    → load32 b addr ≡ dma_reg b o
unfolding load32
load32-window b addr o e h = rw e (ground arith)

store32-window :
    (fuel : ℕ) (b : Bus) (addr o v : ℕ)
    → mask_region addr ≡ 0x1f801080 + o
    → o < 0x80
    → store32 fuel b addr v ≡ set_dma_reg fuel b o v
unfolding store32
store32-window fuel b addr o v e h = rw e (ground arith)
