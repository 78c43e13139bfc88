-- ===== src/Dma/Channel.antt =====
-- `dma::Channel` and `dma::Port`: one of the seven channels, and its three registers.
pub mod Registers
use cpp_station.Prelude.{
  ℕ, ◌+◌, ◌*◌, ◌/◌, ◌%◌, ◌^◌, ◌-◌, Bool, true, false, not, List, [], ◌∷◌, ◌&&◌, ltb, ◌==◌,
  if◌then◌else◌, to_ℕ, bit_or, bit_and,
}
use cpp_station.Word.Fields.{or_fields}
use cpp_station.Word.{shr, low_bits, test_bit, u16}
use cpp_station.Outcome.{Outcome, ok, panic, fault, unknown_sync_mode, invalid_port, ◌>>=◌}

pub data Direction : Type 0 where
  to_ram from_ram : Direction

pub data Step : Type 0 where
  increment decrement : Step

pub data Sync : Type 0 where
  manual request linked_list : Sync

pub data Port : Type 0 where
  mdec_in mdec_out gpu cd_rom spu pio otc : Port

abbrev pub direction_code : Direction → ℕ
direction_code to_ram = 0
direction_code from_ram = 1

abbrev pub step_code : Step → ℕ
step_code increment = 0
step_code decrement = 1

abbrev pub sync_code : Sync → ℕ
sync_code manual = 0
sync_code request = 1
sync_code linked_list = 2

abbrev pub port_code : Port → ℕ
port_code mdec_in = 0
port_code mdec_out = 1
port_code gpu = 2
port_code cd_rom = 3
port_code spu = 4
port_code pio = 5
port_code otc = 6

-- `port::fromIndex`
unfoldable pub port_from_index : ℕ → Outcome Port
port_from_index index =
    if index == 0
    then ok mdec_in
    else if index == 1
    then ok mdec_out
    else if index == 2
    then ok gpu
    else if index == 3
    then ok cd_rom
    else if index == 4
    then ok spu
    else if index == 5
    then ok pio
    else if index == 6
    then ok otc
    else panic (invalid_port index)

pub record Channel : Type 0 where
  pub enable : Bool
  pub direction : Direction
  pub step : Step
  pub sync : Sync
  pub trigger : Bool
  pub chop : Bool
  pub chop_dma_size : ℕ
  pub chop_cpu_size : ℕ
  pub base : ℕ
  pub block_size : ℕ
  pub block_count : ℕ
  pub dummy : ℕ

unfoldable pub new_channel : Channel
new_channel = record {
  enable = false;
  direction = to_ram;
  step = increment;
  sync = manual;
  trigger = false;
  chop = false;
  chop_dma_size = 0;
  chop_cpu_size = 0;
  base = 0;
  block_size = 0;
  block_count = 0;
  dummy = 0;
}

unfoldable pub set_base : Channel → ℕ → Channel
set_base c val = record c { base = low_bits val 24 }

-- The fields of the control register, each with its shift, in the order in which they are or'ed.
abbrev pub control_fields : Channel → List (ℕ × ℕ)
control_fields c =
    (0, direction_code c.direction)
    ∷ (1, step_code c.step)
    ∷ (8, to_ℕ c.chop)
    ∷ (9, sync_code c.sync)
    ∷ (16, c.chop_dma_size)
    ∷ (20, c.chop_cpu_size)
    ∷ (24, to_ℕ c.enable)
    ∷ (28, to_ℕ c.trigger)
    ∷ (29, c.dummy)
    ∷ []

unfoldable pub control : Channel → ℕ
control c = or_fields 0 (control_fields c)

sync_from_code : ℕ → Outcome Sync
sync_from_code n =
    if n == 0
    then ok manual
    else if n == 1
    then ok request
    else if n == 2
    then ok linked_list
    else panic (unknown_sync_mode n)

unfoldable pub set_control : Channel → ℕ → Outcome Channel
unfolding sync_from_code
set_control c val = do
  sync ← sync_from_code (low_bits (shr val 9) 2)
  ok (record c {
    direction = if test_bit val 0 then from_ram else to_ram;
    step = if test_bit val 1 then decrement else increment;
    chop = test_bit val 8;
    sync = sync;
    chop_dma_size = low_bits (shr val 16) 3;
    chop_cpu_size = low_bits (shr val 20) 3;
    enable = test_bit val 24;
    trigger = test_bit val 28;
    dummy = low_bits (shr val 29) 2;
  })

unfoldable pub block_control : Channel → ℕ
block_control c = bit_or (c.block_count * 2 ^ 16) c.block_size

unfoldable pub set_block_control : Channel → ℕ → Channel
set_block_control c val = record c { block_size = u16 val; block_count = u16 (shr val 16) }

-- In manual mode the trigger bit has to be set too.
unfoldable pub active : Channel → Bool
active c = c.enable && (elim c.sync [ manual ↦ c.trigger | _ ↦ true ])

unfoldable pub done : Channel → Channel
done c = record c { enable = false; trigger = false }

-- The product is computed as `int`, where a value over 2^31 - 1 is undefined. -1 stands as its bits.
unfoldable pub transfer_size : Channel → Outcome ℕ
transfer_size c = elim c.sync [
  | manual ↦ ok c.block_size
  | request ↦
      if ltb (c.block_count * c.block_size) (2 ^ 31)
      then ok (c.block_count * c.block_size)
      else fault
  | linked_list ↦ ok 0xffffffff
]
