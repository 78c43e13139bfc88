-- ===== src/Dma/Channel/Registers.antt =====
-- What the CPU reads back from a channel's registers.
use cpp_station.Prelude.{
  inl, inr, ◌==◌, if◌then◌else◌, Bool-cases, ℕ, ◌+◌, ◌*◌, ◌/◌, ◌%◌, ◌^◌, ◌<◌, ◌≡◌, zero, suc, refl,
  ap, ◌≢◌, if◌then◌else◌, to_ℕ-lt, false, bit_and, to_ℕ, arith,
}
use cpp_station.Word.{shr, low_bits, test_bit}
use cpp_station.Word.Fields.{
  sum_fields, or_fields-eq-sum_fields, bit_or_low, bit_and_mask, bit_and_concat,
}
use cpp_station.Outcome.{ok, panic, unknown_sync_mode, ◌>>=◌, Ensures}
use cpp_station.Dma.Channel.{
  Channel, Direction, Step, Sync, to_ram, from_ram, increment, decrement, manual, request,
  linked_list, control_fields, direction_code, step_code, sync_code, control, set_control,
  block_control, set_block_control, set_base, active, done, transfer_size,
}

-- The sizes of the fields, which the setters keep.
pub record IsChannel (c : Channel) : Type 0 where
  pub dma_size : c.chop_dma_size < 8
  pub cpu_size : c.chop_cpu_size < 8
  pub dummy_bits : c.dummy < 4
  pub size16 : c.block_size < 2 ^ 16
  pub count16 : c.block_count < 2 ^ 16
  pub base24 : c.base < 2 ^ 24

direction_code-lt : (d : Direction) → direction_code d < 2
direction_code-lt to_ram = omega arith
direction_code-lt from_ram = omega arith

step_code-lt : (s : Step) → step_code s < 2
step_code-lt increment = omega arith
step_code-lt decrement = omega arith

sync_code-lt : (s : Sync) → sync_code s < 3
sync_code-lt manual = omega arith
sync_code-lt request = omega arith
sync_code-lt linked_list = omega arith

control_sum : (c : Channel) → IsChannel c → control c ≡ sum_fields 0 (control_fields c)
unfolding control
control_sum c v = or_fields-eq-sum_fields 0 (control_fields c) (
    omega (
      arith,
      direction_code-lt c.direction,
      step_code-lt c.step,
      sync_code-lt c.sync,
      to_ℕ-lt c.chop,
      to_ℕ-lt c.enable,
      to_ℕ-lt c.trigger,
    ))

-- The bits of the control register that the hardware has.
abbrev pub control_mask : ℕ
control_mask = 0x71770703

control_mask_fields :
    (v : ℕ)
    → bit_and v control_mask
      ≡ v % 4
        + v / 2 ^ 8 % 8 * 2 ^ 8
        + v / 2 ^ 16 % 8 * 2 ^ 16
        + v / 2 ^ 20 % 8 * 2 ^ 20
        + v / 2 ^ 24 % 2 * 2 ^ 24
        + v / 2 ^ 28 % 8 * 2 ^ 28
control_mask_fields v = omega (
  arith,
  bit_and_concat 28 v 7 0x01770703 (omega arith),
  bit_and_concat 24 v 1 0x00770703 (omega arith),
  bit_and_concat 20 v 7 0x00070703 (omega arith),
  bit_and_concat 16 v 7 0x00000703 (omega arith),
  bit_and_concat 8 v 7 3 (omega arith),
  bit_and_mask 3 (v / 2 ^ 28),
  bit_and_mask 1 (v / 2 ^ 24),
  bit_and_mask 3 (v / 2 ^ 20),
  bit_and_mask 3 (v / 2 ^ 16),
  bit_and_mask 3 (v / 2 ^ 8),
  bit_and_mask 2 v,
)

-- The channel after a write that names the mode `s`.
unfoldable pub configured : Channel → ℕ → Sync → Channel
configured c v s = record c {
  direction = if test_bit v 0 then from_ram else to_ram;
  step = if test_bit v 1 then decrement else increment;
  chop = test_bit v 8;
  sync = s;
  chop_dma_size = low_bits (shr v 16) 3;
  chop_cpu_size = low_bits (shr v 20) 3;
  enable = test_bit v 24;
  trigger = test_bit v 28;
  dummy = low_bits (shr v 29) 2;
}

pub set_control-configured :
    (c : Channel) (v : ℕ) (s : Sync)
    → sync_code s ≡ v / 2 ^ 9 % 4
    → set_control c v ≡ ok (configured c v s)
unfolding set_control configured
set_control-configured c v manual e = ground arith
set_control-configured c v request e = ground arith
set_control-configured c v linked_list e = ground arith

configured-IsChannel : (c : Channel) (v : ℕ) (s : Sync) → IsChannel c → IsChannel (configured c v s)
unfolding configured
configured-IsChannel c v s h = omega arith

to_ℕ-test_bit : (v k : ℕ) → to_ℕ (test_bit v k) ≡ v / 2 ^ k % 2
to_ℕ-test_bit v k = ground arith

direction_code-test_bit :
    (v : ℕ) → direction_code (if test_bit v 0 then from_ram else to_ram) ≡ v % 2
direction_code-test_bit v = ground arith

step_code-test_bit : (v : ℕ) → step_code (if test_bit v 1 then decrement else increment) ≡ v / 2 % 2
step_code-test_bit v = ground arith

pub control-configured :
    (c : Channel) (v : ℕ) (s : Sync)
    → IsChannel c
    → sync_code s ≡ v / 2 ^ 9 % 4
    → control (configured c v s) ≡ bit_and v control_mask
unfolding configured
control-configured c v s h e = omega (
  arith,
  control_sum (configured c v s) (configured-IsChannel c v s h),
  control_mask_fields v,
  direction_code-test_bit v,
  step_code-test_bit v,
  to_ℕ-test_bit v 8,
  to_ℕ-test_bit v 24,
  to_ℕ-test_bit v 28,
)

pub sync_of_code : (n : ℕ) → n < 4 → n ≢ 3 → (s : Sync) × (sync_code s ≡ n)
sync_of_code zero h ne = (manual, refl)
sync_of_code (suc zero) h ne = (request, refl)
sync_of_code (suc (suc zero)) h ne = (linked_list, refl)
sync_of_code (suc (suc (suc n))) h ne = absurd (omega arith)

set_control-mode_3 :
    (c : Channel) (v : ℕ) → v / 2 ^ 9 % 4 ≡ 3 → set_control c v ≡ panic (unknown_sync_mode 3)
unfolding set_control
set_control-mode_3 c v e = ground arith

-- A value written to the control register of a channel reads back with the unused bits cleared,
-- unless its synchronisation mode is 3, on which the emulator stops.
pub control-set_control :
    (c : Channel) (v : ℕ)
    → IsChannel c
    → (set_control c v >>= λ c'. ok (control c'))
      ≡ (if v / 2 ^ 9 % 4 == 3 then panic (unknown_sync_mode 3) else ok (bit_and v control_mask))
control-set_control c v h = elim (Bool-cases (v / 2 ^ 9 % 4 == 3)) [
  | inl e ↦ rw e (rw (set_control-mode_3 c v (ground arith)) refl)
  | inr e ↦ rw e (
      let ne : v / 2 ^ 9 % 4 ≢ 3 = ground arith in
      let (s, eq) = sync_of_code (v / 2 ^ 9 % 4) (omega arith) ne in
      rw (set_control-configured c v s eq) (ap ok (control-configured c v s h eq)))
]

-- The block control register of a channel reads back a word of 32 bits as it was written.
pub block_control-set_block_control :
    (c : Channel) (v : ℕ) → v < 2 ^ 32 → block_control (set_block_control c v) ≡ v
unfolding block_control set_block_control
block_control-set_block_control c v h =
    omega (arith, bit_or_low 16 (v % 2 ^ 16) (v / 2 ^ 16 % 2 ^ 16) (omega arith))

-- The setters keep the sizes of the fields.
pub setters-IsChannel :
    (c : Channel) (v : ℕ)
    → IsChannel c
    → IsChannel (set_base c v)
      × IsChannel (set_block_control c v)
      × Ensures IsChannel (set_control c v)
      × IsChannel (done c)
unfolding set_base set_block_control set_control done
setters-IsChannel c v h = (ground arith, ground arith, ground arith, ground arith)

-- A transfer of a whole number of blocks is never taken for the -1 of the linked list mode, and a
-- completed channel is not active, so no transfer starts again by itself.
pub transfer_size-ne_minus_one :
    (c : Channel) (n : ℕ)
    → IsChannel c
    → transfer_size c ≡ ok n
    → (n ≡ 0xffffffff → c.sync ≡ linked_list) × (active (done c) ≡ false)
unfolding transfer_size active done
transfer_size-ne_minus_one c n h e = (λ m. ground arith, ground arith)

pub control-lt : (c : Channel) → IsChannel c → control c < 2 ^ 32
control-lt c h = omega (
  arith,
  control_sum c h,
  direction_code-lt c.direction,
  step_code-lt c.step,
  sync_code-lt c.sync,
  to_ℕ-lt c.chop,
  to_ℕ-lt c.enable,
  to_ℕ-lt c.trigger,
)
