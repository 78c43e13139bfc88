-- ===== src/Dma/Interrupts.antt =====
-- What the interrupt register reads back, and what an acknowledgement does.
use cpp_station.Prelude.{
  ◌==◌, if◌then◌else◌, ℕ, ◌+◌, ◌*◌, ◌/◌, ◌%◌, ◌^◌, ◌<◌, ◌≡◌, bit_and, to_ℕ, to_ℕ-lt, arith,
}
use cpp_station.Word.{test_bit}
use cpp_station.Word.Fields.{
  sum_fields, or_fields-eq-sum_fields, bit_and_mask, bit_and_concat, bit_and-zero,
}
use cpp_station.Dma.Controller.{Dma, irq, interrupt, interrupt_fields, set_interrupt}

-- The sizes of the fields.
pub record IsDma (d : Dma) : Type 0 where
  pub dummy6 : d.irq_dummy < 2 ^ 6
  pub en7 : d.channel_irq_en < 2 ^ 7
  pub flags7 : d.channel_irq_flags < 2 ^ 7

interrupt_sum : (d : Dma) → IsDma d → interrupt d ≡ sum_fields 0 (interrupt_fields d)
unfolding interrupt
interrupt_sum d h =
    or_fields-eq-sum_fields 0 (interrupt_fields d)
      (omega (arith, to_ℕ-lt d.force_irq, to_ℕ-lt d.irq_en, to_ℕ-lt (irq d)))

to_ℕ-test_bit : (v k : ℕ) → to_ℕ (test_bit v k) ≡ v / 2 ^ k % 2
to_ℕ-test_bit v k = ground arith

writable_fields :
    (v : ℕ)
    → bit_and v 0x00ff803f
      ≡ v % 2 ^ 6 + v / 2 ^ 15 % 2 * 2 ^ 15 + v / 2 ^ 16 % 2 ^ 7 * 2 ^ 16 + v / 2 ^ 23 % 2 * 2 ^ 23
writable_fields v = omega (
  arith,
  bit_and_concat 15 v 0x1ff 0x3f (omega arith),
  bit_and_mask 9 (v / 2 ^ 15),
  bit_and_mask 6 v,
)

-- The flags after the `&= !ack` of a write.
flags-set_interrupt :
    (d : Dma) (v : ℕ)
    → (set_interrupt d v).channel_irq_flags
      ≡ (if v / 2 ^ 24 % 2 ^ 6 == 0 then d.channel_irq_flags % 2 else 0)
unfolding set_interrupt
flags-set_interrupt d v =
    ground (arith, bit_and_mask 1 d.channel_irq_flags, bit_and-zero d.channel_irq_flags)

pub set_interrupt-IsDma : (d : Dma) (v : ℕ) → IsDma d → IsDma (set_interrupt d v)
unfolding set_interrupt
set_interrupt-IsDma d v h = record {
  dummy6 = omega arith;
  en7 = omega arith;
  flags7 = ground (arith, flags-set_interrupt d v);
}

-- Bits 0 to 5, 15, 16 to 22 and 23 of the DMA interrupt register read back as they were written,
-- and bits 6 to 14 as zeroes.
pub interrupt-set_interrupt :
    (d : Dma) (v : ℕ) → IsDma d → interrupt (set_interrupt d v) % 2 ^ 24 ≡ bit_and v 0x00ff803f
unfolding set_interrupt
interrupt-set_interrupt d v h =
    let d' = set_interrupt d v in
    let fits : IsDma d' = set_interrupt-IsDma d v h in
    omega (
      arith,
      interrupt_sum d' fits,
      fits.flags7,
      writable_fields v,
      to_ℕ-test_bit v 15,
      to_ℕ-test_bit v 23,
    )

pub interrupt-lt : (d : Dma) → IsDma d → interrupt d < 2 ^ 32
interrupt-lt d h =
    omega (arith, interrupt_sum d h, to_ℕ-lt d.force_irq, to_ℕ-lt d.irq_en, to_ℕ-lt (irq d))
