-- ===== src/Cpu/Jumps/DelaySlot.antt =====
-- A jump and the instruction in its delay slot.
use cpp_station.Prelude.{
  ℕ, ◌+◌, ◌%◌, ◌^◌, ◌<◌, ◌≡◌, ◌⊎◌, inl, inr, ap, ◌∙◌, true, ◌==◌, ==_true, if◌then◌else◌, arith,
}
use cpp_station.Word.{test_bit}
use cpp_station.Outcome.{ok, Ensures, Ensures-bind}
use cpp_station.Bus.Access
use cpp_station.Cpu.State.{Machine}
use cpp_station.Cpu.Decode.{Op}
use cpp_station.Cpu.Step.{run_next_instruction, run_instructions}
use cpp_station.Cpu.Flow.Step.{Continues, run_next_instruction-Continues}
use cpp_station.Cpu.Assembly.{Fields, Fit, assemble}
use cpp_station.Cpu.Jumps.{Jump, IsJump, HasJumped, jump_target, run_next_instruction-HasJumped}

-- At the target, or in the handler with the jump to be run again.
abbrev pub LandsAfterSlot : Jump → Machine → ℕ → Machine → Type 0
LandsAfterSlot kind m i m2 =
    (m2.cpu.pc ≡ jump_target kind m.cpu ((m.cpu.next_pc + 4) % 2 ^ 32) i)
    ⊎ ((m2.cpu.pc ≡ (if test_bit m.cpu.sr 22 then 0xbfc00180 else 0x80000080))
        × (m2.cpu.epc ≡ m.cpu.pc))

jumped-Lands :
    (kind : Jump) (m m1 m2 : Machine) (i : ℕ)
    → m.cpu.pc % 4 ≡ 0
    → m.cpu.pc + 4 < 2 ^ 32
    → m.cpu.next_pc ≡ m.cpu.pc + 4
    → HasJumped kind m i m1
    → Continues m1 m2
    → LandsAfterSlot kind m i m2
jumped-Lands kind m m1 m2 i al h next (pc, target, branch, sr, registers, bus) (inl (al1, at)) =
    inl (at ∙ target)
jumped-Lands kind m m1 m2 i al h next (pc, target, branch, sr, registers, bus)
      (inr (at, after, epc)) =
    let slot : m1.cpu.pc ≡ m.cpu.pc + 4 = pc ∙ next in
    let aligned : (m1.cpu.pc % 4 == 0) ≡ true = ==_true (m1.cpu.pc % 4) 0 (omega arith) in
    inr (
      at ∙ ap (λ x. if test_bit x 22 then 0xbfc00180 else 0x80000080) sr,
      (rw (aligned, branch) at epc) ∙ omega arith,
    )

-- Two instructions from a jump on: from an aligned program counter whose next word is within 32
-- bits and comes next, at which memory holds the word that is put together from J, JAL, JR or
-- JALR and from fields within their widths. Whatever the instruction in the delay slot, if both
-- steps end normally the processor is at the target of the jump, or in the exception handler that
-- the status register chooses, with EPC at the jump, so that it is run again.
pub run_instructions-LandsAfterSlot :
    {op : Op} {kind : Jump} (row : IsJump op kind) (fuel : ℕ) (m : Machine) (f : Fields)
    → Fit f
    → m.cpu.pc % 4 ≡ 0
    → m.cpu.pc + 4 < 2 ^ 32
    → m.cpu.next_pc ≡ m.cpu.pc + 4
    → Access.load32 m.bus m.cpu.pc ≡ ok (assemble op f)
    → Ensures (LandsAfterSlot kind m (assemble op f)) (run_instructions fuel 2 m)
unfolding run_instructions
run_instructions-LandsAfterSlot {op} {kind} row fuel m f fit al h next fetch =
    let (m1, first, jumped) = run_next_instruction-HasJumped row fuel m f fit al fetch in
    rw first (
      Ensures-bind (Continues m1) (LandsAfterSlot kind m (assemble op f))
        (run_next_instruction fuel m1) _ (run_next_instruction-Continues fuel m1)
        (λ m2 c. jumped-Lands kind m m1 m2 (assemble op f) al h next jumped c))
