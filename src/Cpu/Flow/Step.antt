-- ===== src/Cpu/Flow/Step.antt =====
-- What a whole step leaves for the next one.
use cpp_station.Prelude.{
  ℕ, ◌+◌, ◌%◌, ◌≡◌, ◌⊎◌, inl, inr, refl, Bool-cases, false, ==_true, ◌==◌, if◌then◌else◌, arith,
}
use cpp_station.Word.{u8, u16, sign_extend8, sign_extend16, sub32, test_bit}
use cpp_station.Outcome.{ok, Ensures, Ensures-bind, Ensures-if}
use cpp_station.Bus.Invariant.{Any, trivially}
use cpp_station.Bus.Access
use cpp_station.Cpu.State.{
  reg, Machine, set_reg, exception, store_address_error, load_address_error,
}
use cpp_station.Cpu.Instruction.{t}
use cpp_station.Cpu.Decode
use cpp_station.Cpu.Decode.{Op, execute, decode, decode_and_execute}
use cpp_station.Cpu.Memory
use cpp_station.Cpu.Memory.{is_isolated, address, with_cpu, delay_load}
use cpp_station.Cpu.Step.{advance, retire, run_next_instruction}
use cpp_station.Cpu.Coprocessor.{
  op_break, op_cop2, op_illegal, op_lwc2, op_no_coprocessor, op_swc2, op_syscall,
}
use cpp_station.Cpu.Unaligned.{
  aligned, merge_lwl, merge_lwr, merge_swl, merge_swr, op_lwl, op_lwr, op_swl, op_swr,
}
use cpp_station.Cpu.Flow.{
  Follows, FollowsMachine, raised-Follows, loaded-Follows, stored-Follows, tried-Follows,
}
use cpp_station.Cpu.Flow.Ops.{
  op_sll-Follows, op_or-Follows, op_sltu-Follows, op_addu-Follows, op_jr-Follows, op_and-Follows,
  op_add-Follows, op_jalr-Follows, op_subu-Follows, op_sra-Follows, op_div-Follows, op_mflo-Follows,
  op_srl-Follows, op_divu-Follows, op_mfhi-Follows, op_slt-Follows, op_mthi-Follows,
  op_mtlo-Follows, op_sllv-Follows, op_nor-Follows, op_srav-Follows, op_srlv-Follows,
  op_multu-Follows, op_xor-Follows, op_mult-Follows, op_sub-Follows, op_lui-Follows, op_ori-Follows,
  op_addiu-Follows, op_j-Follows, op_bne-Follows, op_addi-Follows, op_jal-Follows, op_andi-Follows,
  op_beq-Follows, op_blez-Follows, op_bgtz-Follows, op_bxx-Follows, op_slti-Follows,
  op_sltiu-Follows, op_xori-Follows, op_cop0-Follows,
}

op_sw-Follows :
    (fuel : ℕ) (m : Machine) (i : ℕ) → Ensures (FollowsMachine m) (Memory.op_sw fuel m i)
unfolding Memory.op_sw Memory.store32
op_sw-Follows fuel m i = Ensures-if (FollowsMachine m) (is_isolated m.cpu) (ok m) _ (inl refl) (
    Ensures-if (FollowsMachine m) (address m.cpu i % 4 == 0)
      (Memory.store32 fuel m (address m.cpu i) (reg m.cpu (t i)))
      (ok (with_cpu m (exception m.cpu store_address_error)))
      (stored-Follows m (Access.store32 fuel m.bus (address m.cpu i) (reg m.cpu (t i))))
      (raised-Follows m.cpu store_address_error))

op_sh-Follows : (m : Machine) (i : ℕ) → Ensures (FollowsMachine m) (Memory.op_sh m i)
unfolding Memory.op_sh Memory.store16
op_sh-Follows m i =
    Ensures-if (FollowsMachine m) (address m.cpu i % 2 == 0)
      (Memory.store16 m (address m.cpu i) (u16 (reg m.cpu (t i))))
      (ok (with_cpu m (exception m.cpu store_address_error)))
      (stored-Follows m (Access.store16 m.bus (address m.cpu i) (u16 (reg m.cpu (t i)))))
      (raised-Follows m.cpu store_address_error)

op_sb-Follows : (m : Machine) (i : ℕ) → Ensures (FollowsMachine m) (Memory.op_sb m i)
unfolding Memory.op_sb Memory.store8
op_sb-Follows m i = stored-Follows m (Access.store8 m.bus (address m.cpu i) (u8 (reg m.cpu (t i))))

op_lw-Follows : (m : Machine) (i : ℕ) → Ensures (FollowsMachine m) (Memory.op_lw m i)
unfolding Memory.op_lw
op_lw-Follows m i =
    Ensures-if (FollowsMachine m) (is_isolated m.cpu) (ok m) _ (inl refl)
      (loaded-Follows m (t i) (λ v. v) (Access.load32 m.bus (address m.cpu i)))

op_lb-Follows : (m : Machine) (i : ℕ) → Ensures (FollowsMachine m) (Memory.op_lb m i)
unfolding Memory.op_lb
op_lb-Follows m i = loaded-Follows m (t i) (sign_extend8) (Access.load8 m.bus (address m.cpu i))

op_lbu-Follows : (m : Machine) (i : ℕ) → Ensures (FollowsMachine m) (Memory.op_lbu m i)
unfolding Memory.op_lbu
op_lbu-Follows m i = loaded-Follows m (t i) (λ v. v) (Access.load8 m.bus (address m.cpu i))

op_lhu-Follows : (m : Machine) (i : ℕ) → Ensures (FollowsMachine m) (Memory.op_lhu m i)
unfolding Memory.op_lhu
op_lhu-Follows m i =
    Ensures-if (FollowsMachine m) (address m.cpu i % 2 == 0) _
      (ok (with_cpu m (exception m.cpu load_address_error)))
      (loaded-Follows m (t i) (λ v. v) (Access.load16 m.bus (address m.cpu i)))
      (raised-Follows m.cpu load_address_error)

op_lh-Follows : (m : Machine) (i : ℕ) → Ensures (FollowsMachine m) (Memory.op_lh m i)
unfolding Memory.op_lh
op_lh-Follows m i = loaded-Follows m (t i) (sign_extend16) (Access.load16 m.bus (address m.cpu i))

op_lwl-Follows : (m : Machine) (i : ℕ) → Ensures (FollowsMachine m) (op_lwl m i)
unfolding op_lwl
op_lwl-Follows m i =
    loaded-Follows m (t i) (merge_lwl (address m.cpu i) (m.cpu.out_regs (t i)))
      (Access.load32 m.bus (aligned (address m.cpu i)))

op_lwr-Follows : (m : Machine) (i : ℕ) → Ensures (FollowsMachine m) (op_lwr m i)
unfolding op_lwr
op_lwr-Follows m i =
    loaded-Follows m (t i) (merge_lwr (address m.cpu i) (m.cpu.out_regs (t i)))
      (Access.load32 m.bus (aligned (address m.cpu i)))

op_swl-Follows : (fuel : ℕ) (m : Machine) (i : ℕ) → Ensures (FollowsMachine m) (op_swl fuel m i)
unfolding op_swl Memory.store32
op_swl-Follows fuel m i =
    Ensures-bind Any (FollowsMachine m) (Access.load32 m.bus (aligned (address m.cpu i))) _
      (trivially _)
      (λ old u. stored-Follows m (
        Access.store32 fuel m.bus (aligned (address m.cpu i))
          (merge_swl (address m.cpu i) old (reg m.cpu (t i)))))

op_swr-Follows : (fuel : ℕ) (m : Machine) (i : ℕ) → Ensures (FollowsMachine m) (op_swr fuel m i)
unfolding op_swr Memory.store32
op_swr-Follows fuel m i =
    Ensures-bind Any (FollowsMachine m) (Access.load32 m.bus (aligned (address m.cpu i))) _
      (trivially _)
      (λ old u. stored-Follows m (
        Access.store32 fuel m.bus (aligned (address m.cpu i))
          (merge_swr (address m.cpu i) old (reg m.cpu (t i)))))

execute-Follows :
    (fuel : ℕ) (op : Op) (m : Machine) (i : ℕ) → Ensures (FollowsMachine m) (execute fuel op m i)
unfolding execute op_syscall op_break op_illegal op_no_coprocessor op_cop2 op_lwc2 op_swc2
execute-Follows fuel Decode.sll m i = op_sll-Follows m.cpu i
execute-Follows fuel Decode.or m i = op_or-Follows m.cpu i
execute-Follows fuel Decode.sltu m i = op_sltu-Follows m.cpu i
execute-Follows fuel Decode.addu m i = op_addu-Follows m.cpu i
execute-Follows fuel Decode.jr m i = op_jr-Follows m.cpu i
execute-Follows fuel Decode.and m i = op_and-Follows m.cpu i
execute-Follows fuel Decode.add m i = op_add-Follows m.cpu i
execute-Follows fuel Decode.jalr m i = op_jalr-Follows m.cpu i
execute-Follows fuel Decode.subu m i = op_subu-Follows m.cpu i
execute-Follows fuel Decode.sra m i = op_sra-Follows m.cpu i
execute-Follows fuel Decode.div m i = op_div-Follows m.cpu i
execute-Follows fuel Decode.mflo m i = op_mflo-Follows m.cpu i
execute-Follows fuel Decode.srl m i = op_srl-Follows m.cpu i
execute-Follows fuel Decode.divu m i = op_divu-Follows m.cpu i
execute-Follows fuel Decode.mfhi m i = op_mfhi-Follows m.cpu i
execute-Follows fuel Decode.slt m i = op_slt-Follows m.cpu i
execute-Follows fuel Decode.syscall m i = raised-Follows m.cpu _
execute-Follows fuel Decode.mthi m i = op_mthi-Follows m.cpu i
execute-Follows fuel Decode.mtlo m i = op_mtlo-Follows m.cpu i
execute-Follows fuel Decode.sllv m i = op_sllv-Follows m.cpu i
execute-Follows fuel Decode.nor m i = op_nor-Follows m.cpu i
execute-Follows fuel Decode.srav m i = op_srav-Follows m.cpu i
execute-Follows fuel Decode.srlv m i = op_srlv-Follows m.cpu i
execute-Follows fuel Decode.multu m i = op_multu-Follows m.cpu i
execute-Follows fuel Decode.xor m i = op_xor-Follows m.cpu i
execute-Follows fuel Decode.break m i = raised-Follows m.cpu _
execute-Follows fuel Decode.mult m i = op_mult-Follows m.cpu i
execute-Follows fuel Decode.sub m i = op_sub-Follows m.cpu i
execute-Follows fuel Decode.lui m i = op_lui-Follows m.cpu i
execute-Follows fuel Decode.ori m i = op_ori-Follows m.cpu i
execute-Follows fuel Decode.sw m i = op_sw-Follows fuel m i
execute-Follows fuel Decode.addiu m i = op_addiu-Follows m.cpu i
execute-Follows fuel Decode.j m i = op_j-Follows m.cpu i
execute-Follows fuel Decode.cop0 m i = tried-Follows m _ (op_cop0-Follows m.cpu i)
execute-Follows fuel Decode.bne m i = op_bne-Follows m.cpu i
execute-Follows fuel Decode.addi m i = op_addi-Follows m.cpu i
execute-Follows fuel Decode.lw m i = op_lw-Follows m i
execute-Follows fuel Decode.sh m i = op_sh-Follows m i
execute-Follows fuel Decode.jal m i = op_jal-Follows m.cpu i
execute-Follows fuel Decode.andi m i = op_andi-Follows m.cpu i
execute-Follows fuel Decode.sb m i = op_sb-Follows m i
execute-Follows fuel Decode.lb m i = op_lb-Follows m i
execute-Follows fuel Decode.beq m i = op_beq-Follows m.cpu i
execute-Follows fuel Decode.blez m i = op_blez-Follows m.cpu i
execute-Follows fuel Decode.bgtz m i = op_bgtz-Follows m.cpu i
execute-Follows fuel Decode.lbu m i = op_lbu-Follows m i
execute-Follows fuel Decode.bxx m i = op_bxx-Follows m.cpu i
execute-Follows fuel Decode.slti m i = op_slti-Follows m.cpu i
execute-Follows fuel Decode.sltiu m i = op_sltiu-Follows m.cpu i
execute-Follows fuel Decode.lhu m i = op_lhu-Follows m i
execute-Follows fuel Decode.lh m i = op_lh-Follows m i
execute-Follows fuel Decode.xori m i = op_xori-Follows m.cpu i
execute-Follows fuel Decode.cop2 m i = tt
execute-Follows fuel Decode.lwl m i = op_lwl-Follows m i
execute-Follows fuel Decode.lwr m i = op_lwr-Follows m i
execute-Follows fuel Decode.swl m i = op_swl-Follows fuel m i
execute-Follows fuel Decode.swr m i = op_swr-Follows fuel m i
execute-Follows fuel Decode.lwc2 m i = tt
execute-Follows fuel Decode.swc2 m i = tt
execute-Follows fuel Decode.no_coprocessor m i = raised-Follows m.cpu _
execute-Follows fuel Decode.special m i = raised-Follows m.cpu _
execute-Follows fuel Decode.illegal m i = raised-Follows m.cpu _

-- The step from `m` to `m'` goes on at `next_pc`, or enters an exception of the instruction at `pc`.
-- It counts as one in a delay slot after a branch; a misaligned `pc` is found before that is known,
-- and takes the mark of the instruction before it.
abbrev pub Continues : Machine → Machine → Type 0
Continues m m' =
    let slot = if m.cpu.pc % 4 == 0 then m.cpu.branch else m.cpu.delay_slot in
    ((m.cpu.pc % 4 ≡ 0) × (m'.cpu.pc ≡ m.cpu.next_pc))
    ⊎ ((m'.cpu.pc ≡ (if test_bit m.cpu.sr 22 then 0xbfc00180 else 0x80000080))
        × (m'.cpu.next_pc ≡ m'.cpu.pc + 4)
        × (m'.cpu.epc ≡ (if slot then sub32 m.cpu.pc 4 else m.cpu.pc)))

retired-Continues :
    (m m' : Machine)
    → m.cpu.pc % 4 ≡ 0
    → Follows (advance (record (m.cpu) { current_pc = m.cpu.pc })) m'.cpu
    → Continues m (record m' { cpu = retire m'.cpu })
unfolding advance retire set_reg
retired-Continues m m' al (inl e) = inl (al, e)
retired-Continues m m' al (inr (pc, next, epc)) =
    inr (pc, next, rw (==_true (m.cpu.pc % 4) 0 al) epc)

misaligned-Continues :
    (m : Machine)
    → (m.cpu.pc % 4 == 0) ≡ false
    → Continues m
        (record m { cpu = exception (record (m.cpu) { current_pc = m.cpu.pc }) load_address_error })
unfolding exception
misaligned-Continues m e = inr (refl, ground arith, rw e refl)

-- Whatever the instruction, a step that ends normally goes on at nextPc, which only a step from
-- an aligned program counter does, or enters the exception handler that the status register
-- chooses, with EPC at the instruction, or at the branch before it in a delay slot. A misaligned
-- program counter takes the mark of the delay slot of the instruction before.
pub run_next_instruction-Continues :
    (fuel : ℕ) (m : Machine) → Ensures (Continues m) (run_next_instruction fuel m)
unfolding run_next_instruction decode_and_execute
run_next_instruction-Continues fuel m =
    let ready : Machine = record m { cpu = advance (record (m.cpu) { current_pc = m.cpu.pc }) } in
    elim (Bool-cases (m.cpu.pc % 4 == 0)) [
      | inl e ↦ rw e (
          Ensures-bind Any (Continues m) (Access.load32 m.bus m.cpu.pc) _ (trivially _) (λ i u.
            Ensures-bind (FollowsMachine ready) (Continues m) (execute fuel (decode i) ready i) _
              (execute-Follows fuel (decode i) ready i)
              (λ m' f. retired-Continues m m' (ground arith) f)))
      | inr e ↦ rw e (misaligned-Continues m e)
    ]
