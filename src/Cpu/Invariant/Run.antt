-- ===== src/Cpu/Invariant/Run.antt =====
-- The whole machine stays well formed, from the start and over any number of instructions.
use cpp_station.Prelude.{ℕ, zero, suc, ◌%◌, ◌==◌, arith}
use cpp_station.Word.{add32}
use cpp_station.Outcome.{Outcome, ok, ◌>>=◌, Ensures, Ensures-bind, Ensures-if}
use cpp_station.Bus.Invariant.{IsWord}
use cpp_station.Bus.Sizes.{load32-IsWord}
use cpp_station.Bus.Access
use cpp_station.Cpu.State.{
  Cpu, Machine, exception, sys_call, break_point, illegal_instruction, coprocessor_error,
  load_address_error,
}
use cpp_station.Cpu.Coprocessor.{
  op_syscall, op_break, op_illegal, op_no_coprocessor, op_cop2, op_lwc2, op_swc2,
}
use cpp_station.Cpu.Decode
use cpp_station.Cpu.Decode.{Op, execute, decode, decode_and_execute}
use cpp_station.Cpu.Step.{advance, retire, run_next_instruction, run_instructions}
use cpp_station.Cpu.Invariant.{IsCpu, set_reg-IsCpu, exception-IsCpu}
use cpp_station.Cpu.Invariant.AluOps
use cpp_station.Cpu.Invariant.OtherOps
use cpp_station.Cpu.Invariant.MemoryOps
use cpp_station.Cpu.Invariant.MemoryOps.{IsMachine, with_cpu-IsMachine}

tried-IsMachine :
    (m : Machine) (x : Outcome Cpu)
    → IsMachine m
    → Ensures IsCpu x
    → Ensures IsMachine (x >>= λ c. ok (record m { cpu = c }))
tried-IsMachine m x h k = Ensures-bind IsCpu IsMachine x _ k (λ c v. with_cpu-IsMachine m c h v)

-- Every operation.
execute-IsMachine :
    (fuel : ℕ) (op : Op) (m : Machine) (i : ℕ)
    → IsMachine m
    → Ensures IsMachine (execute fuel op m i)
unfolding execute op_syscall op_break op_illegal op_no_coprocessor op_cop2 op_lwc2 op_swc2
execute-IsMachine fuel Decode.sll m i h =
    with_cpu-IsMachine m _ h (AluOps.op_sll-IsCpu m.cpu i h.cpu_valid)
execute-IsMachine fuel Decode.or m i h =
    with_cpu-IsMachine m _ h (AluOps.op_or-IsCpu m.cpu i h.cpu_valid)
execute-IsMachine fuel Decode.sltu m i h =
    with_cpu-IsMachine m _ h (AluOps.op_sltu-IsCpu m.cpu i h.cpu_valid)
execute-IsMachine fuel Decode.addu m i h =
    with_cpu-IsMachine m _ h (AluOps.op_addu-IsCpu m.cpu i h.cpu_valid)
execute-IsMachine fuel Decode.jr m i h =
    with_cpu-IsMachine m _ h (OtherOps.op_jr-IsCpu m.cpu i h.cpu_valid)
execute-IsMachine fuel Decode.and m i h =
    with_cpu-IsMachine m _ h (AluOps.op_and-IsCpu m.cpu i h.cpu_valid)
execute-IsMachine fuel Decode.add m i h =
    with_cpu-IsMachine m _ h (AluOps.op_add-IsCpu m.cpu i h.cpu_valid)
execute-IsMachine fuel Decode.jalr m i h =
    with_cpu-IsMachine m _ h (OtherOps.op_jalr-IsCpu m.cpu i h.cpu_valid)
execute-IsMachine fuel Decode.subu m i h =
    with_cpu-IsMachine m _ h (AluOps.op_subu-IsCpu m.cpu i h.cpu_valid)
execute-IsMachine fuel Decode.sra m i h =
    with_cpu-IsMachine m _ h (AluOps.op_sra-IsCpu m.cpu i h.cpu_valid)
execute-IsMachine fuel Decode.div m i h =
    with_cpu-IsMachine m _ h (OtherOps.op_div-IsCpu m.cpu i h.cpu_valid)
execute-IsMachine fuel Decode.mflo m i h =
    with_cpu-IsMachine m _ h (OtherOps.op_mflo-IsCpu m.cpu i h.cpu_valid)
execute-IsMachine fuel Decode.srl m i h =
    with_cpu-IsMachine m _ h (AluOps.op_srl-IsCpu m.cpu i h.cpu_valid)
execute-IsMachine fuel Decode.divu m i h =
    with_cpu-IsMachine m _ h (OtherOps.op_divu-IsCpu m.cpu i h.cpu_valid)
execute-IsMachine fuel Decode.mfhi m i h =
    with_cpu-IsMachine m _ h (OtherOps.op_mfhi-IsCpu m.cpu i h.cpu_valid)
execute-IsMachine fuel Decode.slt m i h =
    with_cpu-IsMachine m _ h (AluOps.op_slt-IsCpu m.cpu i h.cpu_valid)
execute-IsMachine fuel Decode.syscall m i h =
    with_cpu-IsMachine m _ h (exception-IsCpu m.cpu sys_call h.cpu_valid)
execute-IsMachine fuel Decode.mthi m i h =
    with_cpu-IsMachine m _ h (OtherOps.op_mthi-IsCpu m.cpu i h.cpu_valid)
execute-IsMachine fuel Decode.mtlo m i h =
    with_cpu-IsMachine m _ h (OtherOps.op_mtlo-IsCpu m.cpu i h.cpu_valid)
execute-IsMachine fuel Decode.sllv m i h =
    with_cpu-IsMachine m _ h (AluOps.op_sllv-IsCpu m.cpu i h.cpu_valid)
execute-IsMachine fuel Decode.nor m i h =
    with_cpu-IsMachine m _ h (AluOps.op_nor-IsCpu m.cpu i h.cpu_valid)
execute-IsMachine fuel Decode.srav m i h =
    with_cpu-IsMachine m _ h (AluOps.op_srav-IsCpu m.cpu i h.cpu_valid)
execute-IsMachine fuel Decode.srlv m i h =
    with_cpu-IsMachine m _ h (AluOps.op_srlv-IsCpu m.cpu i h.cpu_valid)
execute-IsMachine fuel Decode.multu m i h =
    with_cpu-IsMachine m _ h (OtherOps.op_multu-IsCpu m.cpu i h.cpu_valid)
execute-IsMachine fuel Decode.xor m i h =
    with_cpu-IsMachine m _ h (AluOps.op_xor-IsCpu m.cpu i h.cpu_valid)
execute-IsMachine fuel Decode.break m i h =
    with_cpu-IsMachine m _ h (exception-IsCpu m.cpu break_point h.cpu_valid)
execute-IsMachine fuel Decode.mult m i h =
    with_cpu-IsMachine m _ h (OtherOps.op_mult-IsCpu m.cpu i h.cpu_valid)
execute-IsMachine fuel Decode.sub m i h =
    with_cpu-IsMachine m _ h (AluOps.op_sub-IsCpu m.cpu i h.cpu_valid)
execute-IsMachine fuel Decode.lui m i h =
    with_cpu-IsMachine m _ h (AluOps.op_lui-IsCpu m.cpu i h.cpu_valid)
execute-IsMachine fuel Decode.ori m i h =
    with_cpu-IsMachine m _ h (AluOps.op_ori-IsCpu m.cpu i h.cpu_valid)
execute-IsMachine fuel Decode.sw m i h = MemoryOps.op_sw-IsMachine fuel m i h
execute-IsMachine fuel Decode.addiu m i h =
    with_cpu-IsMachine m _ h (AluOps.op_addiu-IsCpu m.cpu i h.cpu_valid)
execute-IsMachine fuel Decode.j m i h =
    with_cpu-IsMachine m _ h (OtherOps.op_j-IsCpu m.cpu i h.cpu_valid)
execute-IsMachine fuel Decode.cop0 m i h =
    tried-IsMachine m _ h (OtherOps.op_cop0-IsCpu m.cpu i h.cpu_valid)
execute-IsMachine fuel Decode.bne m i h =
    with_cpu-IsMachine m _ h (OtherOps.op_bne-IsCpu m.cpu i h.cpu_valid)
execute-IsMachine fuel Decode.addi m i h =
    with_cpu-IsMachine m _ h (AluOps.op_addi-IsCpu m.cpu i h.cpu_valid)
execute-IsMachine fuel Decode.lw m i h = MemoryOps.op_lw-IsMachine m i h
execute-IsMachine fuel Decode.sh m i h = MemoryOps.op_sh-IsMachine m i h
execute-IsMachine fuel Decode.jal m i h =
    with_cpu-IsMachine m _ h (OtherOps.op_jal-IsCpu m.cpu i h.cpu_valid)
execute-IsMachine fuel Decode.andi m i h =
    with_cpu-IsMachine m _ h (AluOps.op_andi-IsCpu m.cpu i h.cpu_valid)
execute-IsMachine fuel Decode.sb m i h = MemoryOps.op_sb-IsMachine m i h
execute-IsMachine fuel Decode.lb m i h = MemoryOps.op_lb-IsMachine m i h
execute-IsMachine fuel Decode.beq m i h =
    with_cpu-IsMachine m _ h (OtherOps.op_beq-IsCpu m.cpu i h.cpu_valid)
execute-IsMachine fuel Decode.blez m i h =
    with_cpu-IsMachine m _ h (OtherOps.op_blez-IsCpu m.cpu i h.cpu_valid)
execute-IsMachine fuel Decode.bgtz m i h =
    with_cpu-IsMachine m _ h (OtherOps.op_bgtz-IsCpu m.cpu i h.cpu_valid)
execute-IsMachine fuel Decode.lbu m i h = MemoryOps.op_lbu-IsMachine m i h
execute-IsMachine fuel Decode.bxx m i h =
    with_cpu-IsMachine m _ h (OtherOps.op_bxx-IsCpu m.cpu i h.cpu_valid)
execute-IsMachine fuel Decode.slti m i h =
    with_cpu-IsMachine m _ h (AluOps.op_slti-IsCpu m.cpu i h.cpu_valid)
execute-IsMachine fuel Decode.sltiu m i h =
    with_cpu-IsMachine m _ h (AluOps.op_sltiu-IsCpu m.cpu i h.cpu_valid)
execute-IsMachine fuel Decode.lhu m i h = MemoryOps.op_lhu-IsMachine m i h
execute-IsMachine fuel Decode.lh m i h = MemoryOps.op_lh-IsMachine m i h
execute-IsMachine fuel Decode.xori m i h =
    with_cpu-IsMachine m _ h (AluOps.op_xori-IsCpu m.cpu i h.cpu_valid)
execute-IsMachine fuel Decode.cop2 m i h = tt
execute-IsMachine fuel Decode.lwl m i h = MemoryOps.op_lwl-IsMachine m i h
execute-IsMachine fuel Decode.lwr m i h = MemoryOps.op_lwr-IsMachine m i h
execute-IsMachine fuel Decode.swl m i h = MemoryOps.op_swl-IsMachine fuel m i h
execute-IsMachine fuel Decode.swr m i h = MemoryOps.op_swr-IsMachine fuel m i h
execute-IsMachine fuel Decode.lwc2 m i h = tt
execute-IsMachine fuel Decode.swc2 m i h = tt
execute-IsMachine fuel Decode.no_coprocessor m i h =
    with_cpu-IsMachine m _ h (exception-IsCpu m.cpu coprocessor_error h.cpu_valid)
execute-IsMachine fuel Decode.special m i h =
    with_cpu-IsMachine m _ h (exception-IsCpu m.cpu illegal_instruction h.cpu_valid)
execute-IsMachine fuel Decode.illegal m i h =
    with_cpu-IsMachine m _ h (exception-IsCpu m.cpu illegal_instruction h.cpu_valid)

advance-IsCpu : (c : Cpu) → IsCpu c → IsCpu (advance c)
unfolding advance
advance-IsCpu c k =
    let moved : IsCpu (record c { pc = c.next_pc; next_pc = add32 c.next_pc 4 }) = record {
      zero_in = k.zero_in;
      zero_out = k.zero_out;
      words_in = k.words_in;
      words_out = k.words_out;
      load_word = k.load_word;
      hi_word = k.hi_word;
      lo_word = k.lo_word;
      sr_word = k.sr_word;
      cause_word = k.cause_word;
      epc_word = k.epc_word;
      pc_word = k.next_word;
      next_word = omega arith;
      current_word = k.current_word;
    } in
    let l =
      set_reg-IsCpu (record c { pc = c.next_pc; next_pc = add32 c.next_pc 4 }) c.load_reg_idx
        c.load_reg moved k.load_word in
    record {
      zero_in = l.zero_in;
      zero_out = l.zero_out;
      words_in = l.words_in;
      words_out = l.words_out;
      load_word = omega arith;
      hi_word = l.hi_word;
      lo_word = l.lo_word;
      sr_word = l.sr_word;
      cause_word = l.cause_word;
      epc_word = l.epc_word;
      pc_word = l.pc_word;
      next_word = l.next_word;
      current_word = l.current_word;
    }

retire-IsCpu : (c : Cpu) → IsCpu c → IsCpu (retire c)
unfolding retire
retire-IsCpu c k = record {
  zero_in = k.zero_out;
  zero_out = k.zero_out;
  words_in = k.words_out;
  words_out = k.words_out;
  load_word = k.load_word;
  hi_word = k.hi_word;
  lo_word = k.lo_word;
  sr_word = k.sr_word;
  cause_word = k.cause_word;
  epc_word = k.epc_word;
  pc_word = k.pc_word;
  next_word = k.next_word;
  current_word = k.current_word;
}

fetched-IsCpu : (c : Cpu) → IsCpu c → IsCpu (record c { current_pc = c.pc })
fetched-IsCpu c k = record {
  zero_in = k.zero_in;
  zero_out = k.zero_out;
  words_in = k.words_in;
  words_out = k.words_out;
  load_word = k.load_word;
  hi_word = k.hi_word;
  lo_word = k.lo_word;
  sr_word = k.sr_word;
  cause_word = k.cause_word;
  epc_word = k.epc_word;
  pc_word = k.pc_word;
  next_word = k.next_word;
  current_word = k.pc_word;
}

step-IsMachine :
    (fuel : ℕ) (m : Machine) → IsMachine m → Ensures IsMachine (run_next_instruction fuel m)
unfolding run_next_instruction decode_and_execute
step-IsMachine fuel m h =
    let c : Cpu = record (m.cpu) { current_pc = m.cpu.pc } in
    let k = fetched-IsCpu m.cpu h.cpu_valid in
    let ready = with_cpu-IsMachine m (advance c) h (advance-IsCpu c k) in
    Ensures-if IsMachine (c.pc % 4 == 0)
      (Access.load32 m.bus c.pc >>= λ i.
        decode_and_execute fuel (record m { cpu = advance c }) i >>= λ m'.
        ok (record m' { cpu = retire m'.cpu }))
      (ok (record m { cpu = exception c load_address_error }))
      (Ensures-bind IsWord IsMachine (Access.load32 m.bus c.pc) _
        (load32-IsWord m.bus c.pc h.bus_valid)
        (λ i w.
          Ensures-bind IsMachine IsMachine
            (execute fuel (decode i) (record m { cpu = advance c }) i) _
            (execute-IsMachine fuel (decode i) _ i ready)
            (λ m' v. with_cpu-IsMachine m' _ v (retire-IsCpu m'.cpu v.cpu_valid))))
      (with_cpu-IsMachine m _ h (exception-IsCpu c load_address_error k))

-- Any number of instructions keep the machine well formed.
pub run_instructions-IsMachine :
    (fuel n : ℕ) (m : Machine) → IsMachine m → Ensures IsMachine (run_instructions fuel n m)
unfolding run_instructions
run_instructions-IsMachine fuel zero m h = h
run_instructions-IsMachine fuel (suc n) m h =
    Ensures-bind IsMachine IsMachine (run_next_instruction fuel m) _ (step-IsMachine fuel m h)
      (λ m' v. run_instructions-IsMachine fuel n m' v)
