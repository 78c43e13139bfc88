-- ===== src/Cpu/Step.antt =====
-- `runNextInstruction`: one instruction, with the load delay and the branch delay.
use cpp_station.Prelude.{ℕ, zero, suc, ◌%◌, false, ◌==◌, if◌then◌else◌}
use cpp_station.Word.{add32}
use cpp_station.Outcome.{Outcome, ok, ◌>>=◌}
use cpp_station.Bus.Access
use cpp_station.Cpu.State.{Cpu, Machine, set_reg, exception, load_address_error}
use cpp_station.Cpu.Decode.{decode_and_execute}

-- From the fetch to the execution: the program counters move on, the pending load comes through, and
-- the delay slot is marked.
unfoldable pub advance : Cpu → Cpu
advance c =
    let c1 : Cpu = record c { pc = c.next_pc; next_pc = add32 c.next_pc 4 } in
    let c2 = set_reg c1 c.load_reg_idx c.load_reg in
    record c2 { load_reg_idx = 0; load_reg = 0; delay_slot = c.branch; branch = false }

-- After the execution: the output registers become the input of the next instruction.
unfoldable pub retire : Cpu → Cpu
retire c = record c { regs = c.out_regs; ip = add32 c.ip 1 }

unfoldable pub run_next_instruction : ℕ → Machine → Outcome Machine
unfolding advance retire
run_next_instruction fuel m =
    let c : Cpu = record (m.cpu) { current_pc = m.cpu.pc } in
    if c.pc % 4 == 0
    then (do
      instruction ← Access.load32 m.bus c.pc
      m' ← decode_and_execute fuel (record m { cpu = advance c }) instruction
      ok (record m' { cpu = retire m'.cpu }))
    else ok (record m { cpu = exception c load_address_error })

-- The inner loop of `main`: `n` instructions.
unfoldable pub run_instructions : ℕ → ℕ → Machine → Outcome Machine
unfolding run_next_instruction
run_instructions fuel zero m = ok m
run_instructions fuel (suc n) m = run_next_instruction fuel m >>= λ m'. run_instructions fuel n m'
