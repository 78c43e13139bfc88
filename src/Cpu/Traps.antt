-- ===== src/Cpu/Traps.antt =====
-- A whole step of the processor on an instruction that raises an exception in every case.
use cpp_station.Prelude.{ℕ, ◌+◌, ◌-◌, ◌*◌, ◌%◌, ◌^◌, ◌≡◌, refl, to_ℕ, if◌then◌else◌, arith}
use cpp_station.Word.{test_bit}
use cpp_station.Outcome.{ok}
use cpp_station.Bus.Access
use cpp_station.Cpu.State.{
  Cpu, Machine, reg, set_reg, Cause, cause_code, sys_call, break_point, illegal_instruction,
  coprocessor_error, exception,
}
use cpp_station.Cpu.Decode.{Op, syscall, break, illegal, no_coprocessor, execute, decode}
use cpp_station.Cpu.Coprocessor.{op_syscall, op_break, op_illegal, op_no_coprocessor}
use cpp_station.Cpu.Step.{advance, retire, run_next_instruction}
use cpp_station.Cpu.Delay.{run_next_instruction-ok}
use cpp_station.Cpu.Exceptions.{exception_lem}
use cpp_station.Cpu.Arithmetic.Fetched.{register_after}

pub data IsTrap : Op → Cause → Type 0 where
  syscall_row : IsTrap syscall sys_call
  break_row : IsTrap break break_point
  illegal_row : IsTrap illegal illegal_instruction
  no_coprocessor_row : IsTrap no_coprocessor coprocessor_error

-- The machine in the handler. In a delay slot bit 31 of the cause is set and EPC is at the branch.
abbrev pub HasTrapped : Cause → Machine → Machine → Type 0
HasTrapped e m m' =
    let c = m.cpu in
    let c' = m'.cpu in
    (c'.cause ≡ cause_code e * 4 + to_ℕ c.branch * 2 ^ 31)
    × (c'.epc ≡ (if c.branch then (c.pc + 2 ^ 32 - 4) % 2 ^ 32 else c.pc))
    × (c'.pc ≡ (if test_bit c.sr 22 then 0xbfc00180 else 0x80000080))
    × (c'.next_pc ≡ c'.pc + 4)
    × (c'.sr ≡ c.sr % 2 ^ 4 * 4)
    × ((k : ℕ) → reg c' k ≡ register_after c 0 0 k)
    × (m'.bus ≡ m.bus)

execute-exception :
    {op : Op} {e : Cause} (row : IsTrap op e) (fuel : ℕ) (m : Machine) (i : ℕ)
    → execute fuel op m i ≡ ok (record m { cpu = exception m.cpu e })
unfolding execute op_syscall op_break op_illegal op_no_coprocessor
execute-exception syscall_row fuel m i = refl
execute-exception break_row fuel m i = refl
execute-exception illegal_row fuel m i = refl
execute-exception no_coprocessor_row fuel m i = refl

trapped_registers :
    (c : Cpu) (k : ℕ)
    → (advance (record c { current_pc = c.pc })).out_regs k ≡ register_after c 0 0 k
unfolding advance set_reg
trapped_registers c k = ground arith

-- A whole step on an instruction that always raises an exception: SYSCALL, BREAK, an instruction
-- that there is not, or one of a coprocessor that is missing, fetched from an aligned program
-- counter. The step ends normally in the handler that bit 22 of the status register chooses: the
-- cause register holds the code of the cause, with bit 31 in a delay slot; EPC is the address of
-- the instruction, or of the branch before it; the status register keeps no more than its lowest
-- four bits, shifted up by two; every register but R0 holds the pending load, if it was for that
-- register, or its output value; the bus is unchanged.
pub run_next_instruction-HasTrapped :
    {op : Op} {e : Cause} (row : IsTrap op e) (fuel : ℕ) (m : Machine) (i : ℕ)
    → m.cpu.pc % 4 ≡ 0
    → Access.load32 m.bus m.cpu.pc ≡ ok i
    → decode i ≡ op
    → (m' : Machine) × (run_next_instruction fuel m ≡ ok m') × HasTrapped e m m'
unfolding advance retire set_reg
run_next_instruction-HasTrapped {op} {e} row fuel m i al fetch decoded =
    let c : Cpu = advance (record (m.cpu) { current_pc = m.cpu.pc }) in
    let ready : Machine = record m { cpu = c } in
    let (cause, epc, pc, next, out, ins, sr) = exception_lem c e in
    (
      record ready { cpu = retire (exception c e) },
      run_next_instruction-ok fuel m (record ready { cpu = exception c e }) i al fetch
          (rw decoded (execute-exception row fuel ready i)),
      (cause, epc, pc, next, sr, λ k. rw out (trapped_registers m.cpu k), refl),
    )
