-- ===== src/Cpu/Coprocessor.antt =====
-- The system coprocessor, the instructions that raise an exception, and the coprocessors that the
-- console lacks.
use cpp_station.Prelude.{ℕ, ◌/◌, ◌^◌, ◌||◌, ◌==◌, if◌then◌else◌}
use cpp_station.Word.{low_bits}
use cpp_station.Outcome.{
  Outcome, ok, panic, unhandled_cop0, invalid_cop0, unhandled_cop0_write, unhandled_cop0_register,
  unhandled_cop0_read, unhandled_cause_write, unhandled_gte, unhandled_gte_load,
  unhandled_gte_store,
}
use cpp_station.Cpu.Instruction.{t, d, cop_opcode}
use cpp_station.Cpu.State.{
  Cpu, reg, exception, replace_mode, sys_call, break_point, illegal_instruction, coprocessor_error,
}
use cpp_station.Cpu.Memory.{delay_load}

unfoldable pub op_syscall : Cpu → ℕ → Cpu
op_syscall c i = exception c sys_call

unfoldable pub op_break : Cpu → ℕ → Cpu
op_break c i = exception c break_point

unfoldable pub op_illegal : Cpu → ℕ → Cpu
op_illegal c i = exception c illegal_instruction

-- `opCop1`, `opCop3`, and the loads and stores of the coprocessors 0, 1 and 3.
unfoldable pub op_no_coprocessor : Cpu → ℕ → Cpu
op_no_coprocessor c i = exception c coprocessor_error

-- `opCop2`, `opLwc2` and `opSwc2`.
unfoldable pub op_cop2 : Cpu → ℕ → Outcome Cpu
op_cop2 c i = panic (unhandled_gte i)

unfoldable pub op_lwc2 : Cpu → ℕ → Outcome Cpu
op_lwc2 c i = panic (unhandled_gte_load i)

unfoldable pub op_swc2 : Cpu → ℕ → Outcome Cpu
op_swc2 c i = panic (unhandled_gte_store i)

unfoldable pub op_mtc0 : Cpu → ℕ → Outcome Cpu
op_mtc0 c i =
    let cop_r = d i in
    let v = reg c (t i) in
    if cop_r == 3 || cop_r == 5 || cop_r == 6 || cop_r == 7 || cop_r == 9 || cop_r == 11
    then if v == 0 then ok c else panic (unhandled_cop0_write cop_r)
    else if cop_r == 12
    then ok (record c { sr = v })
    else if cop_r == 13
    then if v == 0 then ok c else panic unhandled_cause_write
    else panic (unhandled_cop0_register cop_r)

unfoldable pub op_mfc0 : Cpu → ℕ → Outcome Cpu
op_mfc0 c i =
    let cop_r = d i in
    if cop_r == 12
    then ok (delay_load c (t i) c.sr)
    else if cop_r == 13
    then ok (delay_load c (t i) c.cause)
    else if cop_r == 14
    then ok (delay_load c (t i) c.epc)
    else panic (unhandled_cop0_read cop_r)

unfoldable pub op_rfe : Cpu → ℕ → Outcome Cpu
op_rfe c i =
    if low_bits i 6 == 0x10
    then ok (record c { sr = replace_mode c.sr (low_bits c.sr 6 / 2 ^ 2) })
    else panic (invalid_cop0 i)

unfoldable pub op_cop0 : Cpu → ℕ → Outcome Cpu
unfolding op_mfc0 op_mtc0 op_rfe
op_cop0 c i =
    if cop_opcode i == 0
    then op_mfc0 c i
    else if cop_opcode i == 4
    then op_mtc0 c i
    else if cop_opcode i == 0x10
    then op_rfe c i
    else panic (unhandled_cop0 i)
