-- ===== src/Cpu/Jumps.antt =====
-- The jumps: where a whole step of the processor on one of them leads, and the return address.
pub mod DelaySlot
use cpp_station.Prelude.{
  ℕ, zero, suc, ◌+◌, ◌*◌, ◌/◌, ◌%◌, ◌^◌, ◌<◌, ◌≡◌, ◌≢◌, refl, ◌∙◌, inl, inr, true, Bool-cases,
  bit_and, bit_or, ◌==◌, if◌then◌else◌, arith,
}
use mathlib.Core.Path.{subst}
use cpp_station.Word.Fields.{bit_and_high, bit_and_mask, bit_or_low}
use cpp_station.Outcome.{Outcome, ok}
use cpp_station.Bus.Access
use cpp_station.Cpu.Instruction.{s, d, imm_jump}
use cpp_station.Cpu.State.{Cpu, Machine, reg, set_reg}
use cpp_station.Cpu.Decode.{Op, j, jal, jr, jalr, special, execute, decode}
use cpp_station.Cpu.Branch.{op_j, op_jal, op_jr, op_jalr}
use cpp_station.Cpu.Step.{advance, retire, run_next_instruction}
use cpp_station.Cpu.Delay.{run_next_instruction-ok}
use cpp_station.Cpu.Assembly.{Fields, Fit, assemble, decode-assemble}
use cpp_station.Cpu.Arithmetic.Fetched.{register_after}

-- The target in the instruction or in a register, without and with a return address.
pub data Jump : Type 0 where
  direct direct_linked by_register by_register_linked : Jump

pub data IsJump : Op → Jump → Type 0 where
  j_row : IsJump j direct
  jal_row : IsJump jal direct_linked
  jr_row : IsJump jr by_register
  jalr_row : IsJump jalr by_register_linked

-- The register for the return address, R0 for none.
abbrev pub link : Jump → ℕ → ℕ
link direct_linked i = 31
link by_register_linked i = d i
link _ i = 0

-- The four high bits of a program counter and the 26 bits of the instruction, or a register.
abbrev pub jump_target : Jump → Cpu → ℕ → ℕ → ℕ
jump_target by_register c pc i = reg c (s i)
jump_target by_register_linked c pc i = reg c (s i)
jump_target _ c pc i = pc / 2 ^ 28 * 2 ^ 28 + imm_jump i * 4

-- What the instruction does to the processor, with the program counters already moved on.
record Jumps (kind : Jump) (i : ℕ) (c c' : Cpu) : Type 0 where
  pc_lem : c'.pc ≡ c.pc
  next_lem : c'.next_pc ≡ jump_target kind c c.next_pc i
  branch_lem : c'.branch ≡ true
  sr_lem : c'.sr ≡ c.sr
  zero_lem : c.out_regs 0 ≡ 0 → c'.out_regs 0 ≡ 0
  out_lem : (k : ℕ) → k ≢ 0 → c'.out_regs k ≡ (if link kind i == k then c.next_pc else c.out_regs k)

direct_target :
    (n i : ℕ)
    → n < 2 ^ 32
    → bit_or (bit_and n 0xf0000000) (imm_jump i * 2 ^ 2) ≡ n / 2 ^ 28 * 2 ^ 28 + imm_jump i * 4
direct_target n i h =
    let low = imm_jump i * 2 ^ 2 in
    let high : bit_and n 0xf0000000 ≡ n / 2 ^ 28 * 2 ^ 28 =
      omega (arith, bit_and_high 28 n 0xf, bit_and_mask 4 (n / 2 ^ 28)) in
    rw high (bit_or_low 28 low (n / 2 ^ 28) (omega arith) ∙ omega arith)

execute-Jumps :
    {op : Op} {kind : Jump} (row : IsJump op kind) (fuel : ℕ) (m : Machine) (i : ℕ)
    → m.cpu.next_pc < 2 ^ 32
    → (c : Cpu) × (execute fuel op m i ≡ ok (record m { cpu = c })) × Jumps kind i m.cpu c
unfolding execute op_j op_jal op_jr op_jalr set_reg
execute-Jumps j_row fuel m i h = (
  op_j m.cpu i,
  refl,
  record {
    pc_lem = refl;
    next_lem = direct_target m.cpu.next_pc i h;
    branch_lem = refl;
    sr_lem = refl;
    zero_lem = λ e. e;
    out_lem = λ k ne. ground arith;
  },
)
execute-Jumps jal_row fuel m i h = (
  op_jal m.cpu i,
  refl,
  record {
    pc_lem = refl;
    next_lem = direct_target m.cpu.next_pc i h;
    branch_lem = refl;
    sr_lem = refl;
    zero_lem = λ e. refl;
    out_lem = λ k ne. ground arith;
  },
)
execute-Jumps jr_row fuel m i h = (
  op_jr m.cpu i,
  refl,
  record {
    pc_lem = refl;
    next_lem = refl;
    branch_lem = refl;
    sr_lem = refl;
    zero_lem = λ e. e;
    out_lem = λ k ne. ground arith;
  },
)
execute-Jumps jalr_row fuel m i h = (
  op_jalr m.cpu i,
  refl,
  record {
    pc_lem = refl;
    next_lem = refl;
    branch_lem = refl;
    sr_lem = refl;
    zero_lem = λ e. refl;
    out_lem = λ k ne. ground arith;
  },
)

special_no_row : {kind : Jump} → ¬ IsJump special kind
special_no_row h = elim h [ ]

row-ne : {op : Op} {kind : Jump} → IsJump op kind → op ≢ special
row-ne {op} {kind} row e = special_no_row (subst (λ o. IsJump o kind) e row)

-- The machine after the step: the delay slot comes next, and the target after it.
abbrev pub HasJumped : Jump → Machine → ℕ → Machine → Type 0
HasJumped kind m i m' =
    let after = (m.cpu.next_pc + 4) % 2 ^ 32 in
    (m'.cpu.pc ≡ m.cpu.next_pc)
    × (m'.cpu.next_pc ≡ jump_target kind m.cpu after i)
    × (m'.cpu.branch ≡ true)
    × (m'.cpu.sr ≡ m.cpu.sr)
    × ((k : ℕ) → reg m'.cpu k ≡ register_after m.cpu (link kind i) after k)
    × (m'.bus ≡ m.bus)

target-advance :
    (kind : Jump) (c : Cpu) (pc i : ℕ)
    → jump_target kind (advance (record c { current_pc = c.pc })) pc i ≡ jump_target kind c pc i
unfolding advance set_reg
target-advance direct c pc i = refl
target-advance direct_linked c pc i = refl
target-advance by_register c pc i = refl
target-advance by_register_linked c pc i = refl

jumped_registers :
    (kind : Jump) (i : ℕ) (c c' : Cpu)
    → Jumps kind i (advance (record c { current_pc = c.pc })) c'
    → (k : ℕ) → c'.out_regs k ≡ register_after c (link kind i) ((c.next_pc + 4) % 2 ^ 32) k
unfolding advance set_reg
jumped_registers kind i c c' jumps zero = jumps.zero_lem refl
jumped_registers kind i c c' jumps (suc k) = jumps.out_lem (suc k) (omega arith) ∙ ground arith

-- A whole step on J, JAL, JR or JALR: from an aligned program counter, at which memory holds the
-- word that is put together from one of them and from fields within their widths, the step ends
-- normally, with the delay slot next and the target after it: for J and JAL the four high bits of
-- the address after the delay slot with the 26 bits of the instruction as a word address, for JR
-- and JALR the value of the register before the step. JAL puts the address after the delay slot
-- in R31 and JALR in its destination register, R0 excepted; every other register holds the
-- pending load, if it was for that register, or its output value; the status register and the bus
-- are unchanged.
pub run_next_instruction-HasJumped :
    {op : Op} {kind : Jump} (row : IsJump op kind) (fuel : ℕ) (m : Machine) (f : Fields)
    → Fit f
    → m.cpu.pc % 4 ≡ 0
    → Access.load32 m.bus m.cpu.pc ≡ ok (assemble op f)
    → (m' : Machine) × (run_next_instruction fuel m ≡ ok m') × HasJumped kind m (assemble op f) m'
unfolding advance retire set_reg
run_next_instruction-HasJumped {op} {kind} row fuel m f fit al fetch =
    let i = assemble op f in
    let c : Cpu = advance (record (m.cpu) { current_pc = m.cpu.pc }) in
    let ready : Machine = record m { cpu = c } in
    let (c', run, jumps) = execute-Jumps row fuel ready i (omega arith) in
    let done : Machine = record ready { cpu = c' } in
    (
      record done { cpu = retire c' },
      run_next_instruction-ok fuel m done i al fetch
          (rw (decode-assemble op f fit (row-ne row)).0 run),
      (
        jumps.pc_lem,
        jumps.next_lem ∙ target-advance kind m.cpu ((m.cpu.next_pc + 4) % 2 ^ 32) i,
        jumps.branch_lem,
        jumps.sr_lem,
        jumped_registers kind i m.cpu c' jumps,
        refl,
      ),
    )
