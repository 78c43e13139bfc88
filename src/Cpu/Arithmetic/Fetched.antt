-- ===== src/Cpu/Arithmetic/Fetched.antt =====
-- A whole step of the processor on an instruction that computes, from its word in memory on.
use cpp_station.Prelude.{ℕ, ◌+◌, ◌%◌, ◌^◌, ◌<◌, ◌≡◌, ◌≢◌, refl, ◌==◌, if◌then◌else◌, arith}
use mathlib.Core.Path.{subst}
use cpp_station.Outcome.{ok}
use cpp_station.Bus.Access
use cpp_station.Cpu.State.{Cpu, Machine, reg, set_reg}
use cpp_station.Cpu.Decode.{Op, special}
use cpp_station.Cpu.Step.{advance, retire, run_next_instruction}
use cpp_station.Cpu.Delay.{run_next_instruction-ok}
use cpp_station.Cpu.Assembly.{Fields, Fit, assemble, decode-assemble}
use cpp_station.Cpu.Arithmetic.{
  Meaning, Operands, three_registers, by_amount, by_register, signed_immediate, immediate,
  upper_immediate, IsAlu, IsResult, destination, first, second,
}
use cpp_station.Cpu.Arithmetic.Results.{execute-Computes}

special_no_row : {meaning : Meaning} {operands : Operands} → ¬ IsAlu special meaning operands
special_no_row h = elim h [ ]

row-ne :
    {op : Op} {meaning : Meaning} {operands : Operands} → IsAlu op meaning operands → op ≢ special
row-ne {op} {meaning} {operands} row e =
    special_no_row (subst (λ o. IsAlu o meaning operands) e row)

-- The processor when the instruction that it has fetched begins.
abbrev begun : Cpu → Cpu
begun c = advance (record c { current_pc = c.pc })

first-begun : (o : Operands) (c : Cpu) (i : ℕ) → first o (begun c) i ≡ first o c i
unfolding advance set_reg
first-begun three_registers c i = refl
first-begun by_amount c i = refl
first-begun by_register c i = refl
first-begun signed_immediate c i = refl
first-begun immediate c i = refl
first-begun upper_immediate c i = refl

second-begun : (o : Operands) (c : Cpu) (i : ℕ) → second o (begun c) i ≡ second o c i
unfolding advance set_reg
second-begun three_registers c i = refl
second-begun by_amount c i = refl
second-begun by_register c i = refl
second-begun signed_immediate c i = refl
second-begun immediate c i = refl
second-begun upper_immediate c i = refl

-- The register `k` after the step: the result goes before the load that was pending.
abbrev pub register_after : Cpu → ℕ → ℕ → ℕ → ℕ
register_after c dest v k =
    if k == 0
    then 0
    else if dest == k
    then v
    else if c.load_reg_idx == k
    then c.load_reg
    else c.out_regs k

-- The machine after the step.
abbrev pub Retires : Meaning → Operands → Machine → ℕ → Machine → Type 0
Retires meaning operands m i m' =
    (v : ℕ) × (v < 2 ^ 32)
    × IsResult meaning (first operands m.cpu i) (second operands m.cpu i) v
    × ((k : ℕ) → reg m'.cpu k ≡ register_after m.cpu (destination operands i) v k)
    × (m'.cpu.pc ≡ m.cpu.next_pc)
    × (m'.cpu.next_pc ≡ (m.cpu.next_pc + 4) % 2 ^ 32)
    × (m'.cpu.hi ≡ m.cpu.hi)
    × (m'.cpu.lo ≡ m.cpu.lo)
    × (m'.cpu.sr ≡ m.cpu.sr)
    × (m'.bus ≡ m.bus)

-- A whole step, for the 21 instructions of arithmetic, logic, shifts and comparison that do not
-- trap: from an aligned program counter, at which memory holds the word that is put together from
-- one of these instructions and from fields within their widths, with 32-bit words in the two
-- registers that it names first, the step ends normally. Afterwards the destination register
-- holds a word of 32 bits, the value that a reference table gives for the operands before the
-- step, R0 excepted; every other register holds the pending load, if it was for that register, or
-- its output value; the program counters have moved on by one; HI, LO, the status register and
-- the bus are unchanged. In the table sums and differences are those of two's complement numbers
-- modulo 2^32, AND, OR, XOR and NOR go by single bits, comparisons by the signed or unsigned
-- order, left shifts drop the high part of the product by a power of two, and right shifts round
-- the quotient of the unsigned or signed number down.
pub run_next_instruction-Retires :
    {op : Op} {meaning : Meaning} {operands : Operands} (row : IsAlu op meaning operands) (fuel : ℕ)
    (m : Machine) (f : Fields)
    → Fit f
    → m.cpu.pc % 4 ≡ 0
    → Access.load32 m.bus m.cpu.pc ≡ ok (assemble op f)
    → reg m.cpu f.rs < 2 ^ 32
    → reg m.cpu f.rt < 2 ^ 32
    → (m' : Machine) × (run_next_instruction fuel m ≡ ok m')
      × Retires meaning operands m (assemble op f) m'
unfolding advance retire set_reg
run_next_instruction-Retires {op} {meaning} {operands} row fuel m f fit al fetch hs ht =
    let i = assemble op f in
    let (decoded, fields) = decode-assemble op f fit (row-ne row) in
    let ready : Machine = record m { cpu = begun m.cpu } in
    let (v, run, fits, result) =
      execute-Computes row fuel ready i (rw fields.s_lem hs) (rw fields.t_lem ht) in
    let done : Machine = record ready { cpu = set_reg ready.cpu (destination operands i) v } in
    (
      record done { cpu = retire done.cpu },
      run_next_instruction-ok fuel m done i al fetch (rw decoded run),
      (
        v,
        fits,
        rw (first-begun operands m.cpu i, second-begun operands m.cpu i) at result,
        λ k. ground arith,
        refl,
        refl,
        refl,
        refl,
        refl,
        refl,
      ),
    )
