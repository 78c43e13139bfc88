-- ===== src/Cpu/Exceptions.antt =====
-- The entry into an exception, the return from it, and the two additions that can raise one.
use cpp_station.Prelude.{
  ℕ, ◌+◌, ◌-◌, ◌*◌, ◌/◌, ◌%◌, ◌^◌, ◌<◌, ◌≡◌, ap, ==_true, ◌==◌, ◌⊎◌, inl, inr, refl, sym, Bool,
  true, false, Bool-cases, bit_or, to_ℕ, if◌then◌else◌, arith,
}
use cpp_station.Word.{add32, test_bit}
use cpp_station.Word.Fields.{bit_and-zero, zero-bit_or, bit_or_high}
use cpp_station.Outcome.{◌>>=◌, ok, panic, invalid_cop0}
use cpp_station.Cpu.Instruction.{s, t, d, imm_se}
use cpp_station.Cpu.State.{Cpu, Cause, cause_code, replace_mode, exception, reg, set_reg, overflow}
use cpp_station.Word.{signed32, sub32}
use cpp_station.Prelude.Int.{ℤ, ◌+ℤ◌, ◌-ℤ◌}
use cpp_station.Cpu.Overflow.{IsInt32, add_overflow_iff, sub_overflow_iff}
use cpp_station.Cpu.Alu.{op_add, op_addi, op_sub, add_overflow, sub_overflow}
use cpp_station.Cpu.Coprocessor.{op_rfe}

cause_code-lt : (e : Cause) → cause_code e * 2 ^ 2 < 2 ^ 31
cause_code-lt e = ground arith

cause_code-bit_or :
    (slot : Bool) (e : Cause)
    → (if slot then bit_or (cause_code e * 2 ^ 2) (2 ^ 31) else cause_code e * 2 ^ 2)
      ≡ cause_code e * 4 + to_ℕ slot * 2 ^ 31
cause_code-bit_or false e = omega arith
cause_code-bit_or true e = omega (arith, bit_or_high 31 (cause_code e * 2 ^ 2) 1 (cause_code-lt e))

replace_mode_lem : (sr mode : ℕ) → replace_mode sr mode ≡ mode
replace_mode_lem sr mode = rw (bit_and-zero sr) (zero-bit_or mode)

-- The entry into an exception, for every cause: the cause register holds the code of the cause,
-- with bit 31 in a delay slot; EPC is the address of the instruction, or of the branch before it;
-- the next two instructions are those of the handler, which bit 22 of the status register
-- chooses; no general register changes. The status register keeps no more than its lowest four
-- bits, shifted up by two.
pub exception_lem :
    (c : Cpu) (e : Cause)
    → ((exception c e).cause ≡ cause_code e * 4 + to_ℕ c.delay_slot * 2 ^ 31)
      × ((exception c e).epc
          ≡ (if c.delay_slot then (c.current_pc + 2 ^ 32 - 4) % 2 ^ 32 else c.current_pc))
      × ((exception c e).pc ≡ (if test_bit c.sr 22 then 0xbfc00180 else 0x80000080))
      × ((exception c e).next_pc ≡ (exception c e).pc + 4)
      × ((exception c e).out_regs ≡ c.out_regs)
      × ((exception c e).regs ≡ c.regs)
      × ((exception c e).sr ≡ c.sr % 2 ^ 4 * 4)
unfolding exception
exception_lem c e = (
  ground (arith, cause_code-bit_or c.delay_slot e),
  ground arith,
  ground arith,
  ground arith,
  refl,
  refl,
  omega (arith, replace_mode_lem c.sr (c.sr % 2 ^ 6 * 2 ^ 2 % 2 ^ 6)),
)

shifted : (sr : ℕ) → sr % 2 ^ 6 / 2 ^ 2 ≡ sr / 4 % 2 ^ 4
shifted sr = omega arith

-- RFE moves the mode bits 2 to 5 of the status register down and clears every other bit, the bits
-- 4 to 31; any other function code of the coprocessor instruction stops the emulator.
pub op_rfe_lem :
    (c : Cpu) (i : ℕ)
    → op_rfe c i ≡ (
        if i % 2 ^ 6 == 0x10
        then ok (record c { sr = c.sr / 4 % 2 ^ 4 })
        else panic (invalid_cop0 i))
unfolding op_rfe
op_rfe_lem c i = rw (bit_and-zero c.sr, zero-bit_or, shifted c.sr) refl

-- After an exception and the return from it by RFE the status register holds its lowest four bits
-- of before, and every other bit is lost.
pub sr-op_rfe-exception :
    (c : Cpu) (e : Cause) (i : ℕ)
    → i % 2 ^ 6 ≡ 0x10
    → (op_rfe (exception c e) i >>= λ c'. ok c'.sr) ≡ ok (c.sr % 2 ^ 4)
sr-op_rfe-exception c e i h =
    rw (op_rfe_lem (exception c e) i, ==_true (i % 2 ^ 6) 0x10 h)
      (ap ok (omega (arith, (exception_lem c e).6)))

pub imm_se-lt : (i : ℕ) → imm_se i < 2 ^ 32
imm_se-lt i = ground arith

-- `f` adds: the sum fits an `int32_t` and is stored, or it does not fit, and after the entry into the
-- exception the wrapped sum is stored all the same.
abbrev pub AddsTrapping : Cpu → ℕ → ℕ → ℕ → Cpu → Type 0
AddsTrapping c to a b c' =
    (IsInt32 (signed32 a +ℤ signed32 b)
      × (c' ≡ set_reg c to (add32 a b))
      × (signed32 (add32 a b) ≡ signed32 a +ℤ signed32 b))
    ⊎ ((¬ IsInt32 (signed32 a +ℤ signed32 b))
        × (c' ≡ set_reg (exception c overflow) to (add32 a b)))

signed32-IsInt32 : (v : ℕ) (z : ℤ) → v < 2 ^ 32 → signed32 v ≡ z → IsInt32 z
signed32-IsInt32 v z h e = rw (sym e) (ground arith)

traps :
    (c : Cpu) (to a b : ℕ)
    → a < 2 ^ 32
    → b < 2 ^ 32
    → AddsTrapping c to a b
        (set_reg (if add_overflow a b (add32 a b) then exception c overflow else c) to (add32 a b))
traps c to a b ha hb =
    let (fires, fits) = add_overflow_iff a b ha hb in
    elim (Bool-cases (add_overflow a b (add32 a b))) [
      | inl e ↦ rw e (inr (fires.0 e, refl))
      | inr e ↦ rw e (inl (signed32-IsInt32 (add32 a b) _ (omega arith) (fits e), refl, fits e))
    ]

-- ADD and ADDI, both branches, for registers of 32 bits: a sum that fits an int32_t is stored; a
-- sum that does not enters the overflow exception, and its wrapped value is stored in the
-- register all the same.
pub op_add-AddsTrapping :
    (c : Cpu) (i : ℕ)
    → reg c (s i) < 2 ^ 32
    → reg c (t i) < 2 ^ 32
    → AddsTrapping c (d i) (reg c (s i)) (reg c (t i)) (op_add c i)
      × AddsTrapping c (t i) (reg c (s i)) (imm_se i) (op_addi c i)
unfolding op_add op_addi
op_add-AddsTrapping c i ha hb = (
  traps c (d i) (reg c (s i)) (reg c (t i)) ha hb,
  traps c (t i) (reg c (s i)) (imm_se i) ha (imm_se-lt i),
)

-- SUB, both branches, for registers of 32 bits: a difference that fits an int32_t is stored; one
-- that does not enters the overflow exception, and nothing is stored.
pub op_sub-cases :
    (c : Cpu) (i : ℕ)
    → reg c (s i) < 2 ^ 32
    → reg c (t i) < 2 ^ 32
    → let a = signed32 (reg c (s i)) in
      let b = signed32 (reg c (t i)) in
      let v = sub32 (reg c (s i)) (reg c (t i)) in
      (IsInt32 (a -ℤ b) × (op_sub c i ≡ set_reg c (d i) v) × (signed32 v ≡ a -ℤ b))
      ⊎ ((¬ IsInt32 (a -ℤ b)) × (op_sub c i ≡ exception c overflow))
unfolding op_sub
op_sub-cases c i ha hb =
    let x = reg c (s i) in
    let y = reg c (t i) in
    let (fires, fits) = sub_overflow_iff x y ha hb in
    elim (Bool-cases (sub_overflow x y (sub32 x y))) [
      | inl e ↦ rw e (inr (fires.0 e, refl))
      | inr e ↦ inl (signed32-IsInt32 (sub32 x y) _ (omega arith) (fits e), rw e refl, fits e)
    ]
