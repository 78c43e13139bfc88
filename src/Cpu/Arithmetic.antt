-- ===== src/Cpu/Arithmetic.antt =====
-- What the arithmetic and logic of the processor compute, as numbers and as single bits, without the
-- operators of the program.
pub mod Results
pub mod Fetched
use cpp_station.Prelude.{
  ℕ, suc, ◌+◌, ◌-◌, ◌*◌, ◌/◌, ◌%◌, ◌^◌, ◌≤◌, ◌<◌, ◌≡◌, ◌⊎◌, inl, inr, min, max, refl, ltb,
  if◌then◌else◌,
}
use cpp_station.Prelude.Int.{ℤ, pos, negsuc, ◌+ℤ◌, ◌-ℤ◌, ◌≤ℤ◌}
use cpp_station.Word.{signed32}
use cpp_station.Cpu.Instruction.{s, t, d, imm, shift}
use cpp_station.Cpu.State.{Cpu, reg}
use cpp_station.Cpu.Decode.{
  Op, sll, or, sltu, addu, and, subu, sra, srl, slt, sllv, nor, srav, srlv, xor, lui, ori, addiu,
  andi, slti, sltiu, xori,
}

-- What an instruction does with its two operands.
pub data Meaning : Type 0 where
  sum difference conjunction disjunction exclusion neither : Meaning
  less less_unsigned shift_left shift_right shift_right_signed : Meaning

-- Where the operands and the destination are.
pub data Operands : Type 0 where
  three_registers by_amount by_register signed_immediate immediate upper_immediate : Operands

pub data IsAlu : Op → Meaning → Operands → Type 0 where
  addu_row : IsAlu addu sum three_registers
  subu_row : IsAlu subu difference three_registers
  and_row : IsAlu and conjunction three_registers
  or_row : IsAlu or disjunction three_registers
  xor_row : IsAlu xor exclusion three_registers
  nor_row : IsAlu nor neither three_registers
  slt_row : IsAlu slt less three_registers
  sltu_row : IsAlu sltu less_unsigned three_registers
  sll_row : IsAlu sll shift_left by_amount
  srl_row : IsAlu srl shift_right by_amount
  sra_row : IsAlu sra shift_right_signed by_amount
  sllv_row : IsAlu sllv shift_left by_register
  srlv_row : IsAlu srlv shift_right by_register
  srav_row : IsAlu srav shift_right_signed by_register
  addiu_row : IsAlu addiu sum signed_immediate
  slti_row : IsAlu slti less signed_immediate
  sltiu_row : IsAlu sltiu less_unsigned signed_immediate
  andi_row : IsAlu andi conjunction immediate
  ori_row : IsAlu ori disjunction immediate
  xori_row : IsAlu xori exclusion immediate
  lui_row : IsAlu lui shift_left upper_immediate

-- The word of 32 bits for an integer, and the integer of 16 bits.
abbrev pub word_of : ℤ → ℕ
word_of (pos n) = n % 2 ^ 32
word_of (negsuc n) = 2 ^ 32 - 1 - n % 2 ^ 32

abbrev pub signed16 : ℕ → ℤ
signed16 n = if ltb n (2 ^ 15) then pos n else negsuc (2 ^ 16 - 1 - n)

abbrev pub destination : Operands → ℕ → ℕ
destination three_registers i = d i
destination by_amount i = d i
destination by_register i = d i
destination _ i = t i

abbrev pub first : Operands → Cpu → ℕ → ℕ
first by_amount c i = reg c (t i)
first by_register c i = reg c (t i)
first upper_immediate c i = imm i
first _ c i = reg c (s i)

abbrev pub second : Operands → Cpu → ℕ → ℕ
second three_registers c i = reg c (t i)
second by_amount c i = shift i
second by_register c i = reg c (s i) % 32
second signed_immediate c i = word_of (signed16 (imm i))
second immediate c i = imm i
second upper_immediate c i = 16

-- The bit `k` of a number.
abbrev pub digit : ℕ → ℕ → ℕ
digit k x = x / 2 ^ k % 2

-- The greatest integer that is not above `z / 2 ^ k`.
abbrev pub floor_div : ℤ → ℕ → ℤ
floor_div (pos n) k = pos (n / 2 ^ k)
floor_div (negsuc n) k = negsuc (n / 2 ^ k)

-- `v` is the result for `x` and `y`.
abbrev pub IsResult : Meaning → ℕ → ℕ → ℕ → Type 0
IsResult sum x y v = v ≡ word_of (signed32 x +ℤ signed32 y)
IsResult difference x y v = v ≡ word_of (signed32 x -ℤ signed32 y)
IsResult conjunction x y v = (k : ℕ) → digit k v ≡ min (digit k x) (digit k y)
IsResult disjunction x y v = (k : ℕ) → digit k v ≡ max (digit k x) (digit k y)
IsResult exclusion x y v = (k : ℕ) → digit k v ≡ (digit k x + digit k y) % 2
IsResult neither x y v =
    (w : ℕ) × ((k : ℕ) → digit k w ≡ max (digit k x) (digit k y)) × (v + w ≡ 2 ^ 32 - 1)
IsResult less x y v =
    ((v ≡ 1) × (signed32 x +ℤ pos 1 ≤ℤ signed32 y)) ⊎ ((v ≡ 0) × (signed32 y ≤ℤ signed32 x))
IsResult less_unsigned x y v = ((v ≡ 1) × (x < y)) ⊎ ((v ≡ 0) × (y ≤ x))
IsResult shift_left x y v = (high : ℕ) × (x * 2 ^ y ≡ high * 2 ^ 32 + v)
IsResult shift_right x y v = (v * 2 ^ y ≤ x) × (x < (v + 1) * 2 ^ y)
IsResult shift_right_signed x y v = signed32 v ≡ floor_div (signed32 x) y
