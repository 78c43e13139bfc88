-- ===== src/Cpu/Invariant/AluOps.antt =====
-- The operations of Cpu.Alu keep the registers well formed.
use cpp_station.Prelude.{ℕ, ◌/◌, ◌^◌, ◌<◌, inl, inr, Bool-cases, ltb, to_ℕ-lt, arith}
use native.Mathlib.Nat.{div-le_self}
use cpp_station.Word.{sar32, not32, lt_signed32, add32, sub32}
use cpp_station.Word.Bits.{bit_and-lt, bit_or-lt, bit_xor-lt}
use cpp_station.Cpu.Instruction.{s, t, d, imm_se}
use cpp_station.Cpu.State.{reg, overflow}
use cpp_station.Cpu.Invariant.{Keeps, set_reg-IsCpu, exception-IsCpu}
use cpp_station.Cpu.Alu

div-lt : (x k : ℕ) → x < 2 ^ 32 → x / 2 ^ k < 2 ^ 32
div-lt x k h = omega (arith, div-le_self x (2 ^ k))

sar32-lt : (x k : ℕ) → x < 2 ^ 32 → sar32 x k < 2 ^ 32
sar32-lt x k h = ground (arith, div-lt x k, div-lt (not32 x) k)

pub op_lui-IsCpu : Keeps Alu.op_lui
unfolding Alu.op_lui
op_lui-IsCpu c i h = set_reg-IsCpu c (t i) _ h (omega arith)

pub op_ori-IsCpu : Keeps Alu.op_ori
unfolding Alu.op_ori
op_ori-IsCpu c i h = set_reg-IsCpu c (t i) _ h (bit_or-lt 32 _ _ (h.words_in (s i)) (omega arith))

pub op_sll-IsCpu : Keeps Alu.op_sll
unfolding Alu.op_sll
op_sll-IsCpu c i h = set_reg-IsCpu c (d i) _ h (omega arith)

pub op_addiu-IsCpu : Keeps Alu.op_addiu
unfolding Alu.op_addiu
op_addiu-IsCpu c i h = set_reg-IsCpu c (t i) _ h (omega arith)

pub op_or-IsCpu : Keeps Alu.op_or
unfolding Alu.op_or
op_or-IsCpu c i h =
    set_reg-IsCpu c (d i) _ h (bit_or-lt 32 _ _ (h.words_in (s i)) (h.words_in (t i)))

pub op_sltu-IsCpu : Keeps Alu.op_sltu
unfolding Alu.op_sltu
op_sltu-IsCpu c i h =
    set_reg-IsCpu c (d i) _ h (omega (arith, to_ℕ-lt (ltb (reg c (s i)) (reg c (t i)))))

pub op_addu-IsCpu : Keeps Alu.op_addu
unfolding Alu.op_addu
op_addu-IsCpu c i h = set_reg-IsCpu c (d i) _ h (omega arith)

pub op_andi-IsCpu : Keeps Alu.op_andi
unfolding Alu.op_andi
op_andi-IsCpu c i h = set_reg-IsCpu c (t i) _ h (bit_and-lt 32 _ _ (h.words_in (s i)) (omega arith))

pub op_and-IsCpu : Keeps Alu.op_and
unfolding Alu.op_and
op_and-IsCpu c i h =
    set_reg-IsCpu c (d i) _ h (bit_and-lt 32 _ _ (h.words_in (s i)) (h.words_in (t i)))

pub op_slti-IsCpu : Keeps Alu.op_slti
unfolding Alu.op_slti
op_slti-IsCpu c i h =
    set_reg-IsCpu c (t i) _ h (omega (arith, to_ℕ-lt (lt_signed32 (reg c (s i)) (imm_se i))))

pub op_subu-IsCpu : Keeps Alu.op_subu
unfolding Alu.op_subu
op_subu-IsCpu c i h = set_reg-IsCpu c (d i) _ h (omega arith)

pub op_sra-IsCpu : Keeps Alu.op_sra
unfolding Alu.op_sra
op_sra-IsCpu c i h = set_reg-IsCpu c (d i) _ h (sar32-lt _ _ (h.words_in (t i)))

pub op_srl-IsCpu : Keeps Alu.op_srl
unfolding Alu.op_srl
op_srl-IsCpu c i h = set_reg-IsCpu c (d i) _ h (div-lt _ _ (h.words_in (t i)))

pub op_sltiu-IsCpu : Keeps Alu.op_sltiu
unfolding Alu.op_sltiu
op_sltiu-IsCpu c i h =
    set_reg-IsCpu c (t i) _ h (omega (arith, to_ℕ-lt (ltb (reg c (s i)) (imm_se i))))

pub op_slt-IsCpu : Keeps Alu.op_slt
unfolding Alu.op_slt
op_slt-IsCpu c i h =
    set_reg-IsCpu c (d i) _ h (omega (arith, to_ℕ-lt (lt_signed32 (reg c (s i)) (reg c (t i)))))

pub op_sllv-IsCpu : Keeps Alu.op_sllv
unfolding Alu.op_sllv
op_sllv-IsCpu c i h = set_reg-IsCpu c (d i) _ h (omega arith)

pub op_nor-IsCpu : Keeps Alu.op_nor
unfolding Alu.op_nor
op_nor-IsCpu c i h = set_reg-IsCpu c (d i) _ h (omega arith)

pub op_srav-IsCpu : Keeps Alu.op_srav
unfolding Alu.op_srav
op_srav-IsCpu c i h = set_reg-IsCpu c (d i) _ h (sar32-lt _ _ (h.words_in (t i)))

pub op_srlv-IsCpu : Keeps Alu.op_srlv
unfolding Alu.op_srlv
op_srlv-IsCpu c i h = set_reg-IsCpu c (d i) _ h (div-lt _ _ (h.words_in (t i)))

pub op_xor-IsCpu : Keeps Alu.op_xor
unfolding Alu.op_xor
op_xor-IsCpu c i h =
    set_reg-IsCpu c (d i) _ h (bit_xor-lt 32 _ _ (h.words_in (s i)) (h.words_in (t i)))

pub op_xori-IsCpu : Keeps Alu.op_xori
unfolding Alu.op_xori
op_xori-IsCpu c i h = set_reg-IsCpu c (t i) _ h (bit_xor-lt 32 _ _ (h.words_in (s i)) (omega arith))

pub op_addi-IsCpu : Keeps Alu.op_addi
unfolding Alu.op_addi
op_addi-IsCpu c i h =
    elim (Bool-cases (Alu.add_overflow (reg c (s i)) (imm_se i) (add32 (reg c (s i)) (imm_se i)))) [
      | inl e ↦ rw e (set_reg-IsCpu _ (t i) _ (exception-IsCpu c overflow h) (omega arith))
      | inr e ↦ rw e (set_reg-IsCpu c (t i) _ h (omega arith))
    ]

pub op_add-IsCpu : Keeps Alu.op_add
unfolding Alu.op_add
op_add-IsCpu c i h =
    elim (Bool-cases
      (Alu.add_overflow (reg c (s i)) (reg c (t i)) (add32 (reg c (s i)) (reg c (t i))))) [
        | inl e ↦ rw e (set_reg-IsCpu _ (d i) _ (exception-IsCpu c overflow h) (omega arith))
        | inr e ↦ rw e (set_reg-IsCpu c (d i) _ h (omega arith))
      ]

pub op_sub-IsCpu : Keeps Alu.op_sub
unfolding Alu.op_sub
op_sub-IsCpu c i h =
    elim (Bool-cases
      (Alu.sub_overflow (reg c (s i)) (reg c (t i)) (sub32 (reg c (s i)) (reg c (t i))))) [
        | inl e ↦ rw e (exception-IsCpu c overflow h)
        | inr e ↦ rw e (set_reg-IsCpu c (d i) _ h (omega arith))
      ]
