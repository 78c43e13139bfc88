-- ===== src/Cpu/Arithmetic/Results.antt =====
-- The instructions that compute, against their meaning.
use cpp_station.Prelude.{
  ℕ, ◌-◌, ◌*◌, ◌/◌, ◌%◌, ◌^◌, ◌<◌, ◌≡◌, refl, ltb, to_ℕ, bit_and, bit_or, bit_xor, arith,
}
use mathlib.Core.Path.{subst}
use cpp_station.Cpu.Exceptions.{imm_se-lt}
use native.Mathlib.Nat.{mod-lt, one-le-pow, div-add-mod', div-le_self}
use cpp_station.Word.{add32, sub32, shl32, shr, sar32, not32, lt_signed32}
use cpp_station.Word.Bits.{
  bit_and_halves, bit_or_halves, bit_xor_halves, bit_and-shr, bit_or-shr, bit_xor-shr, bit_and-lt,
  bit_or-lt, bit_xor-lt, differ_lem,
}
use cpp_station.Outcome.{Outcome, ok}
use cpp_station.Cpu.Instruction.{s, t, imm, imm_se, shift}
use cpp_station.Cpu.State.{Machine, reg, set_reg}
use cpp_station.Cpu.Decode.{Op, execute, decode, decode_and_execute}
use cpp_station.Cpu.Alu
use cpp_station.Cpu.Arithmetic.{
  Meaning, sum, difference, conjunction, disjunction, exclusion, neither, less, less_unsigned,
  shift_left, shift_right, shift_right_signed, Operands, three_registers, by_amount, by_register,
  signed_immediate, immediate, upper_immediate, IsAlu, IsResult, word_of, signed16, destination,
  first, second, addu_row, subu_row, and_row, or_row, xor_row, nor_row, slt_row, sltu_row, sll_row,
  srl_row, sra_row, sllv_row, srlv_row, srav_row, addiu_row, slti_row, sltiu_row, andi_row, ori_row,
  xori_row, lui_row,
}

-- A word with that meaning.
abbrev IsWordOf : Meaning → ℕ → ℕ → ℕ → Type 0
IsWordOf m x y v = (v < 2 ^ 32) × IsResult m x y v

add32-sum : (x y : ℕ) → x < 2 ^ 32 → y < 2 ^ 32 → IsWordOf sum x y (add32 x y)
add32-sum x y hx hy = (omega arith, ground arith)

sub32-difference : (x y : ℕ) → x < 2 ^ 32 → y < 2 ^ 32 → IsWordOf difference x y (sub32 x y)
sub32-difference x y hx hy = (omega arith, ground arith)

bit_and-conjunction : (x y : ℕ) → x < 2 ^ 32 → y < 2 ^ 32 → IsWordOf conjunction x y (bit_and x y)
bit_and-conjunction x y hx hy = (
  bit_and-lt 32 x y hx hy,
  λ k. rw (bit_and-shr k x y) (omega (arith, bit_and_halves (x / 2 ^ k) (y / 2 ^ k))),
)

bit_or-disjunction : (x y : ℕ) → x < 2 ^ 32 → y < 2 ^ 32 → IsWordOf disjunction x y (bit_or x y)
bit_or-disjunction x y hx hy = (
  bit_or-lt 32 x y hx hy,
  λ k. rw (bit_or-shr k x y) (omega (arith, bit_or_halves (x / 2 ^ k) (y / 2 ^ k))),
)

bit_xor-exclusion : (x y : ℕ) → x < 2 ^ 32 → y < 2 ^ 32 → IsWordOf exclusion x y (bit_xor x y)
bit_xor-exclusion x y hx hy = (
  bit_xor-lt 32 x y hx hy,
  λ k. rw (bit_xor-shr k x y) (
      omega (
        arith,
        bit_xor_halves (x / 2 ^ k) (y / 2 ^ k),
        differ_lem (x / 2 ^ k % 2) (y / 2 ^ k % 2) (omega arith) (omega arith),
      )),
)

nor-neither : (x y : ℕ) → x < 2 ^ 32 → y < 2 ^ 32 → IsWordOf neither x y (not32 (bit_or x y))
nor-neither x y hx hy =
    let (h, digits) = bit_or-disjunction x y hx hy in
    (omega arith, (bit_or x y, digits, omega arith))

slt-less : (x y : ℕ) → x < 2 ^ 32 → y < 2 ^ 32 → IsWordOf less x y (to_ℕ (lt_signed32 x y))
slt-less x y hx hy = (ground arith, ground arith)

sltu-less_unsigned : (x y : ℕ) → IsWordOf less_unsigned x y (to_ℕ (ltb x y))
sltu-less_unsigned x y = (ground arith, ground arith)

shl32-shift_left : (x k : ℕ) → IsWordOf shift_left x k (shl32 x k)
shl32-shift_left x k = (omega arith, (x * 2 ^ k / 2 ^ 32, omega arith))

shr-shift_right : (x k : ℕ) → x < 2 ^ 32 → IsWordOf shift_right x k (shr x k)
shr-shift_right x k hx =
    let whole = div-add-mod' x (2 ^ k) in
    let rest = mod-lt x (one-le-pow k 2 (omega arith)) in
    (omega (arith, div-le_self x (2 ^ k)), (omega (arith, whole), omega (arith, whole, rest)))

sar32-shift_right_signed : (x k : ℕ) → x < 2 ^ 32 → IsWordOf shift_right_signed x k (sar32 x k)
sar32-shift_right_signed x k hx =
    let a = div-le_self x (2 ^ k) in
    let b = div-le_self (2 ^ 32 - 1 - x) (2 ^ k) in (ground (arith, a, b), ground (arith, a, b))

imm_se-word_of : (i : ℕ) → imm_se i ≡ word_of (signed16 (imm i))
imm_se-word_of i = ground arith

signed_operand :
    (meaning : Meaning) (x i : ℕ) {v : ℕ}
    → IsWordOf meaning x (imm_se i) v
    → IsWordOf meaning x (word_of (signed16 (imm i))) v
signed_operand meaning x i {v = v} h = subst (λ y. IsWordOf meaning x y v) (imm_se-word_of i) h

-- `m'` is `m` with the result in the destination.
abbrev pub Computes : Meaning → Operands → Machine → ℕ → Outcome Machine → Type 0
Computes meaning operands m i r =
    (v : ℕ) × (r ≡ ok (record m { cpu = set_reg m.cpu (destination operands i) v }))
    × (v < 2 ^ 32)
    × IsResult meaning (first operands m.cpu i) (second operands m.cpu i) v

computes :
    (meaning : Meaning) (operands : Operands) (m : Machine) (i v : ℕ)
    → IsWordOf meaning (first operands m.cpu i) (second operands m.cpu i) v
    → Computes meaning operands m i
        (ok (record m { cpu = set_reg m.cpu (destination operands i) v }))
computes meaning operands m i v (fits, h) = (v, refl, fits, h)

-- Every instruction of the table computes its meaning.
pub execute-Computes :
    {op : Op} {meaning : Meaning} {operands : Operands} (row : IsAlu op meaning operands) (fuel : ℕ)
    (m : Machine) (i : ℕ)
    → reg m.cpu (s i) < 2 ^ 32
    → reg m.cpu (t i) < 2 ^ 32
    → Computes meaning operands m i (execute fuel op m i)
unfolding execute Alu.op_addu Alu.op_subu Alu.op_and Alu.op_or Alu.op_xor Alu.op_nor Alu.op_slt
    Alu.op_sltu Alu.op_sll Alu.op_srl Alu.op_sra Alu.op_sllv Alu.op_srlv Alu.op_srav Alu.op_addiu
    Alu.op_slti Alu.op_sltiu Alu.op_andi Alu.op_ori Alu.op_xori Alu.op_lui
execute-Computes addu_row fuel m i hs ht =
    computes sum three_registers m i _ (add32-sum (reg m.cpu (s i)) (reg m.cpu (t i)) hs ht)
execute-Computes subu_row fuel m i hs ht =
    computes difference three_registers m i _
      (sub32-difference (reg m.cpu (s i)) (reg m.cpu (t i)) hs ht)
execute-Computes and_row fuel m i hs ht =
    computes conjunction three_registers m i _
      (bit_and-conjunction (reg m.cpu (s i)) (reg m.cpu (t i)) hs ht)
execute-Computes or_row fuel m i hs ht =
    computes disjunction three_registers m i _
      (bit_or-disjunction (reg m.cpu (s i)) (reg m.cpu (t i)) hs ht)
execute-Computes xor_row fuel m i hs ht =
    computes exclusion three_registers m i _
      (bit_xor-exclusion (reg m.cpu (s i)) (reg m.cpu (t i)) hs ht)
execute-Computes nor_row fuel m i hs ht =
    computes neither three_registers m i _ (nor-neither (reg m.cpu (s i)) (reg m.cpu (t i)) hs ht)
execute-Computes slt_row fuel m i hs ht =
    computes less three_registers m i _ (slt-less (reg m.cpu (s i)) (reg m.cpu (t i)) hs ht)
execute-Computes sltu_row fuel m i hs ht =
    computes less_unsigned three_registers m i _
      (sltu-less_unsigned (reg m.cpu (s i)) (reg m.cpu (t i)))
execute-Computes sll_row fuel m i hs ht =
    computes shift_left by_amount m i _ (shl32-shift_left (reg m.cpu (t i)) (shift i))
execute-Computes srl_row fuel m i hs ht =
    computes shift_right by_amount m i _ (shr-shift_right (reg m.cpu (t i)) (shift i) ht)
execute-Computes sra_row fuel m i hs ht =
    computes shift_right_signed by_amount m i _
      (sar32-shift_right_signed (reg m.cpu (t i)) (shift i) ht)
execute-Computes sllv_row fuel m i hs ht =
    computes shift_left by_register m i _
      (shl32-shift_left (reg m.cpu (t i)) (reg m.cpu (s i) % 32))
execute-Computes srlv_row fuel m i hs ht =
    computes shift_right by_register m i _
      (shr-shift_right (reg m.cpu (t i)) (reg m.cpu (s i) % 32) ht)
execute-Computes srav_row fuel m i hs ht =
    computes shift_right_signed by_register m i _
      (sar32-shift_right_signed (reg m.cpu (t i)) (reg m.cpu (s i) % 32) ht)
execute-Computes addiu_row fuel m i hs ht = computes sum signed_immediate m i _ (
    signed_operand sum (reg m.cpu (s i)) i
      (add32-sum (reg m.cpu (s i)) (imm_se i) hs (imm_se-lt i)))
execute-Computes slti_row fuel m i hs ht = computes less signed_immediate m i _ (
    signed_operand less (reg m.cpu (s i)) i
      (slt-less (reg m.cpu (s i)) (imm_se i) hs (imm_se-lt i)))
execute-Computes sltiu_row fuel m i hs ht = computes less_unsigned signed_immediate m i _ (
    signed_operand less_unsigned (reg m.cpu (s i)) i
      (sltu-less_unsigned (reg m.cpu (s i)) (imm_se i)))
execute-Computes andi_row fuel m i hs ht =
    computes conjunction immediate m i _
      (bit_and-conjunction (reg m.cpu (s i)) (imm i) hs (omega arith))
execute-Computes ori_row fuel m i hs ht =
    computes disjunction immediate m i _
      (bit_or-disjunction (reg m.cpu (s i)) (imm i) hs (omega arith))
execute-Computes xori_row fuel m i hs ht =
    computes exclusion immediate m i _
      (bit_xor-exclusion (reg m.cpu (s i)) (imm i) hs (omega arith))
execute-Computes lui_row fuel m i hs ht =
    computes shift_left upper_immediate m i _ (shl32-shift_left (imm i) 16)

-- The same for a word that decodes to one of them.
pub decode_and_execute-Computes :
    {op : Op} {meaning : Meaning} {operands : Operands} (row : IsAlu op meaning operands) (fuel : ℕ)
    (m : Machine) (i : ℕ)
    → decode i ≡ op
    → reg m.cpu (s i) < 2 ^ 32
    → reg m.cpu (t i) < 2 ^ 32
    → Computes meaning operands m i (decode_and_execute fuel m i)
unfolding decode_and_execute
decode_and_execute-Computes row fuel m i e hs ht = rw e (execute-Computes row fuel m i hs ht)
