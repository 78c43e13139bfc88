-- ===== src/Cpu/Alu.antt =====
-- Sums, differences, logic, shifts and comparisons between registers.
use cpp_station.Prelude.{ℕ, Bool, not, bit_and, bit_or, bit_xor, ltb, to_ℕ, ◌==◌, if◌then◌else◌}
use cpp_station.Word.{low_bits, shr, add32, sub32, shl32, sar32, not32, lt_signed32}
use cpp_station.Cpu.Instruction.{s, t, d, imm, imm_se, shift}
use cpp_station.Cpu.State.{Cpu, reg, set_reg, exception, overflow}

-- `AddOverflow` and `SubOverflow`.
unfoldable pub add_overflow : ℕ → ℕ → ℕ → Bool
add_overflow old_value add_value new_value =
    not (
      bit_and (bit_and (bit_xor new_value old_value) (bit_xor new_value add_value)) 0x80000000 == 0)

unfoldable pub sub_overflow : ℕ → ℕ → ℕ → Bool
sub_overflow old_value sub_value new_value =
    not (
      bit_and (bit_and (bit_xor new_value old_value) (bit_xor old_value sub_value)) 0x80000000 == 0)

unfoldable pub op_lui : Cpu → ℕ → Cpu
op_lui c i = set_reg c (t i) (shl32 (imm i) 16)

unfoldable pub op_ori : Cpu → ℕ → Cpu
op_ori c i = set_reg c (t i) (bit_or (reg c (s i)) (imm i))

unfoldable pub op_sll : Cpu → ℕ → Cpu
op_sll c i = set_reg c (d i) (shl32 (reg c (t i)) (shift i))

unfoldable pub op_addiu : Cpu → ℕ → Cpu
op_addiu c i = set_reg c (t i) (add32 (reg c (s i)) (imm_se i))

unfoldable pub op_or : Cpu → ℕ → Cpu
op_or c i = set_reg c (d i) (bit_or (reg c (s i)) (reg c (t i)))

-- The register is written after an overflow too.
unfoldable pub op_addi : Cpu → ℕ → Cpu
op_addi c i =
    let s1 = reg c (s i) in
    let v = add32 s1 (imm_se i) in
    let c' = if add_overflow s1 (imm_se i) v then exception c overflow else c in set_reg c' (t i) v

unfoldable pub op_sltu : Cpu → ℕ → Cpu
op_sltu c i = set_reg c (d i) (to_ℕ (ltb (reg c (s i)) (reg c (t i))))

unfoldable pub op_addu : Cpu → ℕ → Cpu
op_addu c i = set_reg c (d i) (add32 (reg c (s i)) (reg c (t i)))

unfoldable pub op_andi : Cpu → ℕ → Cpu
op_andi c i = set_reg c (t i) (bit_and (reg c (s i)) (imm i))

unfoldable pub op_and : Cpu → ℕ → Cpu
op_and c i = set_reg c (d i) (bit_and (reg c (s i)) (reg c (t i)))

-- The register is written after an overflow too.
unfoldable pub op_add : Cpu → ℕ → Cpu
op_add c i =
    let i_s = reg c (s i) in
    let i_t = reg c (t i) in
    let v = add32 i_s i_t in
    let c' = if add_overflow i_s i_t v then exception c overflow else c in set_reg c' (d i) v

unfoldable pub op_slti : Cpu → ℕ → Cpu
op_slti c i = set_reg c (t i) (to_ℕ (lt_signed32 (reg c (s i)) (imm_se i)))

unfoldable pub op_subu : Cpu → ℕ → Cpu
op_subu c i = set_reg c (d i) (sub32 (reg c (s i)) (reg c (t i)))

unfoldable pub op_sra : Cpu → ℕ → Cpu
op_sra c i = set_reg c (d i) (sar32 (reg c (t i)) (shift i))

unfoldable pub op_srl : Cpu → ℕ → Cpu
op_srl c i = set_reg c (d i) (shr (reg c (t i)) (shift i))

unfoldable pub op_sltiu : Cpu → ℕ → Cpu
op_sltiu c i = set_reg c (t i) (to_ℕ (ltb (reg c (s i)) (imm_se i)))

unfoldable pub op_slt : Cpu → ℕ → Cpu
op_slt c i = set_reg c (d i) (to_ℕ (lt_signed32 (reg c (s i)) (reg c (t i))))

unfoldable pub op_sllv : Cpu → ℕ → Cpu
op_sllv c i = set_reg c (d i) (shl32 (reg c (t i)) (low_bits (reg c (s i)) 5))

unfoldable pub op_nor : Cpu → ℕ → Cpu
op_nor c i = set_reg c (d i) (not32 (bit_or (reg c (s i)) (reg c (t i))))

unfoldable pub op_srav : Cpu → ℕ → Cpu
op_srav c i = set_reg c (d i) (sar32 (reg c (t i)) (low_bits (reg c (s i)) 5))

unfoldable pub op_srlv : Cpu → ℕ → Cpu
op_srlv c i = set_reg c (d i) (shr (reg c (t i)) (low_bits (reg c (s i)) 5))

unfoldable pub op_xor : Cpu → ℕ → Cpu
op_xor c i = set_reg c (d i) (bit_xor (reg c (s i)) (reg c (t i)))

unfoldable pub op_sub : Cpu → ℕ → Cpu
op_sub c i =
    let s_i = reg c (s i) in
    let t_i = reg c (t i) in
    let v = sub32 s_i t_i in
    if sub_overflow s_i t_i v then exception c overflow else set_reg c (d i) v

unfoldable pub op_xori : Cpu → ℕ → Cpu
op_xori c i = set_reg c (t i) (bit_xor (reg c (s i)) (imm i))
