-- ===== src/Cpu/Flow/Ops.antt =====
-- No instruction on registers changes where the flow goes on, but for the exceptions.
use cpp_station.Prelude.{ℕ, inl, refl, arith}
use cpp_station.Outcome.{Ensures}
use cpp_station.Cpu.State.{Cpu, set_reg, exception}
use cpp_station.Cpu.Memory.{delay_load}
use cpp_station.Cpu.Alu.{
  op_add, op_addi, op_addiu, op_addu, op_and, op_andi, op_lui, op_nor, op_or, op_ori, op_sll,
  op_sllv, op_slt, op_slti, op_sltiu, op_sltu, op_sra, op_srav, op_srl, op_srlv, op_sub, op_subu,
  op_xor, op_xori,
}
use cpp_station.Cpu.Branch.{
  branch, op_beq, op_bgtz, op_blez, op_bne, op_bxx, op_j, op_jal, op_jalr, op_jr,
}
use cpp_station.Cpu.Coprocessor.{op_mfc0, op_mtc0, op_rfe, op_cop0}
use cpp_station.Cpu.MulDiv.{op_div, op_divu, op_mfhi, op_mflo, op_mthi, op_mtlo, op_mult, op_multu}
use cpp_station.Cpu.Flow.{Follows}

pub op_sll-Follows : (c : Cpu) (i : ℕ) → Follows c (op_sll c i)
unfolding op_sll set_reg
op_sll-Follows c i = inl refl

pub op_or-Follows : (c : Cpu) (i : ℕ) → Follows c (op_or c i)
unfolding op_or set_reg
op_or-Follows c i = inl refl

pub op_sltu-Follows : (c : Cpu) (i : ℕ) → Follows c (op_sltu c i)
unfolding op_sltu set_reg
op_sltu-Follows c i = inl refl

pub op_addu-Follows : (c : Cpu) (i : ℕ) → Follows c (op_addu c i)
unfolding op_addu set_reg
op_addu-Follows c i = inl refl

pub op_jr-Follows : (c : Cpu) (i : ℕ) → Follows c (op_jr c i)
unfolding op_jr set_reg
op_jr-Follows c i = inl refl

pub op_and-Follows : (c : Cpu) (i : ℕ) → Follows c (op_and c i)
unfolding op_and set_reg
op_and-Follows c i = inl refl

pub op_add-Follows : (c : Cpu) (i : ℕ) → Follows c (op_add c i)
unfolding op_add set_reg exception
op_add-Follows c i = ground arith

pub op_jalr-Follows : (c : Cpu) (i : ℕ) → Follows c (op_jalr c i)
unfolding op_jalr set_reg
op_jalr-Follows c i = inl refl

pub op_subu-Follows : (c : Cpu) (i : ℕ) → Follows c (op_subu c i)
unfolding op_subu set_reg
op_subu-Follows c i = inl refl

pub op_sra-Follows : (c : Cpu) (i : ℕ) → Follows c (op_sra c i)
unfolding op_sra set_reg
op_sra-Follows c i = inl refl

pub op_div-Follows : (c : Cpu) (i : ℕ) → Follows c (op_div c i)
unfolding op_div set_reg
op_div-Follows c i = ground arith

pub op_mflo-Follows : (c : Cpu) (i : ℕ) → Follows c (op_mflo c i)
unfolding op_mflo set_reg
op_mflo-Follows c i = inl refl

pub op_srl-Follows : (c : Cpu) (i : ℕ) → Follows c (op_srl c i)
unfolding op_srl set_reg
op_srl-Follows c i = inl refl

pub op_divu-Follows : (c : Cpu) (i : ℕ) → Follows c (op_divu c i)
unfolding op_divu set_reg
op_divu-Follows c i = ground arith

pub op_mfhi-Follows : (c : Cpu) (i : ℕ) → Follows c (op_mfhi c i)
unfolding op_mfhi set_reg
op_mfhi-Follows c i = inl refl

pub op_slt-Follows : (c : Cpu) (i : ℕ) → Follows c (op_slt c i)
unfolding op_slt set_reg
op_slt-Follows c i = inl refl

pub op_mthi-Follows : (c : Cpu) (i : ℕ) → Follows c (op_mthi c i)
unfolding op_mthi set_reg
op_mthi-Follows c i = inl refl

pub op_mtlo-Follows : (c : Cpu) (i : ℕ) → Follows c (op_mtlo c i)
unfolding op_mtlo set_reg
op_mtlo-Follows c i = inl refl

pub op_sllv-Follows : (c : Cpu) (i : ℕ) → Follows c (op_sllv c i)
unfolding op_sllv set_reg
op_sllv-Follows c i = inl refl

pub op_nor-Follows : (c : Cpu) (i : ℕ) → Follows c (op_nor c i)
unfolding op_nor set_reg
op_nor-Follows c i = inl refl

pub op_srav-Follows : (c : Cpu) (i : ℕ) → Follows c (op_srav c i)
unfolding op_srav set_reg
op_srav-Follows c i = inl refl

pub op_srlv-Follows : (c : Cpu) (i : ℕ) → Follows c (op_srlv c i)
unfolding op_srlv set_reg
op_srlv-Follows c i = inl refl

pub op_multu-Follows : (c : Cpu) (i : ℕ) → Follows c (op_multu c i)
unfolding op_multu set_reg
op_multu-Follows c i = inl refl

pub op_xor-Follows : (c : Cpu) (i : ℕ) → Follows c (op_xor c i)
unfolding op_xor set_reg
op_xor-Follows c i = inl refl

pub op_mult-Follows : (c : Cpu) (i : ℕ) → Follows c (op_mult c i)
unfolding op_mult set_reg
op_mult-Follows c i = inl refl

pub op_sub-Follows : (c : Cpu) (i : ℕ) → Follows c (op_sub c i)
unfolding op_sub set_reg exception
op_sub-Follows c i = ground arith

pub op_lui-Follows : (c : Cpu) (i : ℕ) → Follows c (op_lui c i)
unfolding op_lui set_reg
op_lui-Follows c i = inl refl

pub op_ori-Follows : (c : Cpu) (i : ℕ) → Follows c (op_ori c i)
unfolding op_ori set_reg
op_ori-Follows c i = inl refl

pub op_addiu-Follows : (c : Cpu) (i : ℕ) → Follows c (op_addiu c i)
unfolding op_addiu set_reg
op_addiu-Follows c i = inl refl

pub op_j-Follows : (c : Cpu) (i : ℕ) → Follows c (op_j c i)
unfolding op_j set_reg
op_j-Follows c i = inl refl

pub op_bne-Follows : (c : Cpu) (i : ℕ) → Follows c (op_bne c i)
unfolding op_bne set_reg branch
op_bne-Follows c i = ground arith

pub op_addi-Follows : (c : Cpu) (i : ℕ) → Follows c (op_addi c i)
unfolding op_addi set_reg exception
op_addi-Follows c i = ground arith

pub op_jal-Follows : (c : Cpu) (i : ℕ) → Follows c (op_jal c i)
unfolding op_jal set_reg op_j
op_jal-Follows c i = inl refl

pub op_andi-Follows : (c : Cpu) (i : ℕ) → Follows c (op_andi c i)
unfolding op_andi set_reg
op_andi-Follows c i = inl refl

pub op_beq-Follows : (c : Cpu) (i : ℕ) → Follows c (op_beq c i)
unfolding op_beq set_reg branch
op_beq-Follows c i = ground arith

pub op_blez-Follows : (c : Cpu) (i : ℕ) → Follows c (op_blez c i)
unfolding op_blez set_reg branch
op_blez-Follows c i = ground arith

pub op_bgtz-Follows : (c : Cpu) (i : ℕ) → Follows c (op_bgtz c i)
unfolding op_bgtz set_reg branch
op_bgtz-Follows c i = ground arith

pub op_bxx-Follows : (c : Cpu) (i : ℕ) → Follows c (op_bxx c i)
unfolding op_bxx set_reg branch
op_bxx-Follows c i = ground arith

pub op_slti-Follows : (c : Cpu) (i : ℕ) → Follows c (op_slti c i)
unfolding op_slti set_reg
op_slti-Follows c i = inl refl

pub op_sltiu-Follows : (c : Cpu) (i : ℕ) → Follows c (op_sltiu c i)
unfolding op_sltiu set_reg
op_sltiu-Follows c i = inl refl

pub op_xori-Follows : (c : Cpu) (i : ℕ) → Follows c (op_xori c i)
unfolding op_xori set_reg
op_xori-Follows c i = inl refl

pub op_cop0-Follows : (c : Cpu) (i : ℕ) → Ensures (Follows c) (op_cop0 c i)
unfolding op_cop0 op_mfc0 op_mtc0 op_rfe delay_load
op_cop0-Follows c i = ground arith
