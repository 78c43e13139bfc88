-- ===== src/Cpu/Decode.antt =====
-- `decodeAndExecute`: the two `switch` statements as tables of opcodes, and the calls of their cases.
use cpp_station.Prelude.{ℕ, List, [], ◌∷◌, ◌==◌, if◌then◌else◌}
use cpp_station.Outcome.{Outcome, ok, ◌>>=◌}
use cpp_station.Cpu.Instruction.{function, subfunction}
use cpp_station.Cpu.State.{Cpu, Machine}
use cpp_station.Cpu.Alu
use cpp_station.Cpu.MulDiv
use cpp_station.Cpu.Branch
use cpp_station.Cpu.Memory
use cpp_station.Cpu.Unaligned
use cpp_station.Cpu.Coprocessor

-- The methods that the cases call. `special` is the inner `switch`.
pub data Op : Type 0 where
  sll or sltu addu jr and add jalr subu sra div mflo srl divu mfhi slt syscall : Op
  mthi mtlo sllv nor srav srlv multu xor break mult sub : Op
  lui ori sw addiu j cop0 bne addi lw sh jal andi sb lb beq blez bgtz lbu bxx : Op
  slti sltiu lhu lh xori cop2 lwl lwr swl swr lwc2 swc2 no_coprocessor : Op
  special illegal : Op

-- The first entry for a number, and `illegal` for a number with none (the `default` cases).
abbrev pub find : ℕ → List (ℕ × Op) → Op
find n [] = illegal
find n ((k, op) ∷ table) = if n == k then op else find n table

abbrev pub special_table : List (ℕ × Op)
special_table =
    (0b000000, sll)
    ∷ (0b100101, or)
    ∷ (0b101011, sltu)
    ∷ (0b100001, addu)
    ∷ (0b001000, jr)
    ∷ (0b100100, and)
    ∷ (0b100000, add)
    ∷ (0b001001, jalr)
    ∷ (0b100011, subu)
    ∷ (0b000011, sra)
    ∷ (0b011010, div)
    ∷ (0b010010, mflo)
    ∷ (0b000010, srl)
    ∷ (0b011011, divu)
    ∷ (0b010000, mfhi)
    ∷ (0b101010, slt)
    ∷ (0b001100, syscall)
    ∷ (0b010001, mthi)
    ∷ (0b010011, mtlo)
    ∷ (0b000100, sllv)
    ∷ (0b100111, nor)
    ∷ (0b000111, srav)
    ∷ (0b000110, srlv)
    ∷ (0b011001, multu)
    ∷ (0b100110, xor)
    ∷ (0b001101, break)
    ∷ (0b011000, mult)
    ∷ (0b100010, sub)
    ∷ []

abbrev pub primary_table : List (ℕ × Op)
primary_table =
    (0b000000, special)
    ∷ (0b001111, lui)
    ∷ (0b001101, ori)
    ∷ (0b101011, sw)
    ∷ (0b001001, addiu)
    ∷ (0b000010, j)
    ∷ (0b010000, cop0)
    ∷ (0b000101, bne)
    ∷ (0b001000, addi)
    ∷ (0b100011, lw)
    ∷ (0b101001, sh)
    ∷ (0b000011, jal)
    ∷ (0b001100, andi)
    ∷ (0b101000, sb)
    ∷ (0b100000, lb)
    ∷ (0b000100, beq)
    ∷ (0b000110, blez)
    ∷ (0b000111, bgtz)
    ∷ (0b100100, lbu)
    ∷ (0b000001, bxx)
    ∷ (0b001010, slti)
    ∷ (0b001011, sltiu)
    ∷ (0b100101, lhu)
    ∷ (0b100001, lh)
    ∷ (0b001110, xori)
    ∷ (0b010001, no_coprocessor)
    ∷ (0b010010, cop2)
    ∷ (0b010011, no_coprocessor)
    ∷ (0b100010, lwl)
    ∷ (0b100110, lwr)
    ∷ (0b101010, swl)
    ∷ (0b101110, swr)
    ∷ (0b110000, no_coprocessor)
    ∷ (0b110001, no_coprocessor)
    ∷ (0b110010, lwc2)
    ∷ (0b110011, no_coprocessor)
    ∷ (0b111000, no_coprocessor)
    ∷ (0b111001, no_coprocessor)
    ∷ (0b111010, swc2)
    ∷ (0b111011, no_coprocessor)
    ∷ []

unfoldable pub decode : ℕ → Op
decode i = elim (find (function i) primary_table) [
  | special ↦ find (subfunction i) special_table
  | op ↦ op
]

-- A method that changes no more than the processor.
abbrev on_cpu : Machine → Cpu → Outcome Machine
on_cpu m c = ok (record m { cpu = c })

abbrev try_cpu : Machine → Outcome Cpu → Outcome Machine
try_cpu m r = r >>= λ c. ok (record m { cpu = c })

unfoldable pub execute : ℕ → Op → Machine → ℕ → Outcome Machine
execute fuel sll m i = on_cpu m (Alu.op_sll m.cpu i)
execute fuel or m i = on_cpu m (Alu.op_or m.cpu i)
execute fuel sltu m i = on_cpu m (Alu.op_sltu m.cpu i)
execute fuel addu m i = on_cpu m (Alu.op_addu m.cpu i)
execute fuel jr m i = on_cpu m (Branch.op_jr m.cpu i)
execute fuel and m i = on_cpu m (Alu.op_and m.cpu i)
execute fuel add m i = on_cpu m (Alu.op_add m.cpu i)
execute fuel jalr m i = on_cpu m (Branch.op_jalr m.cpu i)
execute fuel subu m i = on_cpu m (Alu.op_subu m.cpu i)
execute fuel sra m i = on_cpu m (Alu.op_sra m.cpu i)
execute fuel div m i = on_cpu m (MulDiv.op_div m.cpu i)
execute fuel mflo m i = on_cpu m (MulDiv.op_mflo m.cpu i)
execute fuel srl m i = on_cpu m (Alu.op_srl m.cpu i)
execute fuel divu m i = on_cpu m (MulDiv.op_divu m.cpu i)
execute fuel mfhi m i = on_cpu m (MulDiv.op_mfhi m.cpu i)
execute fuel slt m i = on_cpu m (Alu.op_slt m.cpu i)
execute fuel syscall m i = on_cpu m (Coprocessor.op_syscall m.cpu i)
execute fuel mthi m i = on_cpu m (MulDiv.op_mthi m.cpu i)
execute fuel mtlo m i = on_cpu m (MulDiv.op_mtlo m.cpu i)
execute fuel sllv m i = on_cpu m (Alu.op_sllv m.cpu i)
execute fuel nor m i = on_cpu m (Alu.op_nor m.cpu i)
execute fuel srav m i = on_cpu m (Alu.op_srav m.cpu i)
execute fuel srlv m i = on_cpu m (Alu.op_srlv m.cpu i)
execute fuel multu m i = on_cpu m (MulDiv.op_multu m.cpu i)
execute fuel xor m i = on_cpu m (Alu.op_xor m.cpu i)
execute fuel break m i = on_cpu m (Coprocessor.op_break m.cpu i)
execute fuel mult m i = on_cpu m (MulDiv.op_mult m.cpu i)
execute fuel sub m i = on_cpu m (Alu.op_sub m.cpu i)
execute fuel lui m i = on_cpu m (Alu.op_lui m.cpu i)
execute fuel ori m i = on_cpu m (Alu.op_ori m.cpu i)
execute fuel sw m i = Memory.op_sw fuel m i
execute fuel addiu m i = on_cpu m (Alu.op_addiu m.cpu i)
execute fuel j m i = on_cpu m (Branch.op_j m.cpu i)
execute fuel cop0 m i = try_cpu m (Coprocessor.op_cop0 m.cpu i)
execute fuel bne m i = on_cpu m (Branch.op_bne m.cpu i)
execute fuel addi m i = on_cpu m (Alu.op_addi m.cpu i)
execute fuel lw m i = Memory.op_lw m i
execute fuel sh m i = Memory.op_sh m i
execute fuel jal m i = on_cpu m (Branch.op_jal m.cpu i)
execute fuel andi m i = on_cpu m (Alu.op_andi m.cpu i)
execute fuel sb m i = Memory.op_sb m i
execute fuel lb m i = Memory.op_lb m i
execute fuel beq m i = on_cpu m (Branch.op_beq m.cpu i)
execute fuel blez m i = on_cpu m (Branch.op_blez m.cpu i)
execute fuel bgtz m i = on_cpu m (Branch.op_bgtz m.cpu i)
execute fuel lbu m i = Memory.op_lbu m i
execute fuel bxx m i = on_cpu m (Branch.op_bxx m.cpu i)
execute fuel slti m i = on_cpu m (Alu.op_slti m.cpu i)
execute fuel sltiu m i = on_cpu m (Alu.op_sltiu m.cpu i)
execute fuel lhu m i = Memory.op_lhu m i
execute fuel lh m i = Memory.op_lh m i
execute fuel xori m i = on_cpu m (Alu.op_xori m.cpu i)
execute fuel cop2 m i = try_cpu m (Coprocessor.op_cop2 m.cpu i)
execute fuel lwl m i = Unaligned.op_lwl m i
execute fuel lwr m i = Unaligned.op_lwr m i
execute fuel swl m i = Unaligned.op_swl fuel m i
execute fuel swr m i = Unaligned.op_swr fuel m i
execute fuel lwc2 m i = try_cpu m (Coprocessor.op_lwc2 m.cpu i)
execute fuel swc2 m i = try_cpu m (Coprocessor.op_swc2 m.cpu i)
execute fuel no_coprocessor m i = on_cpu m (Coprocessor.op_no_coprocessor m.cpu i)
execute fuel special m i = on_cpu m (Coprocessor.op_illegal m.cpu i)
execute fuel illegal m i = on_cpu m (Coprocessor.op_illegal m.cpu i)

unfoldable pub decode_and_execute : ℕ → Machine → ℕ → Outcome Machine
unfolding decode execute
decode_and_execute fuel m i = execute fuel (decode i) m i
