-- ===== src/Cpu/Branch.antt =====
-- Jumps and branches. They set `next_pc`: the instruction after them runs first.
use cpp_station.Prelude.{
  ℕ, ◌*◌, ◌^◌, Bool, true, not, bit_and, bit_or, ltb, ◌==◌, xor, ◌||◌, if◌then◌else◌,
}
use cpp_station.Word.{low_bits, shr, test_bit, add32, shl32}
use cpp_station.Cpu.Instruction.{s, t, d, imm_se, imm_jump}
use cpp_station.Cpu.State.{Cpu, reg, set_reg}

-- `(int32_t)v < 0`
abbrev pub is_negative : ℕ → Bool
is_negative v = not (ltb v (2 ^ 31))

unfoldable pub branch : Cpu → ℕ → Cpu
branch c offset = record c { next_pc = add32 c.pc (shl32 offset 2); branch = true }

unfoldable pub op_j : Cpu → ℕ → Cpu
op_j c i = record c {
  next_pc = bit_or (bit_and c.next_pc 0xf0000000) (imm_jump i * 2 ^ 2);
  branch = true;
}

unfoldable pub op_jal : Cpu → ℕ → Cpu
unfolding op_j
op_jal c i = let ra = c.next_pc in let c' = op_j (set_reg c 31 ra) i in record c' { branch = true }

unfoldable pub op_jr : Cpu → ℕ → Cpu
op_jr c i = record c { next_pc = reg c (s i); branch = true }

unfoldable pub op_jalr : Cpu → ℕ → Cpu
op_jalr c i =
    let ra = c.next_pc in
    let c' = set_reg c (d i) ra in record c' { next_pc = reg c' (s i); branch = true }

unfoldable pub op_bne : Cpu → ℕ → Cpu
unfolding branch
op_bne c i = if not (reg c (s i) == reg c (t i)) then branch c (imm_se i) else c

unfoldable pub op_beq : Cpu → ℕ → Cpu
unfolding branch
op_beq c i = if reg c (s i) == reg c (t i) then branch c (imm_se i) else c

unfoldable pub op_bgtz : Cpu → ℕ → Cpu
unfolding branch
op_bgtz c i =
    let v = reg c (s i) in if not (is_negative v || v == 0) then branch c (imm_se i) else c

unfoldable pub op_blez : Cpu → ℕ → Cpu
unfolding branch
op_blez c i = let v = reg c (s i) in if is_negative v || v == 0 then branch c (imm_se i) else c

-- BLTZ, BGEZ, BLTZAL and BGEZAL, told apart by bits 16 and 17 to 20.
unfoldable pub op_bxx : Cpu → ℕ → Cpu
unfolding branch
op_bxx c i =
    let is_bgez = test_bit i 16 in
    let is_link = low_bits (shr i 17) 4 == 8 in
    let test = xor (is_negative (reg c (s i))) is_bgez in
    let c' = if is_link then set_reg c 31 c.next_pc else c in
    if test then branch c' (imm_se i) else c'
