-- ===== src/Cpu/Targets.antt =====
-- Where branches and jumps lead, and when.
use cpp_station.Prelude.{
  ℕ, ◌/◌, ◌%◌, ◌^◌, ◌<◌, ◌≡◌, ◌≢◌, ◌⊎◌, inl, inr, refl, ap, Bool, true, false, not, xor, ◌||◌, ltb,
  Bool-cases, ◌==◌, if◌then◌else◌, arith,
}
use cpp_station.Prelude.Int.{pos, negsuc, ◌+ℤ◌, ◌*ℤ◌, ◌≤ℤ◌}
use cpp_station.Word.{signed32, add32, shl32, test_bit, low_bits, shr}
use cpp_station.Cpu.Instruction.{s, t, imm, imm_se}
use cpp_station.Cpu.State.{Cpu, reg, set_reg}
use cpp_station.Cpu.Branch.{branch, is_negative, op_beq, op_bne, op_bgtz, op_blez, op_bxx}
use cpp_station.Cpu.Arithmetic.{word_of, signed16}

-- The address of the instruction in the delay slot, which `pc` holds, and four times the signed
-- offset.
abbrev pub target : Cpu → ℕ → ℕ
target c i = word_of (pos c.pc +ℤ signed16 (imm i) *ℤ pos 4)

-- The branch is taken, or nothing happens.
abbrev pub BranchesIf : Type 0 → Cpu → ℕ → Cpu → Type 0
BranchesIf P c i c' =
    (P × (c' ≡ record c { next_pc = target c i; branch = true })) ⊎ ((¬ P) × (c' ≡ c))

-- The return address in R31 of BLTZAL and BGEZAL, the codes 0x10 and 0x11.
abbrev pub linked : Cpu → ℕ → Cpu
linked c i = if t i / 2 == 8 then set_reg c 31 c.next_pc else c

branch_target : (c : Cpu) (i : ℕ) → c.pc < 2 ^ 32 → add32 c.pc (shl32 (imm_se i) 2) ≡ target c i
branch_target c i h = ground arith

branch_lem :
    (c : Cpu) (i : ℕ)
    → c.pc < 2 ^ 32
    → branch c (imm_se i) ≡ record c { next_pc = target c i; branch = true }
unfolding branch
branch_lem c i h = rw (branch_target c i h) refl

-- A test that decides `P`.
abbrev Decides : Type 0 → Bool → Type 0
Decides P true = P
Decides P false = ¬ P

decided :
    (P : Type 0) (b : Bool) (c : Cpu) (i : ℕ)
    → c.pc < 2 ^ 32
    → Decides P b
    → BranchesIf P c i (if b then branch c (imm_se i) else c)
decided P true c i h p = inl (p, branch_lem c i h)
decided P false c i h p = inr (p, refl)

==-Decides : (x y : ℕ) → Decides (x ≡ y) (x == y)
==-Decides x y = ground arith

not-==-Decides : (x y : ℕ) → Decides (x ≢ y) (not (x == y))
not-==-Decides x y = ground arith

not_positive-Decides :
    (v : ℕ) → v < 2 ^ 32 → Decides (signed32 v ≤ℤ pos 0) (is_negative v || v == 0)
not_positive-Decides v h = ground arith

positive-Decides :
    (v : ℕ) → v < 2 ^ 32 → Decides (pos 1 ≤ℤ signed32 v) (not (is_negative v || v == 0))
positive-Decides v h = ground arith

-- The value is at least 0, for BGEZ and BGEZAL, or below 0, for BLTZ and BLTZAL.
abbrev pub HasSign : Bool → ℕ → Type 0
HasSign true v = pos 0 ≤ℤ signed32 v
HasSign false v = signed32 v ≤ℤ negsuc 0

sign-Decides : (b : Bool) (v : ℕ) → v < 2 ^ 32 → Decides (HasSign b v) (xor (is_negative v) b)
unfolding mathlib.Core.Bool.xor
sign-Decides true v h = ground arith
sign-Decides false v h = elim (Bool-cases (ltb v (2 ^ 31))) [
  | inl e ↦ rw e (λ p. ground arith)
  | inr e ↦ rw e (ground arith)
]

bxx_codes : (i : ℕ) → (low_bits (shr i 17) 4 == 8) ≡ (t i / 2 == 8)
bxx_codes i = ap (λ x. x == 8) (omega arith)

bxx_sign : (i : ℕ) → test_bit i 16 ≡ (t i % 2 == 1)
bxx_sign i = ap (λ x. x == 1) (omega arith)

linked-pc : (c : Cpu) (i : ℕ) → (linked c i).pc ≡ c.pc
unfolding set_reg
linked-pc c i = ground arith

-- The conditional branches, both outcomes of each, with pc the address of the delay slot: BEQ,
-- BNE, BGTZ and BLEZ branch exactly when their condition holds of the registers, taken as signed
-- numbers, to the address of the delay slot plus four times the signed offset modulo 2^32, and
-- otherwise change nothing; the instructions BLTZ, BGEZ, BLTZAL and BGEZAL do so after they have
-- put the return address in R31, which the codes 0x10 and 0x11 alone do.
pub branches_lem :
    (c : Cpu) (i : ℕ)
    → c.pc < 2 ^ 32
    → reg c (s i) < 2 ^ 32
    → BranchesIf (reg c (s i) ≡ reg c (t i)) c i (op_beq c i)
      × BranchesIf (reg c (s i) ≢ reg c (t i)) c i (op_bne c i)
      × BranchesIf (pos 1 ≤ℤ signed32 (reg c (s i))) c i (op_bgtz c i)
      × BranchesIf (signed32 (reg c (s i)) ≤ℤ pos 0) c i (op_blez c i)
      × BranchesIf (HasSign (t i % 2 == 1) (reg c (s i))) (linked c i) i (op_bxx c i)
unfolding op_beq op_bne op_bgtz op_blez op_bxx
branches_lem c i hp hs =
    let x = reg c (s i) in
    let y = reg c (t i) in
    (
      decided (x ≡ y) (x == y) c i hp (==-Decides x y),
      decided (x ≢ y) (not (x == y)) c i hp (not-==-Decides x y),
      decided (pos 1 ≤ℤ signed32 x) (not (is_negative x || x == 0)) c i hp (positive-Decides x hs),
      decided (signed32 x ≤ℤ pos 0) (is_negative x || x == 0) c i hp (not_positive-Decides x hs),
      rw (bxx_codes i, bxx_sign i)
          (decided (HasSign (t i % 2 == 1) x) (xor (is_negative x) (t i % 2 == 1)) (linked c i) i
            (rw (linked-pc c i) hp) (sign-Decides (t i % 2 == 1) x hs)),
    )
