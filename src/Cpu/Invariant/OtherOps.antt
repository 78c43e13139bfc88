-- ===== src/Cpu/Invariant/OtherOps.antt =====
-- The operations of Cpu.MulDiv, Cpu.Branch and Cpu.Coprocessor keep the registers well formed.
use cpp_station.Prelude.{ℕ, ◌/◌, ◌%◌, ◌^◌, ◌<◌, Bool, ◌==◌, true, arith}
use native.Mathlib.Nat.{div-le_self, mod-le}
use cpp_station.Word.Bits.{bit_and-lt, bit_or-lt}
use cpp_station.Outcome.{panic, unhandled_cop0, Ensures, Ensures-if}
use cpp_station.Cpu.Instruction.{cop_opcode, s, t, d, imm_se}
use cpp_station.Cpu.State.{Cpu, reg, set_reg}
use cpp_station.Cpu.Exceptions.{op_rfe_lem}
use cpp_station.Cpu.Invariant.{IsCpu, Keeps, set_reg-IsCpu}
use cpp_station.Cpu.MulDiv
use cpp_station.Cpu.MulDiv.{quotient32, remainder32, magnitude, negate32}
use cpp_station.Cpu.Branch
use cpp_station.Cpu.Memory.{delay_load}
use cpp_station.Cpu.Coprocessor

pub hi_lo-IsCpu :
    (c : Cpu) (h l : ℕ) → IsCpu c → h < 2 ^ 32 → l < 2 ^ 32 → IsCpu (record c { hi = h; lo = l })
hi_lo-IsCpu c h l k hh hl = record {
  zero_in = k.zero_in;
  zero_out = k.zero_out;
  words_in = k.words_in;
  words_out = k.words_out;
  load_word = k.load_word;
  hi_word = hh;
  lo_word = hl;
  sr_word = k.sr_word;
  cause_word = k.cause_word;
  epc_word = k.epc_word;
  pc_word = k.pc_word;
  next_word = k.next_word;
  current_word = k.current_word;
}

pub jump-IsCpu :
    (c : Cpu) (to : ℕ) (b : Bool)
    → IsCpu c
    → to < 2 ^ 32
    → IsCpu (record c { next_pc = to; branch = b })
jump-IsCpu c to b k h = record {
  zero_in = k.zero_in;
  zero_out = k.zero_out;
  words_in = k.words_in;
  words_out = k.words_out;
  load_word = k.load_word;
  hi_word = k.hi_word;
  lo_word = k.lo_word;
  sr_word = k.sr_word;
  cause_word = k.cause_word;
  epc_word = k.epc_word;
  pc_word = k.pc_word;
  next_word = h;
  current_word = k.current_word;
}

pub sr-IsCpu : (c : Cpu) (v : ℕ) → IsCpu c → v < 2 ^ 32 → IsCpu (record c { sr = v })
sr-IsCpu c v k h = record {
  zero_in = k.zero_in;
  zero_out = k.zero_out;
  words_in = k.words_in;
  words_out = k.words_out;
  load_word = k.load_word;
  hi_word = k.hi_word;
  lo_word = k.lo_word;
  sr_word = h;
  cause_word = k.cause_word;
  epc_word = k.epc_word;
  pc_word = k.pc_word;
  next_word = k.next_word;
  current_word = k.current_word;
}

pub delay_load-IsCpu : (c : Cpu) (k v : ℕ) → IsCpu c → v < 2 ^ 32 → IsCpu (delay_load c k v)
unfolding delay_load
delay_load-IsCpu c j v k h = record {
  zero_in = k.zero_in;
  zero_out = k.zero_out;
  words_in = k.words_in;
  words_out = k.words_out;
  load_word = h;
  hi_word = k.hi_word;
  lo_word = k.lo_word;
  sr_word = k.sr_word;
  cause_word = k.cause_word;
  epc_word = k.epc_word;
  pc_word = k.pc_word;
  next_word = k.next_word;
  current_word = k.current_word;
}

negate32-lt : (x : ℕ) → negate32 x < 2 ^ 32
negate32-lt x = omega arith

quotient32-lt : (n d : ℕ) → n < 2 ^ 32 → quotient32 n d < 2 ^ 32
unfolding quotient32
quotient32-lt n d h =
    let small = div-le_self (magnitude n) (magnitude d) in
    let q = magnitude n / magnitude d in ground (arith, small, negate32-lt q)

remainder32-lt : (n d : ℕ) → n < 2 ^ 32 → remainder32 n d < 2 ^ 32
unfolding remainder32
remainder32-lt n d h =
    let small = mod-le (magnitude n) (magnitude d) in
    let r = magnitude n % magnitude d in ground (arith, small, negate32-lt r)

pub op_div-IsCpu : Keeps MulDiv.op_div
unfolding MulDiv.op_div
op_div-IsCpu c i h =
    let n = reg c (s i) in
    let m = reg c (t i) in
    let hn = h.words_in (s i) in
    ground (
      arith,
      hi_lo-IsCpu c n 0xffffffff h hn (omega arith),
      hi_lo-IsCpu c n 1 h hn (omega arith),
      hi_lo-IsCpu c 0 0x80000000 h (omega arith) (omega arith),
      hi_lo-IsCpu c (remainder32 n m) (quotient32 n m) h (remainder32-lt n m hn)
          (quotient32-lt n m hn),
    )

pub op_divu-IsCpu : Keeps MulDiv.op_divu
unfolding MulDiv.op_divu
op_divu-IsCpu c i h =
    let n = reg c (s i) in
    let m = reg c (t i) in
    let hn = h.words_in (s i) in
    let q = div-le_self n m in
    let r = mod-le n m in
    ground (
      arith,
      hi_lo-IsCpu c n 0xffffffff h hn (omega arith),
      hi_lo-IsCpu c (n % m) (n / m) h (omega (arith, r)) (omega (arith, q)),
    )

pub op_mflo-IsCpu : Keeps MulDiv.op_mflo
unfolding MulDiv.op_mflo
op_mflo-IsCpu c i h = set_reg-IsCpu c (d i) _ h h.lo_word

pub op_mfhi-IsCpu : Keeps MulDiv.op_mfhi
unfolding MulDiv.op_mfhi
op_mfhi-IsCpu c i h = set_reg-IsCpu c (d i) _ h h.hi_word

pub op_mtlo-IsCpu : Keeps MulDiv.op_mtlo
unfolding MulDiv.op_mtlo
op_mtlo-IsCpu c i h = hi_lo-IsCpu c c.hi (reg c (s i)) h h.hi_word (h.words_in (s i))

pub op_mthi-IsCpu : Keeps MulDiv.op_mthi
unfolding MulDiv.op_mthi
op_mthi-IsCpu c i h = hi_lo-IsCpu c (reg c (s i)) c.lo h (h.words_in (s i)) h.lo_word

pub op_multu-IsCpu : Keeps MulDiv.op_multu
unfolding MulDiv.op_multu
op_multu-IsCpu c i h = hi_lo-IsCpu c _ _ h (omega arith) (omega arith)

pub op_mult-IsCpu : Keeps MulDiv.op_mult
unfolding MulDiv.op_mult
op_mult-IsCpu c i h = hi_lo-IsCpu c _ _ h (omega arith) (omega arith)

branch-IsCpu : (c : Cpu) (offset : ℕ) → IsCpu c → IsCpu (Branch.branch c offset)
unfolding Branch.branch
branch-IsCpu c offset h = jump-IsCpu c _ true h (omega arith)

pub op_j-IsCpu : Keeps Branch.op_j
unfolding Branch.op_j
op_j-IsCpu c i h =
    jump-IsCpu c _ true h
      (bit_or-lt 32 _ _ (bit_and-lt 32 _ _ h.next_word (omega arith)) (omega arith))

pub op_jal-IsCpu : Keeps Branch.op_jal
unfolding Branch.op_jal
op_jal-IsCpu c i h =
    op_j-IsCpu (set_reg c 31 c.next_pc) i (set_reg-IsCpu c 31 c.next_pc h h.next_word)

pub op_jr-IsCpu : Keeps Branch.op_jr
unfolding Branch.op_jr
op_jr-IsCpu c i h = jump-IsCpu c _ true h (h.words_in (s i))

pub op_jalr-IsCpu : Keeps Branch.op_jalr
unfolding Branch.op_jalr
op_jalr-IsCpu c i h =
    let linked = set_reg-IsCpu c (d i) c.next_pc h h.next_word in
    jump-IsCpu (set_reg c (d i) c.next_pc) _ true linked (linked.words_in (s i))

pub op_bne-IsCpu : Keeps Branch.op_bne
unfolding Branch.op_bne
op_bne-IsCpu c i h = ground (arith, h, branch-IsCpu c (imm_se i) h)

pub op_beq-IsCpu : Keeps Branch.op_beq
unfolding Branch.op_beq
op_beq-IsCpu c i h = ground (arith, h, branch-IsCpu c (imm_se i) h)

pub op_bgtz-IsCpu : Keeps Branch.op_bgtz
unfolding Branch.op_bgtz
op_bgtz-IsCpu c i h = ground (arith, h, branch-IsCpu c (imm_se i) h)

pub op_blez-IsCpu : Keeps Branch.op_blez
unfolding Branch.op_blez
op_blez-IsCpu c i h = ground (arith, h, branch-IsCpu c (imm_se i) h)

pub op_bxx-IsCpu : Keeps Branch.op_bxx
unfolding Branch.op_bxx
op_bxx-IsCpu c i h =
    let linked = set_reg-IsCpu c 31 c.next_pc h h.next_word in
    ground (
      arith,
      h,
      linked,
      branch-IsCpu c (imm_se i) h,
      branch-IsCpu (set_reg c 31 c.next_pc) (imm_se i) linked,
    )

op_mfc0-IsCpu : (c : Cpu) (i : ℕ) → IsCpu c → Ensures IsCpu (Coprocessor.op_mfc0 c i)
unfolding Coprocessor.op_mfc0
op_mfc0-IsCpu c i h = ground (
  arith,
  delay_load-IsCpu c (t i) c.sr h h.sr_word,
  delay_load-IsCpu c (t i) c.cause h h.cause_word,
  delay_load-IsCpu c (t i) c.epc h h.epc_word,
)

op_mtc0-IsCpu : (c : Cpu) (i : ℕ) → IsCpu c → Ensures IsCpu (Coprocessor.op_mtc0 c i)
unfolding Coprocessor.op_mtc0
op_mtc0-IsCpu c i h = ground (arith, h, sr-IsCpu c (reg c (t i)) h (h.words_in (t i)))

op_rfe-IsCpu : (c : Cpu) (i : ℕ) → IsCpu c → Ensures IsCpu (Coprocessor.op_rfe c i)
op_rfe-IsCpu c i h =
    rw (op_rfe_lem c i) (ground (arith, sr-IsCpu c (c.sr / 4 % 2 ^ 4) h (omega arith)))

pub op_cop0-IsCpu : (c : Cpu) (i : ℕ) → IsCpu c → Ensures IsCpu (Coprocessor.op_cop0 c i)
unfolding Coprocessor.op_cop0
op_cop0-IsCpu c i h =
    Ensures-if IsCpu (cop_opcode i == 0) (Coprocessor.op_mfc0 c i) _ (op_mfc0-IsCpu c i h) (
      Ensures-if IsCpu (cop_opcode i == 4) (Coprocessor.op_mtc0 c i) _ (op_mtc0-IsCpu c i h) (
        Ensures-if IsCpu (cop_opcode i == 0x10) (Coprocessor.op_rfe c i) (panic (unhandled_cop0 i))
          (op_rfe-IsCpu c i h) tt))
