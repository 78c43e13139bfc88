-- ===== src/Cpu/Invariant.antt =====
-- R0 is 0 and every register holds a word of 32 bits: what the instructions on registers keep.
pub mod AluOps
pub mod OtherOps
pub mod MemoryOps
pub mod Run
pub mod Boot
use cpp_station.Prelude.{
  ℕ, ◌+◌, ◌-◌, ◌*◌, ◌/◌, ◌%◌, ◌^◌, ◌≤◌, ◌<◌, ◌≡◌, refl, inl, inr, Bool, Bool-cases, true, false,
  ltb, ◌==◌, if◌then◌else◌, to_ℕ, to_ℕ-lt, bit_and, bit_or, bit_xor, update, arith,
}
use native.Mathlib.Nat.{div-le_self, mod-lt}
use cpp_station.Word.{add32, sub32, shl32, sar32, shr, not32, low_bits, signed32}
use cpp_station.Word.Bits.{bit_and-lt, bit_or-lt, bit_xor-lt}
use cpp_station.Outcome.{Outcome, ok, Ensures}
use cpp_station.Cpu.Instruction.{s, t, d, imm, imm_se, shift}
use cpp_station.Cpu.State.{Cpu, Cause, reg, set_reg, exception, cause_code, overflow}
use cpp_station.Cpu.Exceptions.{exception_lem, imm_se-lt}
use cpp_station.Cpu.Alu

pub record IsCpu (c : Cpu) : Type 0 where
  pub zero_in : c.regs 0 ≡ 0
  pub zero_out : c.out_regs 0 ≡ 0
  pub words_in : (k : ℕ) → c.regs k < 2 ^ 32
  pub words_out : (k : ℕ) → c.out_regs k < 2 ^ 32
  pub load_word : c.load_reg < 2 ^ 32
  pub hi_word : c.hi < 2 ^ 32
  pub lo_word : c.lo < 2 ^ 32
  pub sr_word : c.sr < 2 ^ 32
  pub cause_word : c.cause < 2 ^ 32
  pub epc_word : c.epc < 2 ^ 32
  pub pc_word : c.pc < 2 ^ 32
  pub next_word : c.next_pc < 2 ^ 32
  pub current_word : c.current_pc < 2 ^ 32

pub set_reg-IsCpu : (c : Cpu) (k v : ℕ) → IsCpu c → v < 2 ^ 32 → IsCpu (set_reg c k v)
unfolding set_reg
set_reg-IsCpu c k v h hv = record {
  zero_in = h.zero_in;
  zero_out = refl;
  words_in = h.words_in;
  words_out = λ j. ground (arith, h.words_out j);
  load_word = h.load_word;
  hi_word = h.hi_word;
  lo_word = h.lo_word;
  sr_word = h.sr_word;
  cause_word = h.cause_word;
  epc_word = h.epc_word;
  pc_word = h.pc_word;
  next_word = h.next_word;
  current_word = h.current_word;
}

cause_code-lt : (e : Cause) → cause_code e < 16
cause_code-lt e = ground arith

pub exception-IsCpu : (c : Cpu) (e : Cause) → IsCpu c → IsCpu (exception c e)
unfolding exception
exception-IsCpu c e h =
    let lem = exception_lem c e in
    record {
      zero_in = h.zero_in;
      zero_out = h.zero_out;
      words_in = h.words_in;
      words_out = h.words_out;
      load_word = h.load_word;
      hi_word = h.hi_word;
      lo_word = h.lo_word;
      sr_word = omega (arith, lem.6);
      cause_word = omega (arith, lem.0, cause_code-lt e, to_ℕ-lt c.delay_slot);
      epc_word = ground (arith, h.current_word);
      pc_word = ground arith;
      next_word = omega arith;
      current_word = h.current_word;
    }

-- An operation on the registers keeps all that.
abbrev pub Keeps : (Cpu → ℕ → Cpu) → Type 0
Keeps op = (c : Cpu) (i : ℕ) → IsCpu c → IsCpu (op c i)
