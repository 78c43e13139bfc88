-- ===== src/Cpu/State.antt =====
-- The registers of `Cpu`, its constructor, `reg`, `setReg` and `exception`.
use cpp_station.Prelude.{
  ℕ, ◌*◌, ◌^◌, Bool, false, bit_and, bit_or, to_ℕ, update, ◌==◌, if◌then◌else◌,
}
use cpp_station.Word.{low_bits, test_bit, add32, sub32}
use cpp_station.Bus.State.{Bus}

pub record Cpu : Type 0 where
  pub pc : ℕ
  pub ip : ℕ
  pub next_pc : ℕ
  pub current_pc : ℕ
  pub regs : ℕ → ℕ
  pub out_regs : ℕ → ℕ
  pub load_reg_idx : ℕ
  pub load_reg : ℕ
  pub sr : ℕ
  pub cause : ℕ
  pub epc : ℕ
  pub hi : ℕ
  pub lo : ℕ
  pub branch : Bool
  pub delay_slot : Bool

-- The processor and what `mBus` points to.
pub record Machine : Type 0 where
  pub cpu : Cpu
  pub bus : Bus

-- The constructor. Of a register array only the entries below 32 are there.
unfoldable pub new_cpu : Cpu
new_cpu = record {
  pc = 0xbfc00000;
  ip = 0;
  next_pc = 0xbfc00004;
  current_pc = 0;
  regs = update (λ _. 0xdeadc0de) 0 0;
  out_regs = update (λ _. 0xdeadc0de) 0 0;
  load_reg_idx = 0;
  load_reg = 0;
  sr = 0;
  cause = 0;
  epc = 0;
  hi = 0xdeadc0de;
  lo = 0xdeadc0de;
  branch = false;
  delay_slot = false;
}

abbrev pub reg : Cpu → ℕ → ℕ
reg c index = c.regs index

-- Writes go to the output registers; R0 stays 0.
unfoldable pub set_reg : Cpu → ℕ → ℕ → Cpu
set_reg c index val = record c { out_regs = update (update c.out_regs index val) 0 0 }

pub data Cause : Type 0 where
  load_address_error store_address_error sys_call break_point : Cause
  illegal_instruction coprocessor_error overflow : Cause

abbrev pub cause_code : Cause → ℕ
cause_code load_address_error = 0x4
cause_code store_address_error = 0x5
cause_code sys_call = 0x8
cause_code break_point = 0x9
cause_code illegal_instruction = 0xa
cause_code coprocessor_error = 0xb
cause_code overflow = 0xc

-- The status register after `mSr &= !0x3f; mSr |= …`, with the logical `!`: the mask is 0.
abbrev pub replace_mode : ℕ → ℕ → ℕ
replace_mode sr mode = bit_or (bit_and sr (to_ℕ (0x3f == 0))) mode

unfoldable pub exception : Cpu → Cause → Cpu
exception c cause =
    let handler : ℕ = if test_bit c.sr 22 then 0xbfc00180 else 0x80000080 in
    let mode = low_bits c.sr 6 in
    let code = cause_code cause * 2 ^ 2 in
    record c {
      sr = replace_mode c.sr (low_bits (mode * 2 ^ 2) 6);
      cause = if c.delay_slot then bit_or code (2 ^ 31) else code;
      epc = if c.delay_slot then sub32 c.current_pc 4 else c.current_pc;
      pc = handler;
      next_pc = add32 handler 4;
    }
