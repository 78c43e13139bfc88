-- ===== src/Cpu/Assembly.antt =====
-- Instruction words, put together from an instruction and its fields, and taken apart again by the
-- namespace `Instruction` of cpu/cpu.hpp and by decodeAndExecute.
use cpp_station.Prelude.{ℕ, ◌+◌, ◌*◌, ◌^◌, ◌<◌, ◌≡◌, ◌≢◌, ◌∙◌, ap, refl, arith}
use cpp_station.Cpu.Instruction.{function, subfunction, s, t, d, imm, imm_jump, shift}
use cpp_station.Cpu.Decode.{
  Op, sll, or, sltu, addu, jr, and, add, jalr, subu, sra, div, mflo, srl, divu, mfhi, slt, syscall,
  mthi, mtlo, sllv, nor, srav, srlv, multu, xor, break, mult, sub, lui, ori, sw, addiu, j, cop0,
  bne, addi, lw, sh, jal, andi, sb, lb, beq, blez, bgtz, lbu, bxx, slti, sltiu, lhu, lh, xori, cop2,
  lwl, lwr, swl, swr, lwc2, swc2, no_coprocessor, special, illegal, decode, find, primary_table,
  special_table,
}

-- The numbers of an instruction in the manual of the processor: an opcode, or opcode 0 and a
-- function code.
pub data Code : Type 0 where
  opcode : ℕ → Code
  function_code : ℕ → Code

-- The three instructions that are all calls of the same method, and the two that are none, stand
-- for any of their codes: 0x11 and 0x3f here.
abbrev pub code_of : Op → Code
code_of sll = function_code 0x00
code_of srl = function_code 0x02
code_of sra = function_code 0x03
code_of sllv = function_code 0x04
code_of srlv = function_code 0x06
code_of srav = function_code 0x07
code_of jr = function_code 0x08
code_of jalr = function_code 0x09
code_of syscall = function_code 0x0c
code_of break = function_code 0x0d
code_of mfhi = function_code 0x10
code_of mthi = function_code 0x11
code_of mflo = function_code 0x12
code_of mtlo = function_code 0x13
code_of mult = function_code 0x18
code_of multu = function_code 0x19
code_of div = function_code 0x1a
code_of divu = function_code 0x1b
code_of add = function_code 0x20
code_of addu = function_code 0x21
code_of sub = function_code 0x22
code_of subu = function_code 0x23
code_of and = function_code 0x24
code_of or = function_code 0x25
code_of xor = function_code 0x26
code_of nor = function_code 0x27
code_of slt = function_code 0x2a
code_of sltu = function_code 0x2b
code_of bxx = opcode 0x01
code_of j = opcode 0x02
code_of jal = opcode 0x03
code_of beq = opcode 0x04
code_of bne = opcode 0x05
code_of blez = opcode 0x06
code_of bgtz = opcode 0x07
code_of addi = opcode 0x08
code_of addiu = opcode 0x09
code_of slti = opcode 0x0a
code_of sltiu = opcode 0x0b
code_of andi = opcode 0x0c
code_of ori = opcode 0x0d
code_of xori = opcode 0x0e
code_of lui = opcode 0x0f
code_of cop0 = opcode 0x10
code_of no_coprocessor = opcode 0x11
code_of cop2 = opcode 0x12
code_of lb = opcode 0x20
code_of lh = opcode 0x21
code_of lwl = opcode 0x22
code_of lw = opcode 0x23
code_of lbu = opcode 0x24
code_of lhu = opcode 0x25
code_of lwr = opcode 0x26
code_of sb = opcode 0x28
code_of sh = opcode 0x29
code_of swl = opcode 0x2a
code_of sw = opcode 0x2b
code_of swr = opcode 0x2e
code_of lwc2 = opcode 0x32
code_of swc2 = opcode 0x3a
code_of special = function_code 0x3f
code_of illegal = opcode 0x3f

-- The fields of an instruction word; `low` is there where the last six bits are no function code.
pub record Fields : Type 0 where
  pub rs : ℕ
  pub rt : ℕ
  pub rd : ℕ
  pub amount : ℕ
  pub low : ℕ

pub record Fit (f : Fields) : Type 0 where
  pub rs_fits : f.rs < 2 ^ 5
  pub rt_fits : f.rt < 2 ^ 5
  pub rd_fits : f.rd < 2 ^ 5
  pub amount_fits : f.amount < 2 ^ 5
  pub low_fits : f.low < 2 ^ 6

abbrev pack : ℕ → Fields → ℕ → ℕ
pack high f low =
    high * 2 ^ 26 + f.rs * 2 ^ 21 + f.rt * 2 ^ 16 + f.rd * 2 ^ 11 + f.amount * 2 ^ 6 + low

abbrev high_of : Code → ℕ
high_of (opcode n) = n
high_of (function_code n) = 0

abbrev low_of : Code → Fields → ℕ
low_of (opcode n) f = f.low
low_of (function_code n) f = n

-- The word of an instruction.
unfoldable pub assemble : Op → Fields → ℕ
assemble op f = pack (high_of (code_of op)) f (low_of (code_of op) f)

-- Every field is where the program looks for it.
pub record HasFields (i high : ℕ) (f : Fields) (low : ℕ) : Type 0 where
  pub function_lem : function i ≡ high
  pub subfunction_lem : subfunction i ≡ low
  pub s_lem : s i ≡ f.rs
  pub t_lem : t i ≡ f.rt
  pub d_lem : d i ≡ f.rd
  pub shift_lem : shift i ≡ f.amount
  pub imm_lem : imm i ≡ f.rd * 2 ^ 11 + f.amount * 2 ^ 6 + low
  pub imm_jump_lem :
      imm_jump i ≡ f.rs * 2 ^ 21 + f.rt * 2 ^ 16 + f.rd * 2 ^ 11 + f.amount * 2 ^ 6 + low
  pub word_fits : i < 2 ^ 32

pack-HasFields :
    (high : ℕ) (f : Fields) (low : ℕ)
    → high < 2 ^ 6
    → Fit f
    → low < 2 ^ 6
    → HasFields (pack high f low) high f low
pack-HasFields high f low hh fit hl = record {
  function_lem = omega arith;
  subfunction_lem = omega arith;
  s_lem = omega arith;
  t_lem = omega arith;
  d_lem = omega arith;
  shift_lem = omega arith;
  imm_lem = omega arith;
  imm_jump_lem = omega arith;
  word_fits = omega arith;
}

-- What the two `switch` statements make of the two numbers.
abbrev by_code : ℕ → ℕ → Op
by_code high low = elim (find high primary_table) [ special ↦ find low special_table | op ↦ op ]

decode-by_code :
    (i high : ℕ) (f : Fields) (low : ℕ) → HasFields i high f low → decode i ≡ by_code high low
unfolding decode
decode-by_code i high f low h =
    ap (λ x. by_code x (subfunction i)) h.function_lem ∙ ap (by_code high) h.subfunction_lem

by_code-code_of :
    (op : Op) (f : Fields)
    → op ≢ special
    → by_code (high_of (code_of op)) (low_of (code_of op) f) ≡ op
by_code-code_of special f h = absurd (h refl)
by_code-code_of _ f h = refl

code_of-lt :
    (op : Op) (f : Fields)
    → f.low < 2 ^ 6
    → (high_of (code_of op) < 2 ^ 6) × (low_of (code_of op) f < 2 ^ 6)
code_of-lt op f h = ground arith

-- An instruction word that is put together from the code of any instruction and from fields
-- within their widths decodes to that instruction, and every field is read back as it was put in:
-- the registers, the shift amount, the 16-bit immediate and the jump target. The word of the
-- illegal instruction and that of the coprocessors that are missing are among them.
pub decode-assemble :
    (op : Op) (f : Fields)
    → Fit f
    → op ≢ special
    → (decode (assemble op f) ≡ op)
      × HasFields (assemble op f) (high_of (code_of op)) f (low_of (code_of op) f)
unfolding assemble
decode-assemble op f fit h =
    let (high, low) = code_of-lt op f fit.low_fits in
    let fields = pack-HasFields (high_of (code_of op)) f (low_of (code_of op) f) high fit low in
    (
      decode-by_code (assemble op f) (high_of (code_of op)) f (low_of (code_of op) f) fields
          ∙ by_code-code_of op f h,
      fields,
    )
