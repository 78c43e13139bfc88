-- ===== src/Cpu/Instruction.antt =====
-- The fields of an instruction: the namespace `Instruction` of cpu/cpu.hpp.
use cpp_station.Prelude.{ℕ}
use cpp_station.Word.{low_bits, shr, sign_extend16}

abbrev pub function : ℕ → ℕ
function instruction = shr instruction 26

abbrev pub subfunction : ℕ → ℕ
subfunction instruction = low_bits instruction 6

abbrev pub cop_opcode : ℕ → ℕ
cop_opcode instruction = low_bits (shr instruction 21) 5

abbrev pub t : ℕ → ℕ
t instruction = low_bits (shr instruction 16) 5

abbrev pub s : ℕ → ℕ
s instruction = low_bits (shr instruction 21) 5

abbrev pub d : ℕ → ℕ
d instruction = low_bits (shr instruction 11) 5

abbrev pub imm : ℕ → ℕ
imm instruction = low_bits instruction 16

abbrev pub imm_se : ℕ → ℕ
imm_se instruction = sign_extend16 (low_bits instruction 16)

abbrev pub imm_jump : ℕ → ℕ
imm_jump instruction = low_bits instruction 26

abbrev pub shift : ℕ → ℕ
shift instruction = low_bits (shr instruction 6) 5
