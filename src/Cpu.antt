-- ===== src/Cpu.antt =====
-- The processor: cpu/cpu.hpp and cpu/cpu.cpp.
pub mod State
pub mod Instruction
pub mod Alu
pub mod Overflow
pub mod MulDiv
pub mod Products
pub mod Branch
pub mod Memory
pub mod Unaligned
pub mod Coprocessor
pub mod Exceptions
pub mod Invariant
pub mod Decode
pub mod Arithmetic
pub mod Targets
pub mod Traps
pub mod Jumps
pub mod Loads
pub mod Stores
pub mod Assembly
pub mod Step
pub mod Flow
pub mod Delay
