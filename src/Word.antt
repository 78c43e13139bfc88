-- ===== src/Word.antt =====
-- Machine words of the program as native numbers below `2 ^ w`: the casts, shifts, wrapping sums
-- and signed readings that C++17 gives `uint8_t`, `uint16_t` and `uint32_t`.
pub mod Bits
pub mod Fields
use cpp_station.Prelude.{ℕ, ◌+◌, ◌-◌, ◌*◌, ◌/◌, ◌%◌, ◌^◌, Bool, ltb, ◌==◌, if◌then◌else◌}
use cpp_station.Prelude.Int.{ℤ, pos, negsuc, ltb_ℤ}

-- `x >> k` of an unsigned word, and `x & (2^k - 1)`.
abbrev pub shr : ℕ → ℕ → ℕ
shr x k = x / 2 ^ k

abbrev pub low_bits : ℕ → ℕ → ℕ
low_bits x k = x % 2 ^ k

-- `(x >> k) & 1`, as a `bool`.
abbrev pub test_bit : ℕ → ℕ → Bool
test_bit x k = x / 2 ^ k % 2 == 1

-- The casts to `uint8_t`, `uint16_t` and `uint32_t`.
abbrev pub u8 : ℕ → ℕ
u8 x = x % 2 ^ 8

abbrev pub u16 : ℕ → ℕ
u16 x = x % 2 ^ 16

abbrev pub u32 : ℕ → ℕ
u32 x = x % 2 ^ 32

-- `uint32_t` sums, differences, left shifts and complements.
abbrev pub add32 : ℕ → ℕ → ℕ
add32 a b = (a + b) % 2 ^ 32

-- For `b` of at most 32 bits; the modulus goes first since `-` on ℕ stops at 0.
abbrev pub sub32 : ℕ → ℕ → ℕ
sub32 a b = (a + 2 ^ 32 - b) % 2 ^ 32

abbrev pub shl32 : ℕ → ℕ → ℕ
shl32 x k = x * 2 ^ k % 2 ^ 32

abbrev pub not32 : ℕ → ℕ
not32 x = 2 ^ 32 - 1 - x

-- `(int32_t)x >> k`: the sign bit fills from the left.
abbrev pub sar32 : ℕ → ℕ → ℕ
sar32 x k = if ltb x (2 ^ 31) then x / 2 ^ k else not32 (not32 x / 2 ^ k)

-- `(uint32_t)(int8_t)x` and `(uint32_t)(int16_t)x`.
abbrev pub sign_extend8 : ℕ → ℕ
sign_extend8 x = if ltb x 0x80 then x else x + 0xffffff00

abbrev pub sign_extend16 : ℕ → ℕ
sign_extend16 x = if ltb x 0x8000 then x else x + 0xffff0000

-- The integer that the bits of an `int32_t` stand for, and `(int32_t)a < (int32_t)b`.
abbrev pub signed32 : ℕ → ℤ
signed32 x = if ltb x (2 ^ 31) then pos x else negsuc (2 ^ 32 - x - 1)

abbrev pub lt_signed32 : ℕ → ℕ → Bool
lt_signed32 a b = ltb_ℤ (signed32 a) (signed32 b)
