-- ===== src/Memory/Bytes.antt =====
-- A `malloc`ed buffer of a known size, and the little-endian words in it (the shared part of
-- memory/ram.cpp and memory/bios.cpp). A byte is kept as the number that its cast to `uint8_t` gives.
use cpp_station.Prelude.{
  ℕ, ◌+◌, ◌*◌, ◌^◌, ◌/◌, ◌%◌, ◌<◌, bit_or, ltb, ◌≡◌, update, if◌then◌else◌, arith,
}
use cpp_station.Word.Fields.{bit_or_high}
use cpp_station.Outcome.{Outcome, ok, fault}

-- `mData[i]`: outside the buffer the access is undefined.
unfoldable pub read_byte : ℕ → (ℕ → ℕ) → ℕ → Outcome ℕ
read_byte size cells i = if ltb i size then ok (cells i) else fault

unfoldable pub write_byte : ℕ → (ℕ → ℕ) → ℕ → ℕ → Outcome (ℕ → ℕ)
write_byte size cells i v = if ltb i size then ok (update cells i v) else fault

-- `b0 | (b1 << 8) | (b2 << 16) | (b3 << 24)` and `b0 | (b1 << 8)`.
unfoldable pub join32 : ℕ → ℕ → ℕ → ℕ → ℕ
join32 b0 b1 b2 b3 = bit_or (bit_or (bit_or b0 (b1 * 2 ^ 8)) (b2 * 2 ^ 16)) (b3 * 2 ^ 24)

unfoldable pub join16 : ℕ → ℕ → ℕ
join16 b0 b1 = bit_or b0 (b1 * 2 ^ 8)

pub join16_sum : (b0 b1 : ℕ) → b0 < 256 → join16 b0 b1 ≡ b0 + b1 * 2 ^ 8
unfolding join16
join16_sum b0 b1 h = bit_or_high 8 b0 b1 h

pub join32_sum :
    (b0 b1 b2 b3 : ℕ)
    → b0 < 256
    → b1 < 256
    → b2 < 256
    → join32 b0 b1 b2 b3 ≡ b0 + b1 * 2 ^ 8 + b2 * 2 ^ 16 + b3 * 2 ^ 24
unfolding join32
join32_sum b0 b1 b2 b3 h0 h1 h2 = rw (bit_or_high 8 b0 b1 h0) (
    rw (bit_or_high 16 (b0 + b1 * 2 ^ 8) b2 (omega arith))
      (bit_or_high 24 (b0 + b1 * 2 ^ 8 + b2 * 2 ^ 16) b3 (omega arith)))

-- The bytes of a word give it back.
pub join32_bytes :
    (v : ℕ)
    → v < 2 ^ 32
    → join32 (v % 2 ^ 8) (v / 2 ^ 8 % 2 ^ 8) (v / 2 ^ 16 % 2 ^ 8) (v / 2 ^ 24 % 2 ^ 8) ≡ v
join32_bytes v h = omega (
  arith,
  join32_sum (v % 2 ^ 8) (v / 2 ^ 8 % 2 ^ 8) (v / 2 ^ 16 % 2 ^ 8) (v / 2 ^ 24 % 2 ^ 8) (omega arith)
      (omega arith) (omega arith),
)

pub join16_bytes : (v : ℕ) → v < 2 ^ 16 → join16 (v % 2 ^ 8) (v / 2 ^ 8 % 2 ^ 8) ≡ v
join16_bytes v h = omega (arith, join16_sum (v % 2 ^ 8) (v / 2 ^ 8 % 2 ^ 8) (omega arith))

pub join32-lt :
    (b0 b1 b2 b3 : ℕ) → b0 < 256 → b1 < 256 → b2 < 256 → b3 < 256 → join32 b0 b1 b2 b3 < 2 ^ 32
join32-lt b0 b1 b2 b3 h0 h1 h2 h3 = omega (arith, join32_sum b0 b1 b2 b3 h0 h1 h2)

pub join16-lt : (b0 b1 : ℕ) → b0 < 256 → b1 < 256 → join16 b0 b1 < 2 ^ 16
join16-lt b0 b1 h0 h1 = omega (arith, join16_sum b0 b1 h0)
