-- ===== src/Cpu/Overflow.antt =====
-- `AddOverflow` and `SubOverflow` against the integers, and the trapping sums of `Cpu`.
use cpp_station.Prelude.{
  ℕ, zero, suc, ◌+◌, ◌-◌, ◌*◌, ◌/◌, ◌%◌, ◌^◌, ◌<◌, ◌≡◌, ◌↔◌, refl, ◌∙◌, ap, Bool, true, false, ◌==◌,
  if◌then◌else◌, bit_and, bit_xor, arith,
}
use cpp_station.Prelude.Int.{ℤ, pos, negsuc, ◌+ℤ◌, ◌-ℤ◌, ◌≤ℤ◌}
use cpp_station.Word.{add32, sub32, signed32}
use cpp_station.Word.Bits.{bit_and-shr, bit_xor-shr}
use cpp_station.Word.Fields.{bit_and_high, bit_and_mask}
use cpp_station.Cpu.Alu.{add_overflow, sub_overflow}

-- The value fits an `int32_t`.
abbrev pub IsInt32 : ℤ → Type 0
IsInt32 z = (negsuc (2 ^ 31 - 1) ≤ℤ z) × (z ≤ℤ pos (2 ^ 31 - 1))

-- The sign bit of `(x ^ y) & (z ^ w)`.
sign_digit : ℕ → ℕ → ℕ → ℕ → ℕ
sign_digit x y z w = bit_and (bit_xor x y) (bit_xor z w)

sign_mask : (x : ℕ) → bit_and x 0x80000000 ≡ x / 2 ^ 31 % 2 * 2 ^ 31
sign_mask x = bit_and_high 31 x 1 ∙ ap (λ (t : ℕ). t * 2 ^ 31) (bit_and_mask 1 (x / 2 ^ 31))

sign_shift :
    (x y z w : ℕ)
    → bit_and (bit_xor x y) (bit_xor z w) / 2 ^ 31
      ≡ sign_digit (x / 2 ^ 31) (y / 2 ^ 31) (z / 2 ^ 31) (w / 2 ^ 31)
unfolding sign_digit
sign_shift x y z w =
    bit_and-shr 31 (bit_xor x y) (bit_xor z w) ∙ rw (bit_xor-shr 31 x y, bit_xor-shr 31 z w) refl

xor_digit : (x y : ℕ) → x < 2 → y < 2 → bit_xor x y ≡ (if x == y then 0 else 1)
xor_digit zero zero hx hy = refl
xor_digit zero (suc zero) hx hy = refl
xor_digit zero (suc (suc y)) hx hy = absurd (omega arith)
xor_digit (suc zero) zero hx hy = refl
xor_digit (suc zero) (suc zero) hx hy = refl
xor_digit (suc zero) (suc (suc y)) hx hy = absurd (omega arith)
xor_digit (suc (suc x)) y hx hy = absurd (omega arith)

and_digit :
    (p q : Bool)
    → bit_and (if p then 0 else 1) (if q then 0 else 1) ≡ (if p then 0 else if q then 0 else 1)
and_digit true true = refl
and_digit true false = refl
and_digit false true = refl
and_digit false false = refl

-- The masked word is 0 unless the sign bits differ in both pairs.
masked_sign :
    (x y z w : ℕ)
    → x < 2 ^ 32
    → y < 2 ^ 32
    → z < 2 ^ 32
    → w < 2 ^ 32
    → bit_and (bit_and (bit_xor x y) (bit_xor z w)) 0x80000000
      ≡ (if x / 2 ^ 31 == y / 2 ^ 31 then 0 else if z / 2 ^ 31 == w / 2 ^ 31 then 0 else 1) * 2 ^ 31
unfolding sign_digit
masked_sign x y z w hx hy hz hw =
    let both = bit_and (bit_xor x y) (bit_xor z w) in
    let digit : both / 2 ^ 31
        ≡ (if x / 2 ^ 31 == y / 2 ^ 31 then 0 else if z / 2 ^ 31 == w / 2 ^ 31 then 0 else 1) =
      rw
        (
          sign_shift x y z w,
          xor_digit (x / 2 ^ 31) (y / 2 ^ 31) (omega arith) (omega arith),
          xor_digit (z / 2 ^ 31) (w / 2 ^ 31) (omega arith) (omega arith),
        )
        (and_digit (x / 2 ^ 31 == y / 2 ^ 31) (z / 2 ^ 31 == w / 2 ^ 31)) in
    ground (arith, sign_mask both, digit)

-- For all pairs of words the test of `opAdd` and `opAddi` fires exactly when the sum of the signed
-- numbers does not fit 32 bits; where it does not fire, the word that is stored is that sum.
pub add_overflow_iff :
    (a b : ℕ)
    → a < 2 ^ 32
    → b < 2 ^ 32
    → ((add_overflow a b (add32 a b) ≡ true) ↔ (¬ IsInt32 (signed32 a +ℤ signed32 b)))
      × (add_overflow a b (add32 a b) ≡ false → signed32 (add32 a b) ≡ signed32 a +ℤ signed32 b)
unfolding add_overflow
add_overflow_iff a b ha hb =
    let v = (a + b) % 2 ^ 32 in
    let mask = masked_sign v a v b (omega arith) ha (omega arith) hb in
    ((λ e h. ground (arith, mask), λ h. ground (arith, mask)), λ e. ground (arith, mask))

-- The same for the difference and the test of `opSub`.
pub sub_overflow_iff :
    (a b : ℕ)
    → a < 2 ^ 32
    → b < 2 ^ 32
    → ((sub_overflow a b (sub32 a b) ≡ true) ↔ (¬ IsInt32 (signed32 a -ℤ signed32 b)))
      × (sub_overflow a b (sub32 a b) ≡ false → signed32 (sub32 a b) ≡ signed32 a -ℤ signed32 b)
unfolding sub_overflow
sub_overflow_iff a b ha hb =
    let v = (a + 2 ^ 32 - b) % 2 ^ 32 in
    let mask = masked_sign v a a b (omega arith) ha ha hb in
    ((λ e h. ground (arith, mask), λ h. ground (arith, mask)), λ e. ground (arith, mask))
