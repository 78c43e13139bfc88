-- ===== src/Word/Bits.antt =====
-- One binary digit at a time: the equations that the native `&`, `|` and `^` satisfy, and what
-- follows for shifts and bounds from such an equation alone.
use Prim.Native.Nat.{digits, bitwise, differ, bit_and-bitwise, bit_or-bitwise, bit_xor-bitwise}
use native.Mathlib.Nat.{pow-suc, pow-succ', div-div-eq-div-mul, div-one}
use cpp_station.Prelude.{
  ℕ, zero, suc, ◌+◌, ◌*◌, ◌/◌, ◌%◌, ◌^◌, ◌≤◌, ◌<◌, bit_and, bit_or, bit_xor, min, max, ◌≡◌, refl,
  sym, arith,
}

-- The recursion that defines the operations counts down a number that only has to be large
-- enough, so it may be replaced by another.
module _ (rest : ℕ → ℕ) (op : ℕ → ℕ → ℕ) where
  digits_bound : (x k l y : ℕ) → x ≤ k → x ≤ l → digits rest op k x y ≡ digits rest op l x y
  digits_bound zero zero zero y hk hl = refl
  digits_bound zero zero (suc l) y hk hl = refl
  digits_bound zero (suc k) zero y hk hl = refl
  digits_bound zero (suc k) (suc l) y hk hl = refl
  digits_bound (suc x) zero l y hk hl = absurd (omega arith)
  digits_bound (suc x) (suc k) zero y hk hl = absurd (omega arith)
  digits_bound (suc x) (suc k) (suc l) y hk hl =
      rw (digits_bound (suc x / 2) k l (y / 2) (omega arith) (omega arith))

  halve :
      (x y : ℕ)
      → bitwise rest op (suc x) y ≡ bitwise rest op (suc x / 2) (y / 2) * 2 + op (suc x % 2) (y % 2)
  halve x y = rw (digits_bound (suc x / 2) x (suc x / 2) (y / 2) (omega arith) (omega arith))

pub bit_and_halves : (x y : ℕ) → bit_and x y ≡ bit_and (x / 2) (y / 2) * 2 + min (x % 2) (y % 2)
bit_and_halves zero y = simp bit_and-bitwise (omega arith)
bit_and_halves (suc x) y = simp bit_and-bitwise (halve (λ _. 0) min x y)

pub bit_or_halves : (x y : ℕ) → bit_or x y ≡ bit_or (x / 2) (y / 2) * 2 + max (x % 2) (y % 2)
bit_or_halves zero y = simp bit_or-bitwise (omega arith)
bit_or_halves (suc x) y = simp bit_or-bitwise (halve (λ b. b) max x y)

pub bit_xor_halves : (x y : ℕ) → bit_xor x y ≡ bit_xor (x / 2) (y / 2) * 2 + differ (x % 2) (y % 2)
bit_xor_halves zero y = simp bit_xor-bitwise (omega arith)
bit_xor_halves (suc x) y = simp bit_xor-bitwise (halve (λ b. b) differ x y)

differ-lt : (x y : ℕ) → x < 2 → y < 2 → differ x y < 2
differ-lt zero y hx hy = hy
differ-lt (suc zero) zero hx hy = omega arith
differ-lt (suc zero) (suc zero) hx hy = omega arith
differ-lt (suc zero) (suc (suc y)) hx hy = absurd (omega arith)
differ-lt (suc (suc x)) y hx hy = absurd (omega arith)

pub differ_lem : (x y : ℕ) → x < 2 → y < 2 → differ x y ≡ (x + y) % 2
differ_lem zero zero hx hy = refl
differ_lem zero (suc zero) hx hy = refl
differ_lem zero (suc (suc y)) hx hy = absurd (omega arith)
differ_lem (suc zero) zero hx hy = refl
differ_lem (suc zero) (suc zero) hx hy = refl
differ_lem (suc zero) (suc (suc y)) hx hy = absurd (omega arith)
differ_lem (suc (suc x)) y hx hy = absurd (omega arith)

pub div-two-pow-suc : (k x : ℕ) → x / 2 ^ suc k ≡ x / 2 / 2 ^ k
div-two-pow-suc k x = rw (pow-succ' 2 k) (sym (div-div-eq-div-mul x 2 (2 ^ k)))

-- An operation that is computed digit by digit.
module _ (f op : ℕ → ℕ → ℕ)
    (halves : (x y : ℕ) → f x y ≡ f (x / 2) (y / 2) * 2 + op (x % 2) (y % 2))
    (digit : (x y : ℕ) → x < 2 → y < 2 → op x y < 2) where
  digitwise_half : (x y : ℕ) → f x y / 2 ≡ f (x / 2) (y / 2)
  digitwise_half x y = omega (arith, halves x y, digit (x % 2) (y % 2) (omega arith) (omega arith))

  -- A shift goes through it,
  digitwise_shift : (k x y : ℕ) → f x y / 2 ^ k ≡ f (x / 2 ^ k) (y / 2 ^ k)
  digitwise_shift zero x y = simp div-one
  digitwise_shift (suc k) x y =
      rw (div-two-pow-suc k (f x y), div-two-pow-suc k x, div-two-pow-suc k y, digitwise_half x y)
        (digitwise_shift k (x / 2) (y / 2))

  -- and so does a bound on the number of digits.
  digitwise_bound : f 0 0 ≡ 0 → (k x y : ℕ) → x < 2 ^ k → y < 2 ^ k → f x y < 2 ^ k
  digitwise_bound z zero x y hx hy = ground arith
  digitwise_bound z (suc k) x y hx hy = omega (
    arith,
    halves x y,
    digit (x % 2) (y % 2) (omega arith) (omega arith),
    pow-suc 2 k,
    digitwise_bound z k (x / 2) (y / 2) (omega (arith, pow-suc 2 k)) (omega (arith, pow-suc 2 k)),
  )

min-lt : (x y : ℕ) → x < 2 → y < 2 → min x y < 2
min-lt x y hx hy = omega arith

max-lt : (x y : ℕ) → x < 2 → y < 2 → max x y < 2
max-lt x y hx hy = omega arith

pub bit_and-lt : (k x y : ℕ) → x < 2 ^ k → y < 2 ^ k → bit_and x y < 2 ^ k
bit_and-lt = digitwise_bound bit_and min bit_and_halves min-lt refl

pub bit_or-lt : (k x y : ℕ) → x < 2 ^ k → y < 2 ^ k → bit_or x y < 2 ^ k
bit_or-lt = digitwise_bound bit_or max bit_or_halves max-lt refl

pub bit_xor-lt : (k x y : ℕ) → x < 2 ^ k → y < 2 ^ k → bit_xor x y < 2 ^ k
bit_xor-lt = digitwise_bound bit_xor differ bit_xor_halves differ-lt refl

pub bit_and-shr : (k x y : ℕ) → bit_and x y / 2 ^ k ≡ bit_and (x / 2 ^ k) (y / 2 ^ k)
bit_and-shr = digitwise_shift bit_and min bit_and_halves min-lt

pub bit_or-shr : (k x y : ℕ) → bit_or x y / 2 ^ k ≡ bit_or (x / 2 ^ k) (y / 2 ^ k)
bit_or-shr = digitwise_shift bit_or max bit_or_halves max-lt

pub bit_xor-shr : (k x y : ℕ) → bit_xor x y / 2 ^ k ≡ bit_xor (x / 2 ^ k) (y / 2 ^ k)
bit_xor-shr = digitwise_shift bit_xor differ bit_xor_halves differ-lt
