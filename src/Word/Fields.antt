-- ===== src/Word/Fields.antt =====
-- Bit fields: `&` with a mask and `|` of fields that do not overlap, as arithmetic.
use Prim.Native.Nat.{bit_or-bitwise}
use native.Mathlib.Nat.{
  pow-suc, pow-succ', one-le-pow, mul-one, div-one, mod-one, zero-add, add-zero, mod_def,
  mul-div-le,
}
use cpp_station.Prelude.{
  ℕ, zero, suc, ◌+◌, ◌-◌, ◌*◌, ◌/◌, ◌%◌, ◌^◌, ◌≤◌, ◌<◌, bit_and, bit_or, ◌≡◌, refl, ap, List, [],
  ◌∷◌, arith,
}
use cpp_station.Word.Bits.{bit_and_halves, bit_or_halves, div-two-pow-suc}

-- Each of these is proved for all numbers up to a bound, by halving them.
bit_and-zero_up_to : (n x : ℕ) → x ≤ n → bit_and x 0 ≡ 0
bit_and-zero_up_to n zero h = refl
bit_and-zero_up_to zero (suc x) h = absurd (omega arith)
bit_and-zero_up_to (suc n) (suc x) h =
    omega (arith, bit_and_halves (suc x) 0, bit_and-zero_up_to n (suc x / 2) (omega arith))

bit_or-zero_up_to : (n x : ℕ) → x ≤ n → bit_or x 0 ≡ x
bit_or-zero_up_to n zero h = refl
bit_or-zero_up_to zero (suc x) h = absurd (omega arith)
bit_or-zero_up_to (suc n) (suc x) h =
    omega (arith, bit_or_halves (suc x) 0, bit_or-zero_up_to n (suc x / 2) (omega arith))

pub bit_and-zero : (x : ℕ) → bit_and x 0 ≡ 0
bit_and-zero x = bit_and-zero_up_to x x (omega arith)

pub bit_or-zero : (x : ℕ) → bit_or x 0 ≡ x
bit_or-zero x = bit_or-zero_up_to x x (omega arith)

pub zero-bit_or : (x : ℕ) → bit_or 0 x ≡ x
zero-bit_or x = bit_or-bitwise 0 x

mul-two-pow-suc : (k m : ℕ) → m * 2 ^ suc k ≡ 2 * (m * 2 ^ k)
mul-two-pow-suc k m = omega (arith, ap (λ (t : ℕ). m * t) (pow-suc 2 k))

-- A field above `k` low bits is added to them.
pub bit_or_high : (k low high : ℕ) → low < 2 ^ k → bit_or low (high * 2 ^ k) ≡ low + high * 2 ^ k
bit_or_high zero low high h = ground (arith, zero-bit_or (high * 1))
bit_or_high (suc k) low high h = omega (
  arith,
  bit_or_halves low (high * 2 ^ suc k),
  mul-two-pow-suc k high,
  ap (λ (t : ℕ). bit_or (low / 2) t) half,
  bit_or_high k (low / 2) high (omega (arith, pow-suc 2 k)),
)
  where
    half : high * 2 ^ suc k / 2 ≡ high * 2 ^ k
    half = omega (arith, mul-two-pow-suc k high)

-- The same with the higher field on the left.
pub bit_or_low : (k low high : ℕ) → low < 2 ^ k → bit_or (high * 2 ^ k) low ≡ high * 2 ^ k + low
bit_or_low zero low high h = ground (arith, bit_or-zero (high * 1))
bit_or_low (suc k) low high h = omega (
  arith,
  bit_or_halves (high * 2 ^ suc k) low,
  mul-two-pow-suc k high,
  ap (λ (t : ℕ). bit_or t (low / 2)) half,
  bit_or_low k (low / 2) high (omega (arith, pow-suc 2 k)),
)
  where
    half : high * 2 ^ suc k / 2 ≡ high * 2 ^ k
    half = omega (arith, mul-two-pow-suc k high)

-- A mask whose `k` low bits are clear clears them.
pub bit_and_high : (k x mask : ℕ) → bit_and x (mask * 2 ^ k) ≡ bit_and (x / 2 ^ k) mask * 2 ^ k
bit_and_high zero x mask = simp (mul-one, div-one)
bit_and_high (suc k) x mask = omega (
  arith,
  bit_and_halves x (mask * 2 ^ suc k),
  mul-two-pow-suc k mask,
  mul-two-pow-suc k (bit_and (x / 2 ^ suc k) mask),
  ap (λ (t : ℕ). bit_and (x / 2) t) half,
  bit_and_high k (x / 2) mask,
  ap (λ (t : ℕ). bit_and t mask * 2 ^ k) (div-two-pow-suc k x),
)
  where
    half : mask * 2 ^ suc k / 2 ≡ mask * 2 ^ k
    half = omega (arith, mul-two-pow-suc k mask)

-- A mask of `k` ones keeps the remainder.
ones_up_to : (k x : ℕ) → bit_and x (2 ^ k - 1) ≡ x % 2 ^ k
ones_up_to zero x = simp (bit_and-zero, mod-one)
ones_up_to (suc k) x = omega (
  arith,
  bit_and_halves x (2 ^ suc k - 1),
  ones_up_to k (x / 2),
  pow-succ' 2 k,
  one-le-pow k 2 (omega arith),
  ap (λ (t : ℕ). bit_and (x / 2) t) half,
  low_digit,
)
  where
    half : (2 ^ suc k - 1) / 2 ≡ 2 ^ k - 1
    half = omega (arith, pow-succ' 2 k, one-le-pow k 2 (omega arith))

    low_digit : x % 2 ^ suc k ≡ x % 2 + 2 * (x / 2 % 2 ^ k)
    low_digit =
        rw (mod_def x (2 ^ suc k), div-two-pow-suc k x)
          (omega (
            arith,
            pow-succ' 2 k,
            ap (λ (t : ℕ). t * (x / 2 / 2 ^ k)) (pow-succ' 2 k),
            mod_def (x / 2) (2 ^ k),
            mul-div-le (x / 2) (2 ^ k),
          ))

pub bit_and_mask : (k x : ℕ) → bit_and x (2 ^ k - 1) ≡ x % 2 ^ k
bit_and_mask = ones_up_to

-- A mask in two parts acts on each part of a word by itself.
pub bit_and_concat :
    (k x high low : ℕ)
    → low < 2 ^ k
    → bit_and x (low + high * 2 ^ k) ≡ bit_and (x / 2 ^ k) high * 2 ^ k + bit_and x low
bit_and_concat zero x high zero h = simp (bit_and-zero, mul-one, div-one, zero-add, add-zero)
bit_and_concat zero x high (suc low) h = absurd (omega arith)
bit_and_concat (suc k) x high low h = omega (
  arith,
  bit_and_halves x (low + high * 2 ^ suc k),
  bit_and_halves x low,
  mul-two-pow-suc k high,
  mul-two-pow-suc k (bit_and (x / 2 ^ suc k) high),
  ap (λ (t : ℕ). bit_and (x / 2) t) half,
  bit_and_concat k (x / 2) high (low / 2) (omega (arith, pow-suc 2 k)),
  ap (λ (t : ℕ). bit_and t high * 2 ^ k) (div-two-pow-suc k x),
)
  where
    half : (low + high * 2 ^ suc k) / 2 ≡ low / 2 + high * 2 ^ k
    half = omega (arith, mul-two-pow-suc k high)

-- `r |= v << k` for each entry (k, v) of a list, and the sum that it is where no entry reaches down
-- into the bits set before.
abbrev pub or_fields : ℕ → List (ℕ × ℕ) → ℕ
or_fields r [] = r
or_fields r ((k, v) ∷ fs) = or_fields (bit_or r (v * 2 ^ k)) fs

abbrev pub sum_fields : ℕ → List (ℕ × ℕ) → ℕ
sum_fields r [] = r
sum_fields r ((k, v) ∷ fs) = sum_fields (r + v * 2 ^ k) fs

abbrev pub FieldsFit : ℕ → List (ℕ × ℕ) → Type 0
FieldsFit r [] = Unit
FieldsFit r ((k, v) ∷ fs) = (r < 2 ^ k) × FieldsFit (r + v * 2 ^ k) fs

pub or_fields-eq-sum_fields :
    (r : ℕ) (fs : List (ℕ × ℕ)) → FieldsFit r fs → or_fields r fs ≡ sum_fields r fs
or_fields-eq-sum_fields r [] h = refl
or_fields-eq-sum_fields r ((k, v) ∷ fs) h =
    rw (bit_or_high k r v h.0) (or_fields-eq-sum_fields (r + v * 2 ^ k) fs h.1)

-- `|` acts on two parts of a word by themselves.
pub bit_or_concat :
    (k x y u v : ℕ)
    → x < 2 ^ k
    → y < 2 ^ k
    → bit_or (x + u * 2 ^ k) (y + v * 2 ^ k) ≡ bit_or x y + bit_or u v * 2 ^ k
bit_or_concat zero zero zero u v hx hy = simp (mul-one, zero-add, bit_or-zero)
bit_or_concat zero zero (suc y) u v hx hy = absurd (omega arith)
bit_or_concat zero (suc x) y u v hx hy = absurd (omega arith)
bit_or_concat (suc k) x y u v hx hy = omega (
  arith,
  bit_or_halves (x + u * 2 ^ suc k) (y + v * 2 ^ suc k),
  bit_or_halves x y,
  mul-two-pow-suc k u,
  mul-two-pow-suc k v,
  mul-two-pow-suc k (bit_or u v),
  ap (λ (t : ℕ). bit_or t ((y + v * 2 ^ suc k) / 2)) (half x u),
  ap (λ (t : ℕ). bit_or (x / 2 + u * 2 ^ k) t) (half y v),
  bit_or_concat k (x / 2) (y / 2) u v (omega (arith, pow-suc 2 k)) (omega (arith, pow-suc 2 k)),
)
  where
    half : (a b : ℕ) → (a + b * 2 ^ suc k) / 2 ≡ a / 2 + b * 2 ^ k
    half a b = omega (arith, mul-two-pow-suc k b)
