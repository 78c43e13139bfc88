-- ===== src/Cpu/Products.antt =====
-- The results of MULT, MULTU, DIV and DIVU in HI and LO.
use native.Mathlib.Nat.{mul-le-mul, div-add-mod', mod-lt, div-one, div-le_self, mul-le-mul_left}
use native.Mathlib.Decide.{dec_lt}
use cpp_station.Prelude.{
  ℕ, suc, ◌+◌, ◌-◌, ◌*◌, ◌/◌, ◌%◌, ◌^◌, ◌≤◌, ◌<◌, ◌≡◌, ◌≢◌, ◌⊎◌, Bool, refl, inl, inr, true, false,
  zero, sym, ==_false, Bool-cases, ◌&&◌, ltb, ◌==◌, if◌then◌else◌, arith,
}
use cpp_station.Prelude.Int.{ℤ, pos, negsuc, sub_ℕ, ◌+ℤ◌, ◌*ℤ◌}
use cpp_station.Word.{signed32}
use cpp_station.Cpu.Instruction.{s, t}
use cpp_station.Cpu.State.{Cpu, reg}
use cpp_station.Cpu.MulDiv.{
  op_mult, op_multu, op_div, op_divu, quotient32, remainder32, magnitude, negate32, to_u64,
}

pub to_u64-lt : (z : ℤ) → to_u64 z < 2 ^ 64
to_u64-lt (pos n) = omega arith
to_u64-lt (negsuc n) = omega arith

-- For registers of 32 bits, HI and LO together hold the whole product: of MULTU as an unsigned
-- number, of MULT as the bits of the signed product in 64 bits.
pub products_in_hi_lo :
    (c : Cpu) (i : ℕ)
    → reg c (s i) < 2 ^ 32
    → reg c (t i) < 2 ^ 32
    → ((op_multu c i).hi * 2 ^ 32 + (op_multu c i).lo ≡ reg c (s i) * reg c (t i))
      × ((op_mult c i).hi * 2 ^ 32 + (op_mult c i).lo
          ≡ to_u64 (signed32 (reg c (s i)) *ℤ signed32 (reg c (t i))))
unfolding op_multu op_mult
products_in_hi_lo c i ha hb =
    let small : reg c (s i) * reg c (t i) ≤ (2 ^ 32 - 1) * (2 ^ 32 - 1) =
      mul-le-mul {n₂ = 2 ^ 32 - 1} {m₂ = 2 ^ 32 - 1} (omega arith) (omega arith) in
    (
      omega (arith, small),
      omega (arith, to_u64-lt (signed32 (reg c (s i)) *ℤ signed32 (reg c (t i)))),
    )

-- DIVU by a divisor other than 0 gives the quotient and a remainder smaller than the divisor.
pub op_divu_lem :
    (c : Cpu) (i : ℕ)
    → reg c (t i) ≢ 0
    → (reg c (s i) ≡ (op_divu c i).lo * reg c (t i) + (op_divu c i).hi)
      × ((op_divu c i).hi < reg c (t i))
unfolding op_divu
op_divu_lem c i ne =
    rw (==_false (reg c (t i)) 0 ne)
      (sym (div-add-mod' (reg c (s i)) (reg c (t i))), mod-lt (reg c (s i)) (omega arith))

-- -q, as an integer.
abbrev minus : ℕ → ℤ
minus q = sub_ℕ 0 q

signed32-negate32 : (q : ℕ) → q ≤ 2 ^ 31 → signed32 (negate32 q) ≡ minus q
signed32-negate32 q h = ground arith

-- Truncating division by the signs of its operands, over the magnitudes.
pos-by-neg : (q d r : ℕ) → pos (q * suc d + r) ≡ minus q *ℤ negsuc d +ℤ pos r
pos-by-neg zero d r = ground arith
pos-by-neg (suc q) d r = ground arith

neg-by-pos : (q d r : ℕ) → minus (q * d + r) ≡ minus q *ℤ pos d +ℤ minus r
neg-by-pos zero d r = ground arith
neg-by-pos (suc q) d r = ground arith

neg-by-neg : (q d r : ℕ) → minus (q * suc d + r) ≡ pos q *ℤ negsuc d +ℤ minus r
neg-by-neg q d r = ground arith

pos_pos : (m d q r : ℕ) → m ≡ q * d + r → pos m ≡ pos q *ℤ pos d +ℤ pos r
pos_pos m d q r e = ground arith

pos_neg : (m d q r : ℕ) → m ≡ q * d + r → 0 < d → pos m ≡ minus q *ℤ minus d +ℤ pos r
pos_neg m zero q r e h = absurd (omega arith)
pos_neg m (suc d) q r e h = ground (arith, pos-by-neg q d r)

neg_pos : (m d q r : ℕ) → m ≡ q * d + r → minus m ≡ minus q *ℤ pos d +ℤ minus r
neg_pos m d q r e = rw e (neg-by-pos q d r)

neg_neg : (m d q r : ℕ) → m ≡ q * d + r → 0 < d → minus m ≡ pos q *ℤ minus d +ℤ minus r
neg_neg m zero q r e h = absurd (omega arith)
neg_neg m (suc d) q r e h = ground (arith, neg-by-neg q d r)

-- A word by its sign.
signed32-cases :
    (x : ℕ)
    → x < 2 ^ 32
    → ((ltb x (2 ^ 31) ≡ true) × (magnitude x ≡ x) × (signed32 x ≡ pos (magnitude x)))
      ⊎ ((ltb x (2 ^ 31) ≡ false) × (0 < magnitude x) × (signed32 x ≡ minus (magnitude x)))
signed32-cases x h = ground arith

-- The quotient of two negative numbers fits, but for -2^31 by -1.
quotient_fits : (m d : ℕ) → m ≤ 2 ^ 31 → 0 < d → ¬ ((m ≡ 2 ^ 31) × (d ≡ 1)) → m / d < 2 ^ 31
quotient_fits m d hm hd safe = elim (dec_lt 1 d) [
  | yes big ↦
      let q = m / d in
      let whole = div-add-mod' m d in
      let twice : q * 2 ≤ q * d = mul-le-mul_left q big in omega arith
  | no small ↦ let one : d ≡ 1 = omega arith in rw (one, div-one) (grind arith)
]

-- Two words `q` and `r` are the quotient and the remainder of the words `n` and `d`, all signed.
abbrev pub IsDivision : ℕ → ℕ → ℕ → ℕ → Type 0
IsDivision n d q r =
    (signed32 n ≡ signed32 q *ℤ signed32 d +ℤ signed32 r) × (magnitude r < magnitude d)

-- By the signs of `n` and `d`.
division_by_signs :
    (sn sd : Bool) (n d : ℕ)
    → ltb n (2 ^ 31) ≡ sn
    → ltb d (2 ^ 31) ≡ sd
    → (quotient32 n d ≡ (
        if sn
        then if sd then magnitude n / magnitude d else negate32 (magnitude n / magnitude d)
        else if sd
        then negate32 (magnitude n / magnitude d)
        else magnitude n / magnitude d))
      × (remainder32 n d
          ≡ (if sn then magnitude n % magnitude d else negate32 (magnitude n % magnitude d)))
unfolding quotient32 remainder32
division_by_signs sn sd n d en ed = (rw (en, ed) refl, rw en refl)

transfer :
    (a b c r a' b' c' r' : ℤ)
    → a ≡ a'
    → b ≡ b'
    → c ≡ c'
    → r ≡ r'
    → a' ≡ c' *ℤ b' +ℤ r'
    → a ≡ c *ℤ b +ℤ r
transfer a b c r a' b' c' r' ea eb ec er h = rw (ea, eb, ec, er) h

magnitude-negate32 : (r : ℕ) → r ≤ 2 ^ 31 → magnitude (negate32 r) ≡ r
magnitude-negate32 r h = ground arith

signed32_small : (q : ℕ) → q < 2 ^ 31 → (signed32 q ≡ pos q) × (magnitude q ≡ q)
signed32_small q h = (ground arith, ground arith)

module _ (n d : ℕ) (hn : n < 2 ^ 32) (hd : d < 2 ^ 32) (ne : d ≢ 0)
    (safe : ¬ ((n ≡ 0x80000000) × (d ≡ 0xffffffff))) where
  abbrev quotient : ℕ
  quotient = magnitude n / magnitude d

  abbrev remainder : ℕ
  remainder = magnitude n % magnitude d

  magnitudes :
      (0 < magnitude d)
      × (magnitude d ≤ 2 ^ 31)
      × (magnitude n ≤ 2 ^ 31)
      × (ltb n (2 ^ 31) ≡ true → magnitude n < 2 ^ 31)
      × (ltb n (2 ^ 31) ≡ false
          → ltb d (2 ^ 31) ≡ false
          → ¬ ((magnitude n ≡ 2 ^ 31) × (magnitude d ≡ 1)))
  magnitudes = (
    ground arith,
    ground arith,
    ground arith,
    λ e. ground arith,
    λ e f g. safe (ground arith, ground arith),
  )

  whole : magnitude n ≡ quotient * magnitude d + remainder
  whole = sym (div-add-mod' (magnitude n) (magnitude d))

  remainder-lt : remainder < magnitude d
  remainder-lt = mod-lt (magnitude n) magnitudes.0

  quotient-le : quotient ≤ magnitude n
  quotient-le = div-le_self (magnitude n) (magnitude d)

  division_lem : IsDivision n d (quotient32 n d) (remainder32 n d)
  division_lem =
      let bounds = magnitudes in
      let fits : quotient ≤ 2 ^ 31 = omega (arith, quotient-le) in
      let small : remainder < 2 ^ 31 = omega (arith, remainder-lt) in
      let by_signs = λ (sn sd : Bool). division_by_signs sn sd n d in
      elim (signed32-cases n hn) [
        | inl (sn, mn, en) ↦ elim (signed32-cases d hd) [
          | inl (sd, md, ed) ↦
              let (eq, er) = by_signs true true sn sd in
              rw (eq, er)
                (
                  transfer (signed32 n) (signed32 d) (signed32 quotient) (signed32 remainder)
                      (pos (magnitude n)) (pos (magnitude d)) (pos quotient) (pos remainder) en ed
                      (signed32_small quotient (omega (arith, bounds.3 sn, quotient-le))).0
                      (signed32_small remainder small).0
                      (pos_pos (magnitude n) (magnitude d) quotient remainder whole),
                  rw (signed32_small remainder small).1 remainder-lt,
                )
          | inr (sd, md, ed) ↦
              let (eq, er) = by_signs true false sn sd in
              rw (eq, er)
                (
                  transfer (signed32 n) (signed32 d) (signed32 (negate32 quotient))
                      (signed32 (remainder)) (pos (magnitude n)) (minus (magnitude d))
                      (minus quotient) (pos remainder) en ed (signed32-negate32 quotient fits)
                      (signed32_small remainder small).0
                      (pos_neg (magnitude n) (magnitude d) quotient remainder whole bounds.0),
                  rw ((signed32_small remainder small).1) remainder-lt,
                )
        ]
        | inr (sn, mn, en) ↦ elim (signed32-cases d hd) [
          | inl (sd, md, ed) ↦
              let (eq, er) = by_signs false true sn sd in
              rw (eq, er)
                (
                  transfer (signed32 n) (signed32 d) (signed32 (negate32 quotient))
                      (signed32 (negate32 remainder)) (minus (magnitude n)) (pos (magnitude d))
                      (minus quotient) (minus remainder) en ed (signed32-negate32 quotient fits)
                      (signed32-negate32 remainder (omega arith))
                      (neg_pos (magnitude n) (magnitude d) quotient remainder whole),
                  rw (magnitude-negate32 remainder (omega arith)) remainder-lt,
                )
          | inr (sd, md, ed) ↦
              let (eq, er) = by_signs false false sn sd in
              rw (eq, er)
                (
                  transfer (signed32 n) (signed32 d) (signed32 (quotient))
                      (signed32 (negate32 remainder)) (minus (magnitude n)) (minus (magnitude d))
                      (pos quotient) (minus remainder) en ed
                      (signed32_small quotient (
                        quotient_fits (magnitude n) (magnitude d) bounds.2 bounds.0
                          (bounds.4 sn sd))).0
                      (signed32-negate32 remainder (omega arith))
                      (neg_neg (magnitude n) (magnitude d) quotient remainder whole bounds.0),
                  rw (magnitude-negate32 remainder (omega arith)) remainder-lt,
                )
        ]
      ]

-- DIV, all branches, for registers of 32 bits: by 0 the remainder is the dividend and the
-- quotient -1 or 1; -2^31 by -1 gives -2^31 and 0; any other division gives a signed quotient and
-- remainder that make up the dividend, the remainder smaller in magnitude than the divisor.
pub op_div-cases :
    (c : Cpu) (i : ℕ)
    → reg c (s i) < 2 ^ 32
    → reg c (t i) < 2 ^ 32
    → ((reg c (t i) ≡ 0)
        × ((op_div c i).hi ≡ reg c (s i))
        × (signed32 (op_div c i).lo ≡ (if ltb (reg c (s i)) (2 ^ 31) then negsuc 0 else pos 1)))
      ⊎ ((reg c (s i) ≡ 0x80000000)
          × (reg c (t i) ≡ 0xffffffff)
          × ((op_div c i).lo ≡ 0x80000000)
          × ((op_div c i).hi ≡ 0))
      ⊎ ((reg c (t i) ≢ 0) × IsDivision (reg c (s i)) (reg c (t i)) (op_div c i).lo (op_div c i).hi)
unfolding op_div
op_div-cases c i hn hd = elim (Bool-cases (reg c (t i) == 0)) [
  | inl z ↦ inl (ground arith, ground arith, ground arith)
  | inr z ↦
      let ne : reg c (t i) ≢ 0 = ground arith in
      elim (Bool-cases (reg c (s i) == 0x80000000 && reg c (t i) == 0xffffffff)) [
        | inl e ↦ rw (z, e) (inr (inl (ground arith, ground arith, refl, refl)))
        | inr e ↦
            rw (z, e)
              (inr
                (inr (ne, division_lem (reg c (s i)) (reg c (t i)) hn hd ne (λ h. ground arith))))
      ]
]
