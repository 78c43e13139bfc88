-- ===== src/Cpu/Unaligned/Merge.antt =====
-- The four merges as arithmetic, for any position of the address in its word.
use cpp_station.Prelude.{
  ℕ, ◌+◌, ◌*◌, ◌-◌, ◌/◌, ◌%◌, ◌^◌, ◌<◌, ◌≡◌, ◌⊎◌, inl, inr, refl, bit_and, bit_or, arith,
}
use native.Mathlib.Nat.{mod-lt, one-le-pow}
use cpp_station.Word.{shr, shl32}
use cpp_station.Word.Fields.{bit_or_high, bit_and_mask}
use cpp_station.Cpu.Unaligned.{merge_lwl, merge_lwr, merge_swl, merge_swr}

-- The `n` low bits of `old`, and above them as much of `word` as fits.
abbrev pub splice : ℕ → ℕ → ℕ → ℕ
splice n old word = old % 2 ^ n + word % 2 ^ (32 - n) * 2 ^ n

-- The `n` low bits of `old`, with the bits of `word` from `n` on set in them.
abbrev pub overlay : ℕ → ℕ → ℕ → ℕ
overlay n old word = bit_or (old % 2 ^ n) (word / 2 ^ n)

position : (addr : ℕ) → (addr % 4 ≡ 0) ⊎ ((addr % 4 ≡ 1) ⊎ ((addr % 4 ≡ 2) ⊎ (addr % 4 ≡ 3)))
position addr = ground arith

low-lt : (n x : ℕ) → x % 2 ^ n < 2 ^ n
low-lt n x = mod-lt x (one-le-pow n 2 (omega arith))

-- One case of the `switch` in LWL and SWR, and one of that in LWR and SWL.
spliced :
    (n old word : ℕ)
    → word * 2 ^ n % 2 ^ 32 ≡ word % 2 ^ (32 - n) * 2 ^ n
    → bit_or (bit_and old (2 ^ n - 1)) (shl32 word n) ≡ splice n old word
spliced n old word e =
    rw (bit_and_mask n old, e) (bit_or_high n (old % 2 ^ n) (word % 2 ^ (32 - n)) (low-lt n old))

overlaid : (n old word : ℕ) → bit_or (bit_and old (2 ^ n - 1)) (shr word n) ≡ overlay n old word
overlaid n old word = rw (bit_and_mask n old) refl

-- The merges of the unaligned loads and stores at any address, for a word of 32 bits, with n for
-- 8 times 3 less the place of the address in its aligned word: LWL and SWR keep the n low bits of
-- the old value and put the other word above them, shifted up by n; LWR and SWL keep the n low
-- bits too, and set in them the bits of the other word from n on.
pub merges_lem :
    (addr old word : ℕ)
    → word < 2 ^ 32
    → let n = 8 * (3 - addr % 4) in
      (merge_lwl addr old word ≡ splice n old word)
      × (merge_swr addr old word ≡ splice n old word)
      × (merge_lwr addr old word ≡ overlay n old word)
      × (merge_swl addr old word ≡ overlay n old word)
unfolding merge_lwl merge_lwr merge_swl merge_swr
merges_lem addr old word h = elim (position addr) [
  | inl e ↦
      let s = spliced 24 old word (omega arith) in let o = overlaid 24 old word in rw e (s, s, o, o)
  | inr (inl e) ↦
      let s = spliced 16 old word (omega arith) in let o = overlaid 16 old word in rw e (s, s, o, o)
  | inr (inr (inl e)) ↦
      let s = spliced 8 old word (omega arith) in let o = overlaid 8 old word in rw e (s, s, o, o)
  | inr (inr (inr e)) ↦
      let s = spliced 0 old word (omega arith) in let o = overlaid 0 old word in rw e (s, s, o, o)
]
