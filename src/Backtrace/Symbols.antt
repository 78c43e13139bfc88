-- ===== src/Backtrace/Symbols.antt =====
-- The frames that the report takes apart: a message in the form that `backtrace_symbols` documents.
use native.Mathlib.Nat.{zero-add}
use cpp_station.Prelude.{
  ℕ, suc, ◌+◌, ◌≡◌, ◌≢◌, refl, sym, ◌∙◌, ap, true, some, [], ◌∷◌, ◌++◌, ltb, ==_false, arith,
}
use cpp_station.Backtrace.{
  Bytes, Marks, no_marks, mark, find_marks, put_nul, until_nul, drop, c_string, cut, cut_at,
  symbol_of,
}

-- No byte of the text is `c`.
abbrev pub Without : ℕ → Bytes → Type 0
Without c [] = Unit
Without c (x ∷ xs) = (x ≢ c) × Without c xs

abbrev length : Bytes → ℕ
length [] = 0
length (x ∷ xs) = suc (length xs)

-- The marks after a text that does not end the loop.
abbrev marks_over : Bytes → ℕ → Marks → Marks
marks_over [] p k = k
marks_over (x ∷ xs) p k = marks_over xs (p + 1) (mark x p k)

find_marks_over :
    (xs ys : Bytes) (p : ℕ) (k : Marks)
    → Without b')' xs
    → find_marks (xs ++ ys) p k ≡ find_marks ys (p + length xs) (marks_over xs p k)
unfolding find_marks
find_marks_over [] ys p k h = ap (λ (q : ℕ). find_marks ys q k) (omega arith)
find_marks_over (x ∷ xs) ys p k (ne, h) =
    let next : p + 1 + length xs ≡ p + suc (length xs) = omega arith in
    rw (==_false x b')' ne, sym next) (find_marks_over xs ys (p + 1) (mark x p k) h)

marks_over_name :
    (xs : Bytes) (p : ℕ) (k : Marks)
    → Without b'(' xs
    → (marks_over xs p k).mangled_name ≡ k.mangled_name
marks_over_name [] p k h = refl
marks_over_name (x ∷ xs) p k (ne, h) = marks_over_name xs (p + 1) (mark x p k) h ∙ ground arith

marks_over_offset :
    (xs : Bytes) (p : ℕ) (k : Marks)
    → Without b'+' xs
    → (marks_over xs p k).offset_begin ≡ k.offset_begin
marks_over_offset [] p k h = refl
marks_over_offset (x ∷ xs) p k (ne, h) = marks_over_offset xs (p + 1) (mark x p k) h ∙ ground arith

-- The text of a frame: `file(name+offset)address`.
abbrev pub message : Bytes → Bytes → Bytes → Bytes → Bytes
message file name offset address = file ++ b'(' ∷ (name ++ b'+' ∷ (offset ++ b')' ∷ address))

find_marks-message :
    (file name offset address : Bytes)
    → Without b')' file
    → Without b')' name
    → Without b'(' name
    → Without b')' offset
    → Without b'(' offset
    → Without b'+' offset
    → find_marks (message file name offset address) 0 no_marks ≡ record {
      mangled_name = some (length file);
      offset_begin = some (length file + 1 + length name);
      offset_end = some (length file + 1 + length name + 1 + length offset);
    }
unfolding find_marks
find_marks-message file name offset address f1 n1 n2 o1 o2 o3 =
    let p1 = length file in
    let p2 = length file + 1 + length name in
    let k1 = marks_over file 0 no_marks in
    let k2 = marks_over name (p1 + 1) (mark b'(' p1 k1) in
    let k3 = marks_over offset (p2 + 1) (mark b'+' p2 k2) in
    let m : k3.mangled_name ≡ some p1 =
      marks_over_name offset (p2 + 1) (mark b'+' p2 k2) o2
      ∙ marks_over_name name (p1 + 1) (mark b'(' p1 k1) n2 in
    let b : k3.offset_begin ≡ some p2 = marks_over_offset offset (p2 + 1) (mark b'+' p2 k2) o3 in
    let first : find_marks (message file name offset address) 0 no_marks
        ≡ find_marks (name ++ b'+' ∷ (offset ++ b')' ∷ address)) (p1 + 1) (mark b'(' p1 k1) =
      rw zero-add at
        (find_marks_over file (b'(' ∷ (name ++ b'+' ∷ (offset ++ b')' ∷ address))) 0 no_marks f1) in
    let second =
      find_marks_over name (b'+' ∷ (offset ++ b')' ∷ address)) (p1 + 1) (mark b'(' p1 k1) n1 in
    let third = find_marks_over offset (b')' ∷ address) (p2 + 1) (mark b'+' p2 k2) o1 in
    first ∙ second ∙ third ∙ rw (m, b) refl

put_nul_first : (xs ys : Bytes) (c : ℕ) → put_nul (xs ++ c ∷ ys) (length xs) ≡ xs ++ 0 ∷ ys
put_nul_first [] ys c = refl
put_nul_first (x ∷ xs) ys c = ap (λ (zs : Bytes). x ∷ zs) (put_nul_first xs ys c)

index_0 : (q : ℕ) → 0 + 1 + q ≡ suc q
index_0 q = omega arith

index_suc : (n q : ℕ) → suc n + 1 + q ≡ suc (n + 1 + q)
index_suc n q = omega arith

put_nul_later :
    (xs ys : Bytes) (c q : ℕ) → put_nul (xs ++ c ∷ ys) (length xs + 1 + q) ≡ xs ++ c ∷ put_nul ys q
put_nul_later [] ys c q = rw (index_0 q) refl
put_nul_later (x ∷ xs) ys c q =
    rw (index_suc (length xs) q) (ap (λ (zs : Bytes). x ∷ zs) (put_nul_later xs ys c q))

drop_later : (xs ys : Bytes) (c q : ℕ) → drop (length xs + 1 + q) (xs ++ c ∷ ys) ≡ drop q ys
drop_later [] ys c q = rw (index_0 q) refl
drop_later (x ∷ xs) ys c q = rw (index_suc (length xs) q) (drop_later xs ys c q)

until_nul_first : (xs ys : Bytes) → Without 0 xs → until_nul (xs ++ 0 ∷ ys) ≡ xs
until_nul_first [] ys h = refl
until_nul_first (x ∷ xs) ys (ne, h) =
    rw (==_false x 0 ne) (ap (λ (zs : Bytes). x ∷ zs) (until_nul_first xs ys h))

until_nul_all : (xs : Bytes) → Without 0 xs → until_nul xs ≡ xs
until_nul_all [] h = refl
until_nul_all (x ∷ xs) (ne, h) =
    rw (==_false x 0 ne) (ap (λ (zs : Bytes). x ∷ zs) (until_nul_all xs h))

-- The message with its marks replaced.
abbrev nulled : Bytes → Bytes → Bytes → Bytes → Bytes
nulled file name offset address = file ++ 0 ∷ (name ++ 0 ∷ (offset ++ 0 ∷ address))

put_nuls :
    (file name offset address : Bytes) (b e : ℕ)
    → b ≡ length file + 1 + length name
    → e ≡ length file + 1 + (length name + 1 + length offset)
    → put_nul (put_nul (put_nul (message file name offset address) (length file)) b) e
      ≡ nulled file name offset address
put_nuls file name offset address b e eb ee =
    let tail = offset ++ b')' ∷ address in
    rw
      (
        put_nul_first file (name ++ b'+' ∷ tail) b'(',
        eb,
        put_nul_later file (name ++ b'+' ∷ tail) 0 (length name),
        put_nul_first name tail b'+',
        ee,
        put_nul_later file (name ++ 0 ∷ tail) 0 (length name + 1 + length offset),
        put_nul_later name tail 0 (length offset),
        put_nul_first offset address b')',
      )
      refl

strings :
    (file name offset address : Bytes) (b e : ℕ)
    → b ≡ length file + 1 + length name
    → e ≡ length file + 1 + (length name + 1 + length offset)
    → Without 0 file
    → Without 0 name
    → Without 0 offset
    → Without 0 address
    → let cs = nulled file name offset address in
      (c_string cs 0 ≡ file)
      × (c_string cs (length file + 1) ≡ name)
      × (c_string cs (b + 1) ≡ offset)
      × (c_string cs (e + 1) ≡ address)
strings file name offset address b e eb ee zf zn zo za =
    let tail = offset ++ 0 ∷ address in
    let at_name : length file + 1 ≡ length file + 1 + 0 = omega arith in
    let at_offset : b + 1 ≡ length file + 1 + (length name + 1 + 0) = omega arith in
    let at_address : e + 1 ≡ length file + 1 + (length name + 1 + (length offset + 1 + 0)) =
      omega arith in
    (
      until_nul_first file (name ++ 0 ∷ tail) zf,
      rw (at_name, drop_later file (name ++ 0 ∷ tail) 0 0) (until_nul_first name tail zn),
      rw
          (
            at_offset,
            drop_later file (name ++ 0 ∷ tail) 0 (length name + 1 + 0),
            drop_later name tail 0 0,
          )
          (until_nul_first offset address zo),
      rw
          (
            at_address,
            drop_later file (name ++ 0 ∷ tail) 0 (length name + 1 + (length offset + 1 + 0)),
            drop_later name tail 0 (length offset + 1 + 0),
            drop_later offset address 0 0,
          )
          (until_nul_all address za),
    )

cut-message :
    (file name offset address : Bytes) (b e : ℕ)
    → b ≡ length file + 1 + length name
    → e ≡ length file + 1 + (length name + 1 + length offset)
    → Without 0 file
    → Without 0 name
    → Without 0 offset
    → Without 0 address
    → cut (message file name offset address) (length file) b e
      ≡ record { file = file; name = name; offset = offset; address = address }
unfolding cut
cut-message file name offset address b e eb ee zf zn zo za =
    let (s0, s1, s2, s3) = strings file name offset address b e eb ee zf zn zo za in
    rw (put_nuls file name offset address b e eb ee, s0, s1, s2, s3) refl

-- A message of the form file(name+offset)address is taken apart into those four strings, where
-- none of them has a NUL byte, the file no closing parenthesis, the name no parenthesis and the
-- offset neither a parenthesis nor a plus sign.
pub symbol_of-message :
    (file name offset address : Bytes)
    → Without b')' file
    → Without b')' name
    → Without b'(' name
    → Without b')' offset
    → Without b'(' offset
    → Without b'+' offset
    → Without 0 file
    → Without 0 name
    → Without 0 offset
    → Without 0 address
    → symbol_of
        (message file name offset address)
        (find_marks (message file name offset address) 0 no_marks)
      ≡ some (record { file = file; name = name; offset = offset; address = address })
unfolding symbol_of cut_at
symbol_of-message file name offset address f1 n1 n2 o1 o2 o3 zf zn zo za =
    let b = length file + 1 + length name in
    let e = length file + 1 + length name + 1 + length offset in
    let after : ltb (length file) b ≡ true = ground arith in
    rw (find_marks-message file name offset address f1 n1 n2 o1 o2 o3, after)
      (ap some (cut-message file name offset address b e refl (omega arith) zf zn zo za))
