-- ===== src/Backtrace.antt =====
-- The signal handler of backtrace.cpp, but for the registers that it reads and the output itself: the
-- lines that it prints for the frames of a stack. A message of `backtrace_symbols` is a list of bytes
-- without the NUL at its end; a pointer into it is an index, `none` for a null pointer.
pub mod Symbols
pub mod Handler
pub mod Reports
use cpp_station.Prelude.{
  ℕ, zero, suc, ◌+◌, Bool, true, false, Option, none, some, List, [], ◌∷◌, ltb, ◌==◌, if◌then◌else◌,
}

abbrev pub Bytes : Type 0
Bytes = List ℕ

-- `mangled_name`, `offset_begin` and `offset_end`.
pub record Marks : Type 0 where
  pub mangled_name : Option ℕ
  pub offset_begin : Option ℕ
  pub offset_end : Option ℕ

abbrev pub no_marks : Marks
no_marks = record { mangled_name = none; offset_begin = none; offset_end = none }

-- What the loop does with a byte other than `)` at the index `p`.
abbrev pub mark : ℕ → ℕ → Marks → Marks
mark c p k =
    if c == b'('
    then record k { mangled_name = some p }
    else if c == b'+'
    then record k { offset_begin = some p }
    else k

-- The inner loop, at the index `p`.
unfoldable pub find_marks : Bytes → ℕ → Marks → Marks
find_marks [] p k = k
find_marks (c ∷ cs) p k =
    if c == b')' then record k { offset_end = some p } else find_marks cs (p + 1) (mark c p k)

-- `*q = '\0'`, and the C string at an index.
abbrev pub put_nul : Bytes → ℕ → Bytes
put_nul [] q = []
put_nul (c ∷ cs) zero = 0 ∷ cs
put_nul (c ∷ cs) (suc q) = c ∷ put_nul cs q

abbrev pub until_nul : Bytes → Bytes
until_nul [] = []
until_nul (c ∷ cs) = if c == 0 then [] else c ∷ until_nul cs

abbrev pub drop : ℕ → Bytes → Bytes
drop zero cs = cs
drop (suc n) [] = []
drop (suc n) (c ∷ cs) = drop n cs

abbrev pub c_string : Bytes → ℕ → Bytes
c_string cs q = until_nul (drop q cs)

-- The four strings that the handler prints of a message that has the three marks in their order.
pub record Symbol : Type 0 where
  pub file : Bytes
  pub name : Bytes
  pub offset : Bytes
  pub address : Bytes

cut : Bytes → ℕ → ℕ → ℕ → Symbol
cut cs m b e =
    let cs' = put_nul (put_nul (put_nul cs m) b) e in
    record {
      file = c_string cs' 0;
      name = c_string cs' (m + 1);
      offset = c_string cs' (b + 1);
      address = c_string cs' (e + 1);
    }

cut_at : Bytes → Option ℕ → Option ℕ → Option ℕ → Option Symbol
cut_at cs (some m) (some b) (some e) = if ltb m b then some (cut cs m b e) else none
cut_at cs m b e = none

unfoldable pub symbol_of : Bytes → Marks → Option Symbol
unfolding cut cut_at
symbol_of cs k = cut_at cs k.mangled_name k.offset_begin k.offset_end

-- A line of the report: the frame's number and the text of a frame, with the function's name as
-- `__cxa_demangle` gives it, as it stands, or not found.
pub data Line : Type 0 where
  demangled : ℕ → Symbol → Bytes → Line
  mangled : ℕ → Symbol → Line
  whole : ℕ → Bytes → Line

-- `demangle` is `abi::__cxa_demangle`, `none` where its status is not 0.
module _ (demangle : Bytes → Option Bytes) where
  symbol_line : ℕ → Symbol → Option Bytes → Line
  symbol_line i s none = mangled i s
  symbol_line i s (some real_name) = demangled i s real_name

  frame_line : ℕ → Bytes → Option Symbol → Line
  frame_line i message none = whole i message
  frame_line i message (some s) = symbol_line i s (demangle s.name)

  frame_lines : ℕ → List Bytes → List Line
  frame_lines i [] = []
  frame_lines i (message ∷ messages) =
      frame_line i message (symbol_of message (find_marks message 0 no_marks))
      ∷ frame_lines (i + 1) messages

  -- The first frame is the handler itself. Without memory for the messages there are no lines.
  unfoldable pub report : Option (List Bytes) → List Line
  unfolding symbol_line frame_line frame_lines find_marks symbol_of
  report none = []
  report (some []) = []
  report (some (handler ∷ messages)) = frame_lines 1 messages
