-- ===== src/Backtrace/Reports.antt =====
-- What the handler prints for a stack whose frames the system describes as it documents.
use cpp_station.Prelude.{ℕ, ◌+◌, ◌≡◌, refl, ap, Option, none, some, List, [], ◌∷◌}
use cpp_station.Backtrace.{
  Bytes, no_marks, find_marks, Symbol, symbol_of, Line, demangled, mangled, frame_line, frame_lines,
  symbol_line, report,
}
use cpp_station.Backtrace.Symbols.{Without, message, symbol_of-message}
use cpp_station.Backtrace.Handler.{
  System, Context, Output, header, blank, frame, frames, put_caller, crit_err_hdlr,
}

-- Strings that can be told apart in a message.
pub record IsSymbol (s : Symbol) : Type 0 where
  pub file_open : Without b')' s.file
  pub name_open : Without b')' s.name
  pub name_single : Without b'(' s.name
  pub offset_open : Without b')' s.offset
  pub offset_single : Without b'(' s.offset
  pub offset_plus : Without b'+' s.offset
  pub file_text : Without 0 s.file
  pub name_text : Without 0 s.name
  pub offset_text : Without 0 s.offset
  pub address_text : Without 0 s.address

abbrev pub text : Symbol → Bytes
text s = message s.file s.name s.offset s.address

abbrev pub texts : (ℕ → Symbol) → List ℕ → List Bytes
texts symbols [] = []
texts symbols (a ∷ calls) = text (symbols a) ∷ texts symbols calls

-- The function of the frame by the name that the demangler finds, or else as it stands.
abbrev pub named_line : System → ℕ → Symbol → Option Bytes → Line
named_line sys i s none = mangled i s
named_line sys i s (some real_name) = demangled i s real_name

-- A line for each address, numbered from `i` on, and an empty line.
abbrev pub named_frames : System → (ℕ → Symbol) → ℕ → List ℕ → List Output
named_frames sys symbols i [] = blank ∷ []
named_frames sys symbols i (a ∷ calls) =
    frame (named_line sys i (symbols a) (sys.demangle (symbols a).name))
    ∷ named_frames sys symbols (i + 1) calls

symbol_of-text :
    (s : Symbol) → IsSymbol s → symbol_of (text s) (find_marks (text s) 0 no_marks) ≡ some s
symbol_of-text s h =
    symbol_of-message s.file s.name s.offset s.address h.file_open h.name_open h.name_single
      h.offset_open h.offset_single h.offset_plus h.file_text h.name_text h.offset_text
      h.address_text

symbol_line-named_line :
    (sys : System) (i : ℕ) (s : Symbol) (name : Option Bytes)
    → symbol_line sys.demangle i s name ≡ named_line sys i s name
unfolding symbol_line
symbol_line-named_line sys i s none = refl
symbol_line-named_line sys i s (some real_name) = refl

frame_line-named_line :
    (sys : System) (i : ℕ) (s : Symbol)
    → IsSymbol s
    → frame_line sys.demangle i (text s) (symbol_of (text s) (find_marks (text s) 0 no_marks))
      ≡ named_line sys i s (sys.demangle s.name)
unfolding frame_line
frame_line-named_line sys i s h =
    rw (symbol_of-text s h) (symbol_line-named_line sys i s (sys.demangle s.name))

frame_lines-named_frames :
    (sys : System) (symbols : ℕ → Symbol) (i : ℕ) (calls : List ℕ)
    → ((a : ℕ) → IsSymbol (symbols a))
    → frames (frame_lines sys.demangle i (texts symbols calls)) ≡ named_frames sys symbols i calls
unfolding frame_lines
frame_lines-named_frames sys symbols i [] h = refl
frame_lines-named_frames sys symbols i (a ∷ calls) h =
    rw
      (
        frame_line-named_line sys i (symbols a) (h a),
        frame_lines-named_frames sys symbols (i + 1) calls h,
      )
      refl

-- The handler of crashes, for a stack of at least two frames, where the system describes every
-- address in the form file(name+offset)address: none of the four has a NUL byte, the file and the
-- name have no closing parenthesis, the name no opening one, and the offset no parenthesis and no
-- plus sign. The handler prints the signal with its name and the two addresses, an empty line,
-- and then, numbered from 1 on, one line for the address of the crash and one for each frame from
-- the third of the stack on, with the four strings of its address, the function by the name that
-- the demangler finds or else as it stands, and an empty line.
pub crit_err_hdlr-named_frames :
    (sys : System) (c : Context) (symbols : ℕ → Symbol) (handler trampoline : ℕ) (calls : List ℕ)
    → ((a : ℕ) → IsSymbol (symbols a))
    → ((array : List ℕ) → sys.backtrace_symbols array ≡ some (texts symbols array))
    → sys.backtrace 50 ≡ handler ∷ trampoline ∷ calls
    → crit_err_hdlr sys c
      ≡ header c.sig_num (sys.strsignal c.sig_num) c.si_addr c.ip
        ∷ blank
        ∷ named_frames sys symbols 1 (c.ip ∷ calls)
unfolding crit_err_hdlr put_caller report
crit_err_hdlr-named_frames sys c symbols handler trampoline calls valid described stack =
    rw (stack, described (handler ∷ c.ip ∷ calls))
      (ap (λ out. header c.sig_num (sys.strsignal c.sig_num) c.si_addr c.ip ∷ blank ∷ out)
        (frame_lines-named_frames sys symbols 1 (c.ip ∷ calls) valid))
