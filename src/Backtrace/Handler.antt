-- ===== src/Backtrace/Handler.antt =====
-- The whole of `crit_err_hdlr`, and `setupSigAct`, which installs it.
use cpp_station.Prelude.{ℕ, bit_or, Option, List, [], ◌∷◌, ◌==◌, if◌then◌else◌}
use cpp_station.Backtrace.{Bytes, Line, report}

-- The calls of the system, and the constants of its headers.
pub record System : Type 0 where
  pub strsignal : ℕ → Bytes
  -- the addresses of the frames, innermost first, at most as many as it is asked for
  pub backtrace : ℕ → List ℕ
  -- `none` without memory
  pub backtrace_symbols : List ℕ → Option (List Bytes)
  -- `none` where the status is not 0
  pub demangle : Bytes → Option Bytes
  -- signal and flags
  pub sigaction : ℕ → ℕ → ℕ
  pub sigsegv : ℕ
  pub sa_restart : ℕ
  pub sa_siginfo : ℕ

-- What the handler is called with: `sig_num`, `info->si_addr` and `uc->uc_mcontext.ip`.
pub record Context : Type 0 where
  pub sig_num : ℕ
  pub si_addr : ℕ
  pub ip : ℕ

-- A line on the standard error.
pub data Output : Type 0 where
  header : ℕ → Bytes → ℕ → ℕ → Output
  blank : Output
  frame : Line → Output

-- `array[1] = caller_address`: the frame of the signal trampoline becomes that of the crash. With
-- fewer than two frames the store is past those that count.
unfoldable pub put_caller : ℕ → List ℕ → List ℕ
put_caller ip [] = []
put_caller ip (a ∷ []) = a ∷ []
put_caller ip (a ∷ b ∷ array) = a ∷ ip ∷ array

abbrev pub frames : List Line → List Output
frames [] = blank ∷ []
frames (l ∷ ls) = frame l ∷ frames ls

-- What the handler prints before it ends the program with `EXIT_FAILURE`.
unfoldable pub crit_err_hdlr : System → Context → List Output
unfolding report put_caller
crit_err_hdlr sys c =
    header c.sig_num (sys.strsignal c.sig_num) c.si_addr c.ip
    ∷ blank
    ∷ frames (report sys.demangle (sys.backtrace_symbols (put_caller c.ip (sys.backtrace 50))))

-- On Linux; elsewhere the function does nothing. The handler is installed, or a message with the
-- signal and its name is printed and the program ends.
pub data Installation : Type 0 where
  installed : Installation
  not_installed : ℕ → Bytes → Installation

unfoldable pub setup_sig_act : System → Installation
setup_sig_act sys =
    if sys.sigaction sys.sigsegv (bit_or sys.sa_restart sys.sa_siginfo) == 0
    then installed
    else not_installed sys.sigsegv (sys.strsignal sys.sigsegv)
