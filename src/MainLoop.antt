-- ===== src/MainLoop.antt =====
-- The outer loop of `main`, main.cpp: instructions, events, and the question whether to close.
pub mod Closing
pub mod Program
use cpp_station.Prelude.{
  ℕ, zero, suc, ◌+◌, ◌*◌, ◌<◌, ◌≡◌, sym, ap, ◌∙◌, fun_ext, true, false, List, ◌∷◌, if◌then◌else◌,
  arith,
}
use cpp_station.Outcome.{Outcome, ok, timeout, ◌>>=◌, >>=_assoc, >>=-ok}
use cpp_station.Gpu.Opengl.Calls.{Call, Driver, poll_events}
use cpp_station.Gpu.Opengl.Window.{Window, should_close}
use cpp_station.Cpu.State.{Machine}
use cpp_station.Cpu.Step.{run_next_instruction, run_instructions}

-- `rounds` is the fuel of the `do … while`, and `fuel` that of the transfers; the calls are those of
-- the window. The callbacks that a poll runs do not change `mShouldClose`.
unfoldable pub main_loop : ℕ → ℕ → Driver → Window → List Call → Machine → Outcome Machine
main_loop zero fuel d w calls m = timeout
main_loop (suc rounds) fuel d w calls m = run_instructions fuel 1000000 m >>= λ m'.
    let calls' = poll_events ∷ calls in
    let rest = main_loop rounds fuel d w calls' m' in
    if should_close d w calls' then ok m' else rest

-- The window is first asked to close in round n, counted from 0.
abbrev pub ClosesAfter : ℕ → Driver → Window → List Call → Type 0
ClosesAfter zero d w calls = should_close d w (poll_events ∷ calls) ≡ true
ClosesAfter (suc n) d w calls =
    (should_close d w (poll_events ∷ calls) ≡ false) × ClosesAfter n d w (poll_events ∷ calls)

suc_add : (a b : ℕ) → suc a + b ≡ suc (a + b)
suc_add a b = omega arith

run_instructions-+ :
    (fuel a b : ℕ) (m : Machine)
    → run_instructions fuel (a + b) m
      ≡ (run_instructions fuel a m >>= λ m'. run_instructions fuel b m')
unfolding run_instructions
run_instructions-+ fuel zero b m = ap (λ k. run_instructions fuel k m) (omega arith)
run_instructions-+ fuel (suc a) b m =
    ap (λ k. run_instructions fuel k m) (suc_add a b)
    ∙ ap (λ k. run_next_instruction fuel m >>= k) (fun_ext (λ m'. run_instructions-+ fuel a b m'))
    ∙ sym (
        >>=_assoc (run_next_instruction fuel m) (λ m'. run_instructions fuel a m')
          (λ m'. run_instructions fuel b m'))

-- If the window is first asked to close in round n, counted from 0, then the outer loop of main
-- ends with that round, given fuel for more than n rounds, and its outcome is that of (n + 1) *
-- 1000000 instructions.
pub main_loop-run_instructions :
    (n rounds fuel : ℕ) (d : Driver) (w : Window) (calls : List Call) (m : Machine)
    → n < rounds
    → ClosesAfter n d w calls
    → main_loop rounds fuel d w calls m ≡ run_instructions fuel (suc n * 1000000) m
unfolding main_loop
main_loop-run_instructions n zero fuel d w calls m h c = absurd (omega arith)
main_loop-run_instructions zero (suc rounds) fuel d w calls m h c =
    rw c (>>=-ok (run_instructions fuel 1000000 m))
main_loop-run_instructions (suc n) (suc rounds) fuel d w calls m h (c, cs) = rw c (
    ap (λ k. run_instructions fuel 1000000 m >>= k)
      (fun_ext (λ m'.
        main_loop-run_instructions n rounds fuel d w (poll_events ∷ calls) m' (omega arith) cs))
    ∙ sym (run_instructions-+ fuel 1000000 (suc n * 1000000) m)
    ∙ ap (λ k. run_instructions fuel k m) (omega arith))
