-- ===== src/Cpu/Flow.antt =====
-- The flow of control: what comes after an instruction.
pub mod Ops
pub mod Step
use cpp_station.Prelude.{
  ℕ, ◌+◌, ◌-◌, ◌*◌, ◌/◌, ◌%◌, ◌^◌, ◌<◌, ◌≡◌, ◌⊎◌, inl, inr, refl, Bool, ◌==◌, if◌then◌else◌, arith,
}
use cpp_station.Word.{sub32, test_bit}
use cpp_station.Outcome.{Outcome, ok, ◌>>=◌, Ensures, Ensures-bind, Ensures-if}
use cpp_station.Bus.State.{Bus}
use cpp_station.Bus.Invariant.{Any, trivially}
use cpp_station.Cpu.State.{
  Cpu, Machine, Cause, set_reg, exception, store_address_error, load_address_error,
}
use cpp_station.Cpu.Memory.{is_isolated, address, with_cpu, delay_load}

-- Either the flow goes on where it was to, or `c'` has entered an exception.
abbrev pub Follows : Cpu → Cpu → Type 0
Follows c c' =
    (c'.pc ≡ c.pc)
    ⊎ ((c'.pc ≡ (if test_bit c.sr 22 then 0xbfc00180 else 0x80000080))
        × (c'.next_pc ≡ c'.pc + 4)
        × (c'.epc ≡ (if c.delay_slot then sub32 c.current_pc 4 else c.current_pc)))

abbrev pub FollowsMachine : Machine → Machine → Type 0
FollowsMachine m m' = Follows m.cpu m'.cpu

pub raised-Follows : (c : Cpu) (e : Cause) → Follows c (exception c e)
unfolding exception
raised-Follows c e = inr (refl, ground arith, refl)

-- An overflow, and then the write to the register.
pub raised-set_reg-Follows :
    (c : Cpu) (e : Cause) (k v : ℕ) → Follows c (set_reg (exception c e) k v)
unfolding exception set_reg
raised-set_reg-Follows c e k v = inr (refl, ground arith, refl)

pub loaded-Follows :
    (m : Machine) (k : ℕ) (f : ℕ → ℕ) (x : Outcome ℕ)
    → Ensures (FollowsMachine m) (x >>= λ v. ok (with_cpu m (delay_load m.cpu k (f v))))
unfolding delay_load
loaded-Follows m k f x = Ensures-bind Any (FollowsMachine m) x _ (trivially x) (λ v u. inl refl)

pub stored-Follows :
    (m : Machine) (x : Outcome Bus)
    → Ensures
        (FollowsMachine m)
        (if is_isolated m.cpu then ok m else (x >>= λ b. ok (record m { bus = b })))
stored-Follows m x =
    Ensures-if (FollowsMachine m) (is_isolated m.cpu) (ok m) _ (inl refl)
      (Ensures-bind Any (FollowsMachine m) x _ (trivially x) (λ b u. inl refl))

pub tried-Follows :
    (m : Machine) (x : Outcome Cpu)
    → Ensures (Follows m.cpu) x
    → Ensures (FollowsMachine m) (x >>= λ c. ok (record m { cpu = c }))
tried-Follows m x k = Ensures-bind (Follows m.cpu) (FollowsMachine m) x _ k (λ c v. v)
