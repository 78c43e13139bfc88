-- ===== src/Cpu/Invariant/MemoryOps.antt =====
-- The loads and stores keep the whole machine well formed.
use cpp_station.Prelude.{ℕ, ◌/◌, ◌%◌, ◌^◌, ◌<◌, bit_or, bit_and, if◌then◌else◌, ◌==◌, arith}
use native.Mathlib.Nat.{div-le_self}
use cpp_station.Word.{sign_extend8, sign_extend16, shl32, shr}
use cpp_station.Word.Bits.{bit_and-lt, bit_or-lt}
use cpp_station.Outcome.{Outcome, ok, ◌>>=◌, Ensures, Ensures-bind, Ensures-if}
use cpp_station.Bus.State.{Bus}
use cpp_station.Bus.Invariant.{IsBus, IsWord}
use cpp_station.Bus.Sizes.{
  load32-IsWord, load16-lt, load8-lt, store32-IsBus, store16-IsBus, store8-IsBus,
}
use cpp_station.Bus.Access
use cpp_station.Cpu.Instruction.{t}
use cpp_station.Cpu.State.{
  Cpu, Machine, Cause, reg, exception, store_address_error, load_address_error,
}
use cpp_station.Cpu.Invariant.{IsCpu, exception-IsCpu}
use cpp_station.Cpu.Invariant.OtherOps.{delay_load-IsCpu}
use cpp_station.Cpu.Memory
use cpp_station.Cpu.Memory.{is_isolated, address, with_cpu, delay_load}
use cpp_station.Cpu.Unaligned.{
  aligned, merge_lwl, merge_lwr, merge_swl, merge_swr, op_lwl, op_lwr, op_swl, op_swr,
}

pub record IsMachine (m : Machine) : Type 0 where
  pub cpu_valid : IsCpu m.cpu
  pub bus_valid : IsBus m.bus

pub with_cpu-IsMachine : (m : Machine) (c : Cpu) → IsMachine m → IsCpu c → IsMachine (with_cpu m c)
with_cpu-IsMachine m c h k = record { cpu_valid = k; bus_valid = h.bus_valid }

abbrev pub KeepsMachine : (Machine → ℕ → Outcome Machine) → Type 0
KeepsMachine op = (m : Machine) (i : ℕ) → IsMachine m → Ensures IsMachine (op m i)

stored-IsMachine :
    (m : Machine) (x : Outcome Bus)
    → IsMachine m
    → Ensures IsBus x
    → Ensures IsMachine (if is_isolated m.cpu then ok m else (x >>= λ b. ok (record m { bus = b })))
stored-IsMachine m x h k =
    Ensures-if IsMachine (is_isolated m.cpu) (ok m) _ h (
      Ensures-bind IsBus IsMachine x _ k (λ b v. record { cpu_valid = h.cpu_valid; bus_valid = v }))

store32-IsMachine :
    (fuel : ℕ) (m : Machine) (addr v : ℕ)
    → IsMachine m
    → v < 2 ^ 32
    → Ensures IsMachine (Memory.store32 fuel m addr v)
unfolding Memory.store32
store32-IsMachine fuel m addr v h hv =
    stored-IsMachine m _ h (store32-IsBus fuel m.bus addr v h.bus_valid hv)

store16-IsMachine :
    (m : Machine) (addr v : ℕ) → IsMachine m → Ensures IsMachine (Memory.store16 m addr v)
unfolding Memory.store16
store16-IsMachine m addr v h = stored-IsMachine m _ h (store16-IsBus m.bus addr v h.bus_valid)

store8-IsMachine :
    (m : Machine) (addr v : ℕ)
    → IsMachine m
    → v < 2 ^ 8
    → Ensures IsMachine (Memory.store8 m addr v)
unfolding Memory.store8
store8-IsMachine m addr v h hv = stored-IsMachine m _ h (store8-IsBus m.bus addr v h.bus_valid hv)

raised-IsMachine :
    (m : Machine) (e : Cause) → IsMachine m → IsMachine (with_cpu m (exception m.cpu e))
raised-IsMachine m e h = with_cpu-IsMachine m _ h (exception-IsCpu m.cpu e h.cpu_valid)

-- A load from the bus, changed by `f`, goes to the load delay slot.
loaded-IsMachine :
    (m : Machine) (n k : ℕ) (f : ℕ → ℕ) (x : Outcome ℕ)
    → IsMachine m
    → Ensures (λ v. v < n) x
    → ((v : ℕ) → v < n → f v < 2 ^ 32)
    → Ensures IsMachine (x >>= λ v. ok (with_cpu m (delay_load m.cpu k (f v))))
loaded-IsMachine m n k f x h e fits =
    Ensures-bind (λ v. v < n) IsMachine x _ e
      (λ v hv. with_cpu-IsMachine m _ h (delay_load-IsCpu m.cpu k (f v) h.cpu_valid (fits v hv)))

pub op_sw-IsMachine : (fuel : ℕ) → KeepsMachine (Memory.op_sw fuel)
unfolding Memory.op_sw
op_sw-IsMachine fuel m i h = ground (
  arith,
  h,
  raised-IsMachine m store_address_error h,
  store32-IsMachine fuel m (address m.cpu i) (reg m.cpu (t i)) h (h.cpu_valid.words_in (t i)),
)

pub op_sh-IsMachine : KeepsMachine Memory.op_sh
unfolding Memory.op_sh
op_sh-IsMachine m i h = ground (
  arith,
  raised-IsMachine m store_address_error h,
  store16-IsMachine m (address m.cpu i) (reg m.cpu (t i) % 2 ^ 16) h,
)

pub op_sb-IsMachine : KeepsMachine Memory.op_sb
unfolding Memory.op_sb
op_sb-IsMachine m i h = store8-IsMachine m _ _ h (omega arith)

pub op_lw-IsMachine : KeepsMachine Memory.op_lw
unfolding Memory.op_lw
op_lw-IsMachine m i h = Ensures-if IsMachine (is_isolated m.cpu) (ok m) _ h (
    loaded-IsMachine m (2 ^ 32) (t i) (λ v. v) _ h
      (load32-IsWord m.bus (address m.cpu i) h.bus_valid) (λ v hv. hv))

pub op_lb-IsMachine : KeepsMachine Memory.op_lb
unfolding Memory.op_lb
op_lb-IsMachine m i h =
    loaded-IsMachine m (2 ^ 8) (t i) sign_extend8 _ h (load8-lt m.bus (address m.cpu i) h.bus_valid)
      (λ v hv. ground arith)

pub op_lbu-IsMachine : KeepsMachine Memory.op_lbu
unfolding Memory.op_lbu
op_lbu-IsMachine m i h =
    loaded-IsMachine m (2 ^ 8) (t i) (λ v. v) _ h (load8-lt m.bus (address m.cpu i) h.bus_valid)
      (λ v hv. omega arith)

pub op_lhu-IsMachine : KeepsMachine Memory.op_lhu
unfolding Memory.op_lhu
op_lhu-IsMachine m i h =
    Ensures-if IsMachine (address m.cpu i % 2 == 0) _
      (ok (with_cpu m (exception m.cpu load_address_error)))
      (loaded-IsMachine m (2 ^ 16) (t i) (λ v. v) (Access.load16 m.bus (address m.cpu i)) h
        (load16-lt m.bus (address m.cpu i) h.bus_valid) (λ v hv. omega arith))
      (raised-IsMachine m load_address_error h)

pub op_lh-IsMachine : KeepsMachine Memory.op_lh
unfolding Memory.op_lh
op_lh-IsMachine m i h =
    loaded-IsMachine m (2 ^ 16) (t i) sign_extend16 _ h
      (load16-lt m.bus (address m.cpu i) h.bus_valid) (λ v hv. ground arith)

-- The merged words of the unaligned accesses.
shr-lt : (x k : ℕ) → x < 2 ^ 32 → x / 2 ^ k < 2 ^ 32
shr-lt x k h = omega (arith, div-le_self x (2 ^ k))

merged-lt :
    (old mask new : ℕ)
    → old < 2 ^ 32
    → mask < 2 ^ 32
    → new < 2 ^ 32
    → bit_or (bit_and old mask) new < 2 ^ 32
merged-lt old mask new ho hm hn = bit_or-lt 32 _ _ (bit_and-lt 32 _ _ ho hm) hn

merges-lt :
    (addr old new : ℕ)
    → old < 2 ^ 32
    → new < 2 ^ 32
    → (merge_lwl addr old new < 2 ^ 32)
      × (merge_lwr addr old new < 2 ^ 32)
      × (merge_swl addr old new < 2 ^ 32)
      × (merge_swr addr old new < 2 ^ 32)
unfolding merge_lwl merge_lwr merge_swl merge_swr
merges-lt addr old new ho hn =
    let left =
      λ (mask k : ℕ) (hm : mask < 2 ^ 32). merged-lt old mask (shl32 new k) ho hm (omega arith) in
    let right =
      λ (mask k : ℕ) (hm : mask < 2 ^ 32). merged-lt old mask (shr new k) ho hm (shr-lt new k hn) in
    let l0 = left 0x00ffffff 24 (omega arith) in
    let l1 = left 0x0000ffff 16 (omega arith) in
    let l2 = left 0x000000ff 8 (omega arith) in
    let l3 = left 0x00000000 0 (omega arith) in
    let r0 = right 0x00ffffff 24 (omega arith) in
    let r1 = right 0x0000ffff 16 (omega arith) in
    let r2 = right 0x000000ff 8 (omega arith) in
    let r3 = right 0x00000000 0 (omega arith) in
    (
      ground (arith, l0, l1, l2, l3),
      ground (arith, r0, r1, r2, r3),
      ground (arith, r0, r1, r2, r3),
      ground (arith, l0, l1, l2, l3),
    )

pub op_lwl-IsMachine : KeepsMachine op_lwl
unfolding op_lwl
op_lwl-IsMachine m i h =
    let addr = address m.cpu i in
    let old = m.cpu.out_regs (t i) in
    loaded-IsMachine m (2 ^ 32) (t i) (merge_lwl addr old) _ h
      (load32-IsWord m.bus (aligned addr) h.bus_valid)
      (λ v hv. (merges-lt addr old v (h.cpu_valid.words_out (t i)) hv).0)

pub op_lwr-IsMachine : KeepsMachine op_lwr
unfolding op_lwr
op_lwr-IsMachine m i h =
    let addr = address m.cpu i in
    let old = m.cpu.out_regs (t i) in
    loaded-IsMachine m (2 ^ 32) (t i) (merge_lwr addr old) _ h
      (load32-IsWord m.bus (aligned addr) h.bus_valid)
      (λ v hv. (merges-lt addr old v (h.cpu_valid.words_out (t i)) hv).1)

pub op_swl-IsMachine : (fuel : ℕ) → KeepsMachine (op_swl fuel)
unfolding op_swl
op_swl-IsMachine fuel m i h =
    let addr = address m.cpu i in
    Ensures-bind IsWord IsMachine (Access.load32 m.bus (aligned addr)) _
      (load32-IsWord m.bus (aligned addr) h.bus_valid)
      (λ old ho.
        store32-IsMachine fuel m _ _ h
          (merges-lt addr old (reg m.cpu (t i)) ho (h.cpu_valid.words_in (t i))).2)

pub op_swr-IsMachine : (fuel : ℕ) → KeepsMachine (op_swr fuel)
unfolding op_swr
op_swr-IsMachine fuel m i h =
    let addr = address m.cpu i in
    Ensures-bind IsWord IsMachine (Access.load32 m.bus (aligned addr)) _
      (load32-IsWord m.bus (aligned addr) h.bus_valid)
      (λ old ho.
        store32-IsMachine fuel m _ _ h
          (merges-lt addr old (reg m.cpu (t i)) ho (h.cpu_valid.words_in (t i))).3)
