-- ===== src/Cpu/Loads.antt =====
-- What the loads of the processor make of the bytes of the RAM, and the stores while the cache is
-- isolated.
use cpp_station.Prelude.{
  ℕ, ◌+◌, ◌-◌, ◌*◌, ◌%◌, ◌^◌, ◌<◌, ◌≡◌, refl, ◌∙◌, true, false, ltb, ◌==◌, if◌then◌else◌, arith,
}
use cpp_station.Prelude.Int.{ℤ, pos, negsuc}
use cpp_station.Word.{signed32, sign_extend8, sign_extend16, u16}
use cpp_station.Outcome.{Outcome, ok, panic, fault, timeout, ◌>>=◌, Ensures, Ensures-if}
use cpp_station.Memory.Bytes.{join32_sum, join16, join16_sum, join32}
use cpp_station.Memory.Map.{mask_region}
use cpp_station.Memory.Ram.{IsBytes, ram_size}
use cpp_station.Memory.Ram
use cpp_station.Memory.Ram.Access.{load32-in_range}
use cpp_station.Bus.State.{Bus}
use cpp_station.Bus.Access
use cpp_station.Bus.Mirrors.{hits-ram, load32-ram}
use cpp_station.Bus.Widths.{load8-ram}
use cpp_station.Cpu.Instruction.{t}
use cpp_station.Cpu.State.{Machine, reg, exception, store_address_error}
use cpp_station.Cpu.Memory.{
  is_isolated, address, with_cpu, delay_load, op_lb, op_lbu, op_lh, op_lhu, op_lw, op_sw, op_sh,
  op_sb, store32, store16, store8,
}
use cpp_station.Cpu.Unaligned.{op_swl, op_swr, aligned, merge_swl, merge_swr}
use cpp_station.Cpu.Arithmetic.{signed16}

abbrev pub signed8 : ℕ → ℤ
signed8 n = if ltb n (2 ^ 7) then pos n else negsuc (2 ^ 8 - 1 - n)

-- The load ends normally, with a value `P` on its way to the register.
abbrev pub Loads : Machine → ℕ → (ℕ → Type 0) → Outcome Machine → Type 0
Loads m i P r = (v : ℕ) × (r ≡ ok (with_cpu m (delay_load m.cpu (t i) v))) × P v

load16-ram :
    (b : Bus) (addr x : ℕ)
    → mask_region addr ≡ x
    → x + 1 < ram_size
    → Access.load16 b addr ≡ ok (join16 (b.ram.cells (x + 0)) (b.ram.cells (x + 1)))
unfolding Access.load16 Ram.load16
load16-ram b addr x e h = let (hit, at) = hits-ram x (omega arith) in rw (e, hit, at) (ground arith)

signed32-sign_extend8 : (v : ℕ) → v < 2 ^ 8 → signed32 (sign_extend8 v) ≡ signed8 v
signed32-sign_extend8 v h = ground arith

signed32-sign_extend16 : (v : ℕ) → v < 2 ^ 16 → signed32 (sign_extend16 v) ≡ signed16 v
signed32-sign_extend16 v h = ground arith

-- At a word-aligned address of the RAM, seen in any segment, with bytes in the RAM and the cache
-- not isolated, the loads end normally and change nothing but the pending load of their register,
-- whose value is, from the byte at the address and the ones after it, lowest first: for LB the
-- byte as a signed number, for LBU the byte, for LH the two bytes as a signed number, for LHU the
-- two bytes, and for LW the four.
pub load_values_lem :
    (m : Machine) (i x : ℕ)
    → mask_region (address m.cpu i) ≡ x
    → address m.cpu i % 4 ≡ 0
    → x + 3 < ram_size
    → is_isolated m.cpu ≡ false
    → IsBytes m.bus.ram
    → let byte : ℕ → ℕ = λ k. m.bus.ram.cells (x + k) in
      let half = byte 0 + byte 1 * 2 ^ 8 in
      Loads m i (λ v. signed32 v ≡ signed8 (byte 0)) (op_lb m i)
      × Loads m i (λ v. v ≡ byte 0) (op_lbu m i)
      × Loads m i (λ v. signed32 v ≡ signed16 half) (op_lh m i)
      × Loads m i (λ v. v ≡ half) (op_lhu m i)
      × Loads m i (λ v. v ≡ half + byte 2 * 2 ^ 16 + byte 3 * 2 ^ 24) (op_lw m i)
unfolding op_lb op_lbu op_lh op_lhu op_lw
load_values_lem m i x e a h off bytes =
    let addr = address m.cpu i in
    let b : ℕ → ℕ = λ k. m.bus.ram.cells (x + k) in
    let even : (addr % 2 == 0) ≡ true = ground arith in
    let byte : Access.load8 m.bus addr ≡ ok (b 0) =
      load8-ram m.bus addr (x + 0) (e ∙ omega arith) (omega arith) in
    let half = load16-ram m.bus addr x e (omega arith) in
    let sum = join16_sum (b 0) (b 1) (bytes (x + 0)) in
    (
      (sign_extend8 (b 0), rw byte refl, signed32-sign_extend8 (b 0) (bytes (x + 0))),
      (b 0, rw byte refl, refl),
      (
        sign_extend16 (join16 (b 0) (b 1)),
        rw half refl,
        rw sum (
            signed32-sign_extend16 (b 0 + b 1 * 2 ^ 8)
              (omega (arith, bytes (x + 0), bytes (x + 1)))),
      ),
      (join16 (b 0) (b 1), rw (even, half) refl, sum),
      (
        join32 (b 0) (b 1) (b 2) (b 3),
        rw (off, load32-ram m.bus addr x e (omega arith), load32-in_range m.bus.ram x h) refl,
        join32_sum (b 0) (b 1) (b 2) (b 3) (bytes (x + 0)) (bytes (x + 1)) (bytes (x + 2)),
      ),
    )

-- The bus is as before, if the call ends normally.
abbrev pub KeepsBus : Machine → Outcome Machine → Type 0
KeepsBus m = Ensures (λ m'. m'.bus ≡ m.bus)

store32-isolated :
    (fuel : ℕ) (m : Machine) (addr v : ℕ) → is_isolated m.cpu ≡ true → store32 fuel m addr v ≡ ok m
unfolding store32
store32-isolated fuel m addr v e = rw e refl

read_store-isolated :
    (fuel : ℕ) (m : Machine) (read : Outcome ℕ) (addr : ℕ) (merge : ℕ → ℕ)
    → is_isolated m.cpu ≡ true
    → KeepsBus m (read >>= λ v. store32 fuel m addr (merge v))
read_store-isolated fuel m (ok v) addr merge e = rw (store32-isolated fuel m addr (merge v) e) refl
read_store-isolated fuel m (panic p) addr merge e = tt
read_store-isolated fuel m fault addr merge e = tt
read_store-isolated fuel m timeout addr merge e = tt

store16-isolated : (m : Machine) (addr v : ℕ) → is_isolated m.cpu ≡ true → store16 m addr v ≡ ok m
unfolding store16
store16-isolated m addr v e = rw e refl

-- While the status register isolates the cache, no store of the processor that ends normally
-- changes the bus, whatever its address and width: SW, SH, SB, SWL and SWR.
pub stores_isolated :
    (fuel : ℕ) (m : Machine) (i : ℕ)
    → is_isolated m.cpu ≡ true
    → KeepsBus m (op_sw fuel m i)
      × KeepsBus m (op_sh m i)
      × KeepsBus m (op_sb m i)
      × KeepsBus m (op_swl fuel m i)
      × KeepsBus m (op_swr fuel m i)
unfolding op_sw op_sh op_sb op_swl op_swr store8
stores_isolated fuel m i e =
    let c = m.cpu in
    let addr = address c i in
    (
      rw e refl,
      Ensures-if (λ m'. m'.bus ≡ m.bus) (addr % 2 == 0) (store16 m addr (u16 (reg c (t i))))
          (ok (with_cpu m (exception c store_address_error)))
          (rw (store16-isolated m addr (u16 (reg c (t i))) e) refl) refl,
      rw e refl,
      read_store-isolated fuel m (Access.load32 m.bus (aligned addr)) (aligned addr)
          (λ v. merge_swl addr v (reg c (t i))) e,
      read_store-isolated fuel m (Access.load32 m.bus (aligned addr)) (aligned addr)
          (λ v. merge_swr addr v (reg c (t i))) e,
    )
