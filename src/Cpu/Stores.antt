-- ===== src/Cpu/Stores.antt =====
-- What the stores of the processor leave in the RAM.
use cpp_station.Prelude.{
  ℕ, zero, suc, ◌+◌, ◌*◌, ◌/◌, ◌%◌, ◌^◌, ◌<◌, ◌≤◌, ◌≡◌, ◌⊎◌, refl, true, false, ◌==◌, ==_true,
  update, arith,
}
use cpp_station.Word.{u8, u16}
use cpp_station.Outcome.{Outcome, ok}
use cpp_station.Memory.Map.{mask_region}
use cpp_station.Memory.Ram.{Ram, ram_size}
use cpp_station.Memory.Ram
use cpp_station.Memory.Ram.Access.{stored32}
use cpp_station.Bus.State.{Bus}
use cpp_station.Bus.Access
use cpp_station.Bus.Mirrors.{hits-ram, store32-ram}
use cpp_station.Bus.Widths.{store8-ram}
use cpp_station.Cpu.Instruction.{t}
use cpp_station.Cpu.State.{Machine, reg}
use cpp_station.Cpu.Memory.{is_isolated, address, op_sw, op_sh, op_sb, store32, store16, store8}

-- The cells `x` to `x + n - 1` hold the low bytes of `v`, lowest first, and every other one is as
-- before.
abbrev pub HasBytes : Ram → ℕ → ℕ → ℕ → Ram → Type 0
HasBytes r x n v r' =
    ((k : ℕ) → k < n → r'.cells (x + k) ≡ v / 2 ^ (8 * k) % 2 ^ 8)
    × ((j : ℕ) → (j < x) ⊎ (x + n ≤ j) → r'.cells j ≡ r.cells j)

-- The store ends normally and changes those bytes of the RAM alone.
abbrev pub Stores : Machine → ℕ → ℕ → ℕ → Outcome Machine → Type 0
Stores m x n v out =
    (r : Ram) × (out ≡ ok (record m { bus = record m.bus { ram = r } }))
    × HasBytes m.bus.ram x n v r

stored32-HasBytes : (r : Ram) (x v : ℕ) → HasBytes r x 4 v (stored32 r x v)
unfolding stored32
stored32-HasBytes r x v = (λ k h. byte k h, λ j h. ground arith)
  where
    byte : (k : ℕ) → k < 4 → (stored32 r x v).cells (x + k) ≡ v / 2 ^ (8 * k) % 2 ^ 8
    byte zero h = ground arith
    byte (suc zero) h = ground arith
    byte (suc (suc zero)) h = ground arith
    byte (suc (suc (suc zero))) h = ground arith
    byte (suc (suc (suc (suc k)))) h = absurd (omega arith)

-- The RAM after a store of a halfword.
stored16 : Ram → ℕ → ℕ → Ram
stored16 r x v = record {
  cells = update (update r.cells (x + 0) (v % 2 ^ 8)) (x + 1) (v / 2 ^ 8 % 2 ^ 8);
}

stored16-HasBytes : (r : Ram) (x v : ℕ) → HasBytes r x 2 v (stored16 r x (v % 2 ^ 16))
unfolding stored16
stored16-HasBytes r x v = (λ k h. byte k h, λ j h. ground arith)
  where
    byte : (k : ℕ) → k < 2 → (stored16 r x (v % 2 ^ 16)).cells (x + k) ≡ v / 2 ^ (8 * k) % 2 ^ 8
    byte zero h = ground arith
    byte (suc zero) h = ground arith
    byte (suc (suc k)) h = absurd (omega arith)

stored8-HasBytes :
    (r : Ram) (x v : ℕ) → HasBytes r x 1 v (record { cells = update r.cells x (v % 2 ^ 8) })
stored8-HasBytes r x v = (λ k h. byte k h, λ j h. ground arith)
  where
    byte : (k : ℕ) → k < 1 → update r.cells x (v % 2 ^ 8) (x + k) ≡ v / 2 ^ (8 * k) % 2 ^ 8
    byte zero h = ground arith
    byte (suc k) h = absurd (omega arith)

store16-ram :
    (b : Bus) (addr v x : ℕ)
    → mask_region addr ≡ x
    → x + 1 < ram_size
    → Access.store16 b addr v ≡ ok (record b { ram = stored16 b.ram x v })
unfolding Access.store16 Ram.store16 stored16
store16-ram b addr v x e h =
    let (hit, at) = hits-ram x (omega arith) in rw (e, hit, at) (ground arith)

-- At a word-aligned address of the RAM, seen in any segment, with the cache not isolated, the
-- stores end normally and change nothing but the RAM, in which SW puts the four bytes of its
-- register from the address on, SH the two low ones and SB the lowest, the lowest byte first, and
-- every other byte is as before.
pub store_values_lem :
    (fuel : ℕ) (m : Machine) (i x : ℕ)
    → mask_region (address m.cpu i) ≡ x
    → address m.cpu i % 4 ≡ 0
    → x + 3 < ram_size
    → is_isolated m.cpu ≡ false
    → let v = reg m.cpu (t i) in
      Stores m x 4 v (op_sw fuel m i) × Stores m x 2 v (op_sh m i) × Stores m x 1 v (op_sb m i)
unfolding op_sw op_sh op_sb store32 store16 store8
store_values_lem fuel m i x e a h off =
    let addr = address m.cpu i in
    let v = reg m.cpu (t i) in
    let word : (addr % 4 == 0) ≡ true = ==_true (addr % 4) 0 a in
    let even : (addr % 2 == 0) ≡ true = ==_true (addr % 2) 0 (omega arith) in
    (
      (
        stored32 m.bus.ram x v,
        rw (off, word, store32-ram fuel m.bus addr v x e h) refl,
        stored32-HasBytes m.bus.ram x v,
      ),
      (
        stored16 m.bus.ram x (u16 v),
        rw (even, off, store16-ram m.bus addr (u16 v) x e (omega arith)) refl,
        stored16-HasBytes m.bus.ram x v,
      ),
      (
        record { cells = update m.bus.ram.cells x (v % 2 ^ 8) },
        rw (off, store8-ram m.bus addr (u8 v) x e (omega arith)) refl,
        stored8-HasBytes m.bus.ram x v,
      ),
    )
