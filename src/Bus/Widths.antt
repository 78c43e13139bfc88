-- ===== src/Bus/Widths.antt =====
-- Words, halves and bytes of the RAM through the bus: the widths agree on the order of the bytes.
use cpp_station.Prelude.{ℕ, ◌+◌, ◌*◌, ◌/◌, ◌%◌, ◌^◌, ◌<◌, ◌≡◌, refl, ap, update, arith}
use cpp_station.Outcome.{ok, ◌>>=◌}
use cpp_station.Memory.Bytes.{join32_sum}
use cpp_station.Memory.Map.{mask_region}
use cpp_station.Memory.Map.Regions.{mask_region_lem}
use cpp_station.Memory.Ram.{Ram, IsBytes, ram_size}
use cpp_station.Memory.Ram
use cpp_station.Memory.Ram.Access.{stored32, load32-in_range}
use cpp_station.Bus.State.{Bus}
use cpp_station.Bus.Access.{load32, load8, store32, store8}
use cpp_station.Bus.Mirrors.{hits-ram, load32-ram, store32-ram}

-- An aligned word is in one segment.
mask_region-+ :
    (addr k : ℕ)
    → addr + 3 < 2 ^ 32
    → addr % 4 ≡ 0
    → k < 4
    → mask_region (addr + k) ≡ mask_region addr + k
mask_region-+ addr k h a hk =
    ground (arith, mask_region_lem addr (omega arith), mask_region_lem (addr + k) (omega arith))

pub load8-ram :
    (b : Bus) (addr x : ℕ) → mask_region addr ≡ x → x < ram_size → load8 b addr ≡ ok (b.ram.cells x)
unfolding load8 Ram.load8
load8-ram b addr x e h = let (hit, at) = hits-ram x h in rw (e, hit, at) (ground arith)

abbrev pub with_byte : Bus → ℕ → ℕ → Bus
with_byte b x v = record b { ram = record { cells = update b.ram.cells x v } }

pub store8-ram :
    (b : Bus) (addr v x : ℕ)
    → mask_region addr ≡ x
    → x < ram_size
    → store8 b addr v ≡ ok (with_byte b x v)
unfolding store8 Ram.store8
store8-ram b addr v x e h = let (hit, at) = hits-ram x h in rw (e, hit, at) (ground arith)

-- For an aligned address of 32 bits in the RAM, whatever its segment, with bytes in the RAM: a
-- word load of the bus gives the sum of four byte loads, the lowest byte first, and a word store
-- does what four byte stores of the bytes of the word do.
pub widths_agree :
    (fuel : ℕ) (b : Bus) (addr v : ℕ)
    → addr + 3 < 2 ^ 32
    → addr % 4 ≡ 0
    → mask_region addr + 3 < ram_size
    → IsBytes b.ram
    → (load32 b addr ≡ (
        load8 b (addr + 0) >>= λ b0. load8 b (addr + 1) >>= λ b1. load8 b (addr + 2) >>= λ b2.
        load8 b (addr + 3) >>= λ b3. ok (b0 + b1 * 2 ^ 8 + b2 * 2 ^ 16 + b3 * 2 ^ 24)))
      × (store32 fuel b addr v ≡ (
          store8 b (addr + 0) (v % 2 ^ 8) >>= λ c1.
          store8 c1 (addr + 1) (v / 2 ^ 8 % 2 ^ 8) >>= λ c2.
          store8 c2 (addr + 2) (v / 2 ^ 16 % 2 ^ 8) >>= λ c3.
          store8 c3 (addr + 3) (v / 2 ^ 24 % 2 ^ 8)))
unfolding stored32
widths_agree fuel b addr v h a m bytes =
    let x = mask_region addr in
    let at : (k : ℕ) → k < 4 → mask_region (addr + k) ≡ x + k =
      λ k hk. mask_region-+ addr k h a hk in
    let byte : (k : ℕ) → k < 4 → load8 b (addr + k) ≡ ok (b.ram.cells (x + k)) =
      λ k hk. load8-ram b (addr + k) (x + k) (at k hk) (omega arith) in
    let put : (k : ℕ)
        → k < 4
        → (b' : Bus) (w : ℕ) → store8 b' (addr + k) w ≡ ok (with_byte b' (x + k) w) =
      λ k hk b' w. store8-ram b' (addr + k) w (x + k) (at k hk) (omega arith) in
    let c1 : Bus = with_byte b (x + 0) (v % 2 ^ 8) in
    let c2 : Bus = with_byte c1 (x + 1) (v / 2 ^ 8 % 2 ^ 8) in
    let c3 : Bus = with_byte c2 (x + 2) (v / 2 ^ 16 % 2 ^ 8) in
    (
      rw
          (
            load32-ram b addr x refl (omega arith),
            load32-in_range b.ram x m,
            byte 0 (omega arith),
            byte 1 (omega arith),
            byte 2 (omega arith),
            byte 3 (omega arith),
          )
          (ap ok (
            join32_sum (b.ram.cells (x + 0)) (b.ram.cells (x + 1)) (b.ram.cells (x + 2))
              (b.ram.cells (x + 3)) (bytes (x + 0)) (bytes (x + 1)) (bytes (x + 2)))),
      rw
          (
            store32-ram fuel b addr v x refl m,
            put 0 (omega arith) b (v % 2 ^ 8),
            put 1 (omega arith) c1 (v / 2 ^ 8 % 2 ^ 8),
            put 2 (omega arith) c2 (v / 2 ^ 16 % 2 ^ 8),
            put 3 (omega arith) c3 (v / 2 ^ 24 % 2 ^ 8),
          )
          refl,
    )
