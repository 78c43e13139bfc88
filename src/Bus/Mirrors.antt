-- ===== src/Bus/Mirrors.antt =====
-- The RAM behind the bus: one word under its addresses in KUSEG, KSEG0 and KSEG1.
use cpp_station.Prelude.{ℕ, ◌+◌, ◌%◌, ◌^◌, ◌<◌, ◌≡◌, refl, true, arith}
use cpp_station.Outcome.{ok, ◌>>=◌}
use cpp_station.Memory.Map.{memory_map, hits, offset_in, mask_region}
use cpp_station.Memory.Ram.{ram_size}
use cpp_station.Memory.Ram
use cpp_station.Memory.Ram.Access.{stored32, store32-in_range, load32-stored32}
use cpp_station.Bus.State.{Bus}
use cpp_station.Bus.Access.{load32, store32}

-- An address below 2 MB hits the RAM, with itself for the offset.
pub hits-ram :
    (x : ℕ) → x < ram_size → (hits memory_map.ram x ≡ true) × (offset_in memory_map.ram x ≡ x)
hits-ram x h = ground arith

pub store32-ram :
    (fuel : ℕ) (b : Bus) (addr v x : ℕ)
    → mask_region addr ≡ x
    → x + 3 < ram_size
    → store32 fuel b addr v ≡ ok (record b { ram = stored32 b.ram x v })
unfolding store32
store32-ram fuel b addr v x e h =
    let (hit, at) = hits-ram x (omega arith) in rw (e, hit, at, store32-in_range b.ram x v h) refl

pub load32-ram :
    (b : Bus) (addr x : ℕ)
    → mask_region addr ≡ x
    → x < ram_size
    → load32 b addr ≡ Ram.load32 b.ram x
unfolding load32
load32-ram b addr x e h = let (hit, at) = hits-ram x h in rw (e, hit, at) refl

-- A word of 32 bits that is stored at an aligned address of the RAM, seen in any segment, is read
-- back at every other address that maskRegion takes to the same place.
pub load32-store32_mirrors :
    (fuel : ℕ) (b : Bus) (addr addr' v x : ℕ)
    → mask_region addr ≡ x
    → mask_region addr' ≡ x
    → x % 4 ≡ 0
    → x < ram_size
    → v < 2 ^ 32
    → (store32 fuel b addr v >>= λ b'. load32 b' addr') ≡ ok v
load32-store32_mirrors fuel b addr addr' v x e e' al h hv =
    rw
      (
        store32-ram fuel b addr v x e (omega arith),
        load32-ram (record b { ram = stored32 b.ram x v }) addr' x e' h,
      )
      (load32-stored32 b.ram x v (omega arith) hv)
