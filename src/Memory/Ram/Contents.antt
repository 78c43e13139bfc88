-- ===== src/Memory/Ram/Contents.antt =====
-- The cells of the RAM stay bytes, and the loads give words of their size.
use cpp_station.Prelude.{ℕ, ◌+◌, ◌^◌, ◌<◌, arith}
use cpp_station.Outcome.{Ensures}
use cpp_station.Memory.Bytes.{join32-lt, join16-lt}
use cpp_station.Memory.Ram.{Ram, IsBytes, load32, load16, load8, store32, store16, store8}

pub loads-lt :
    (r : Ram) (offset : ℕ)
    → IsBytes r
    → Ensures (λ v. v < 2 ^ 32) (load32 r offset)
      × Ensures (λ v. v < 2 ^ 16) (load16 r offset)
      × Ensures (λ v. v < 2 ^ 8) (load8 r offset)
unfolding load32 load16 load8
loads-lt r offset h =
    let c = r.cells in
    let word =
      join32-lt (c (offset + 0)) (c (offset + 1)) (c (offset + 2)) (c (offset + 3)) (h (offset + 0))
        (h (offset + 1)) (h (offset + 2)) (h (offset + 3)) in
    let half = join16-lt (c (offset + 0)) (c (offset + 1)) (h (offset + 0)) (h (offset + 1)) in
    (ground (arith, word), ground (arith, half), ground (arith, h offset))

pub store32-IsBytes : (r : Ram) (offset v : ℕ) → IsBytes r → Ensures IsBytes (store32 r offset v)
unfolding store32
store32-IsBytes r offset v h = ground arith

pub store16-IsBytes : (r : Ram) (offset v : ℕ) → IsBytes r → Ensures IsBytes (store16 r offset v)
unfolding store16
store16-IsBytes r offset v h = ground arith

pub store8-IsBytes :
    (r : Ram) (offset v : ℕ) → IsBytes r → v < 2 ^ 8 → Ensures IsBytes (store8 r offset v)
unfolding store8
store8-IsBytes r offset v h hv = ground arith
