-- ===== src/Memory/Ram.antt =====
-- `Ram` of memory/ram.cpp: two megabytes of main memory.
pub mod Access
pub mod Contents
use cpp_station.Prelude.{ℕ, ◌+◌, ◌*◌, ◌<◌}
use cpp_station.Word.{shr, low_bits}
use cpp_station.Outcome.{Outcome, ok, ◌>>=◌}
use cpp_station.Memory.Bytes.{read_byte, write_byte, join32, join16}

abbrev pub ram_size : ℕ
ram_size = 2 * 1024 * 1024

pub record Ram : Type 0 where
  pub cells : ℕ → ℕ

-- The constructor, where the allocation succeeds: the contents are 0xca.
unfoldable pub new_ram : Ram
new_ram = record { cells = λ _. 0xca }

read : Ram → ℕ → Outcome ℕ
unfolding read_byte
read r i = read_byte ram_size r.cells i

write : Ram → ℕ → ℕ → Outcome Ram
unfolding write_byte
write r i v = do cells ← write_byte ram_size r.cells i v; ok (record { cells = cells })

unfoldable pub load32 : Ram → ℕ → Outcome ℕ
unfolding read
load32 r offset = do
  b0 ← read r (offset + 0)
  b1 ← read r (offset + 1)
  b2 ← read r (offset + 2)
  b3 ← read r (offset + 3)
  ok (join32 b0 b1 b2 b3)

unfoldable pub store32 : Ram → ℕ → ℕ → Outcome Ram
unfolding write
store32 r offset val = do
  let b0 = low_bits val 8
  let b1 = low_bits (shr val 8) 8
  let b2 = low_bits (shr val 16) 8
  let b3 = low_bits (shr val 24) 8
  r1 ← write r (offset + 0) b0
  r2 ← write r1 (offset + 1) b1
  r3 ← write r2 (offset + 2) b2
  write r3 (offset + 3) b3

unfoldable pub load16 : Ram → ℕ → Outcome ℕ
unfolding read
load16 r offset = do b0 ← read r (offset + 0); b1 ← read r (offset + 1); ok (join16 b0 b1)

unfoldable pub store16 : Ram → ℕ → ℕ → Outcome Ram
unfolding write
store16 r offset val = do
  let b0 = low_bits val 8
  let b1 = low_bits (shr val 8) 8
  r1 ← write r (offset + 0) b0
  write r1 (offset + 1) b1

unfoldable pub load8 : Ram → ℕ → Outcome ℕ
unfolding read
load8 r offset = read r offset

unfoldable pub store8 : Ram → ℕ → ℕ → Outcome Ram
unfolding write
store8 r offset val = write r offset val

-- Every cell holds a byte.
abbrev pub IsBytes : Ram → Type 0
IsBytes r = (i : ℕ) → r.cells i < 256
