-- ===== src/Memory/Ram/Access.antt =====
-- What the loads of `Ram` find after the stores, and when an access leaves the buffer.
use cpp_station.Prelude.{ℕ, ◌+◌, ◌/◌, ◌%◌, ◌^◌, ◌≤◌, ◌<◌, ◌≡◌, ◌↔◌, ◌⊎◌, update, arith}
use cpp_station.Outcome.{ok, fault, ◌>>=◌}
use cpp_station.Memory.Bytes.{join32, join32_bytes}
use cpp_station.Memory.Ram.{Ram, ram_size, load32, store32}

-- The buffer after a 32-bit store.
unfoldable pub stored32 : Ram → ℕ → ℕ → Ram
stored32 r offset v = record {
  cells =
      update
        (update (update (update r.cells (offset + 0) (v % 2 ^ 8)) (offset + 1) (v / 2 ^ 8 % 2 ^ 8))
          (offset + 2) (v / 2 ^ 16 % 2 ^ 8))
        (offset + 3) (v / 2 ^ 24 % 2 ^ 8);
}

pub store32-in_range :
    (r : Ram) (offset v : ℕ) → offset + 3 < ram_size → store32 r offset v ≡ ok (stored32 r offset v)
unfolding store32 stored32
store32-in_range r offset v h = ground arith

pub load32-in_range :
    (r : Ram) (offset : ℕ)
    → offset + 3 < ram_size
    → load32 r offset
      ≡ ok (
          join32
            (r.cells (offset + 0))
            (r.cells (offset + 1))
            (r.cells (offset + 2))
            (r.cells (offset + 3)))
unfolding load32
load32-in_range r offset h = ground arith

pub load32-stored32 :
    (r : Ram) (offset v : ℕ)
    → offset + 3 < ram_size
    → v < 2 ^ 32
    → load32 (stored32 r offset v) offset ≡ ok v
unfolding stored32
load32-stored32 r offset v h hv =
    rw (load32-in_range _ offset h) (ground (arith, join32_bytes v hv))

-- A word of 32 bits that is stored inside the buffer of the RAM is read back.
pub load32-store32 :
    (r : Ram) (offset v : ℕ)
    → offset + 3 < ram_size
    → v < 2 ^ 32
    → (store32 r offset v >>= λ r'. load32 r' offset) ≡ ok v
load32-store32 r offset v h hv =
    rw (store32-in_range r offset v h) (load32-stored32 r offset v h hv)

-- A 32-bit store that succeeds puts the four bytes of the word at its offset, lowest byte first,
-- and changes no other cell.
pub store32-cells :
    (r r' : Ram) (offset v j : ℕ)
    → store32 r offset v ≡ ok r'
    → (j < offset) ⊎ (offset + 3 < j)
    → (r'.cells offset ≡ v % 256)
      × (r'.cells (offset + 1) ≡ v / 2 ^ 8 % 256)
      × (r'.cells (offset + 2) ≡ v / 2 ^ 16 % 256)
      × (r'.cells (offset + 3) ≡ v / 2 ^ 24 % 256)
      × (r'.cells j ≡ r.cells j)
unfolding store32
store32-cells r r' offset v j e h =
    (ground arith, ground arith, ground arith, ground arith, ground arith)

-- A 32-bit load from the RAM is undefined exactly when its last byte lies outside the buffer.
pub load32-eq-fault_iff :
    (r : Ram) (offset : ℕ) → (load32 r offset ≡ fault) ↔ (ram_size ≤ offset + 3)
unfolding load32
load32-eq-fault_iff r offset = (λ e. ground arith, λ h. ground arith)

pub store32-eq-fault_iff :
    (r : Ram) (offset v : ℕ) → (store32 r offset v ≡ fault) ↔ (ram_size ≤ offset + 3)
unfolding store32
store32-eq-fault_iff r offset v = (λ e. ground arith, λ h. ground arith)
