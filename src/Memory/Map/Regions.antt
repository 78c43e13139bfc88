-- ===== src/Memory/Map/Regions.antt =====
-- The mirrors of the address space, and that no two regions of the map overlap.
use cpp_station.Prelude.{
  if◌then◌else◌, ℕ, ◌+◌, ◌-◌, ◌≤◌, ◌<◌, ◌^◌, ◌≡◌, ◌↔◌, true, List, [], ◌∷◌, ltb, arith,
}
use cpp_station.Word.Fields.{bit_and_mask}
use cpp_station.Memory.Map.{Range, Map, memory_map, hits, offset_in, mask_region}

-- `x` is in the region of `r`.
abbrev pub InRange : Range → ℕ → Type 0
InRange r x = (r.base ≤ x) × (x < r.base + r.size)

-- For an address of 32 bits, maskRegion keeps the addresses of KUSEG and KSEG2 and takes those of
-- KSEG0 and KSEG1 to the offset in their segment.
pub mask_region_lem :
    (addr : ℕ)
    → addr < 2 ^ 32
    → mask_region addr ≡ (
        if ltb addr 0x80000000
        then addr
        else if ltb addr 0xa0000000
        then addr - 0x80000000
        else if ltb addr 0xc0000000
        then addr - 0xa0000000
        else addr)
unfolding mask_region
mask_region_lem addr h =
    ground (arith, bit_and_mask 32 addr, bit_and_mask 31 addr, bit_and_mask 29 addr)

-- A range whose end does not wrap: the test by `contains` is membership, with the offset in it.
abbrev IsProper : Range → Type 0
IsProper r = (r.stop ≡ r.base + r.size) × (r.base + r.size < 2 ^ 32)

pub hits_iff : (r : Range) (x : ℕ) → IsProper r → (hits r x ≡ true) ↔ InRange r x
hits_iff r x h = (λ e. ground arith, λ e. ground arith)

pub offset_in-lt :
    (r : Range) (x : ℕ)
    → hits r x ≡ true
    → (offset_in r x ≡ x - r.base) × (r.base ≤ x) × (x < r.stop)
offset_in-lt r x e = ground arith

-- The regions of a map, as a list.
abbrev pub regions : Map → List Range
regions m =
    m.bios ∷ m.mem_control ∷ m.ram_control ∷ m.cache_control ∷ m.ram ∷ m.spu ∷ m.expansion1
    ∷ m.expansion2 ∷ m.irq_control ∷ m.timers ∷ m.dma ∷ m.gpu ∷ []

abbrev Apart : Range → List Range → Type 0
Apart r [] = Unit
Apart r (s ∷ rs) = ((x : ℕ) → InRange r x → ¬ InRange s x) × Apart r rs

abbrev pub IsDisjoint : List Range → Type 0
IsDisjoint [] = Unit
IsDisjoint (r ∷ rs) = Apart r rs × IsDisjoint rs

abbrev pub AllProper : List Range → Type 0
AllProper [] = Unit
AllProper (r ∷ rs) = IsProper r × AllProper rs

-- No end of a region of the memory map wraps, and no address is in two regions, so the order in
-- which the bus tests them does not matter.
pub memory_map-IsDisjoint : AllProper (regions memory_map) × IsDisjoint (regions memory_map)
memory_map-IsDisjoint = omega arith
