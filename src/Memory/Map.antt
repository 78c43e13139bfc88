-- ===== src/Memory/Map.antt =====
-- The address space: memory/map.hpp and memory/map.cpp.
pub mod Regions
use cpp_station.Prelude.{
  ℕ, ◌+◌, ◌*◌, ◌-◌, ◌≤◌, ◌<◌, ◌^◌, Bool, not, List, [], ◌∷◌, ◌&&◌, bit_and, ltb, leb, ◌==◌,
  if◌then◌else◌, zero, suc,
}
use cpp_station.Word.{add32, shr}
use cpp_station.Memory.Ram.{ram_size}
use cpp_station.Memory.Bios.{bios_size}

pub record Range : Type 0 where
  pub base : ℕ
  pub size : ℕ
  pub stop : ℕ

-- The constructor; `mEnd` is `stop` here.
abbrev pub range : ℕ → ℕ → Range
range base size = record { base = base; size = size; stop = add32 base size }

-- The bits of `(int32_t)-1`.
abbrev pub minus_one : ℕ
minus_one = 0xffffffff

-- `contains`: the offset of an address, or -1.
abbrev pub contains : ℕ → ℕ → ℕ → ℕ
contains addr stop base = if leb base addr && ltb addr stop then addr - base else minus_one

-- The fields of `Map`, with the values of its constructor.
pub record Map : Type 0 where
  pub bios : Range
  pub mem_control : Range
  pub ram_control : Range
  pub cache_control : Range
  pub ram : Range
  pub spu : Range
  pub expansion1 : Range
  pub expansion2 : Range
  pub irq_control : Range
  pub timers : Range
  pub dma : Range
  pub gpu : Range

abbrev pub memory_map : Map
memory_map = record {
  bios = range 0x1fc00000 bios_size;
  mem_control = range 0x1f801000 36;
  ram_control = range 0x1f801060 4;
  cache_control = range 0xfffe0130 4;
  ram = range 0x00000000 ram_size;
  spu = range 0x1f801c00 640;
  expansion1 = range 0x1f000000 (512 * 1024);
  expansion2 = range 0x1f802000 66;
  irq_control = range 0x1f801070 8;
  timers = range 0x1f801100 0x30;
  dma = range 0x1f801080 0x80;
  gpu = range 0x1f801810 8;
}

-- What `Bus` does with a range: the offset of an address, and the test that it is not -1.
abbrev pub offset_in : Range → ℕ → ℕ
offset_in r addr = contains addr r.stop r.base

abbrev pub hits : Range → ℕ → Bool
hits r addr = not (offset_in r addr == minus_one)

-- `REGION_MASK`, and its entry for an index of three bits.
abbrev pub region_mask : List ℕ
region_mask =
    0xffffffff ∷ 0xffffffff ∷ 0xffffffff ∷ 0xffffffff ∷ 0x7fffffff ∷ 0x1fffffff ∷ 0xffffffff
    ∷ 0xffffffff ∷ []

abbrev get_or : List ℕ → ℕ → ℕ → ℕ
get_or [] i d = d
get_or (x ∷ xs) zero d = x
get_or (x ∷ xs) (suc i) d = get_or xs i d

unfoldable pub mask_region : ℕ → ℕ
mask_region addr = bit_and addr (get_or region_mask (shr addr 29) 0)
