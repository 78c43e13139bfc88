-- ===== src/Cpu/Unaligned.antt =====
-- LWL, LWR, SWL and SWR: a part of the aligned word that holds an address, merged with a register.
pub mod Merge
use cpp_station.Prelude.{ℕ, bit_and, bit_or, ◌==◌, if◌then◌else◌}
use cpp_station.Word.{low_bits, shr, shl32, not32}
use cpp_station.Outcome.{Outcome, ok, ◌>>=◌}
use cpp_station.Bus.Access
use cpp_station.Cpu.Instruction.{t}
use cpp_station.Cpu.State.{Machine, reg}
use cpp_station.Cpu.Memory.{address, with_cpu, delay_load, store32}

-- `addr & ~3`
abbrev pub aligned : ℕ → ℕ
aligned addr = bit_and addr (not32 3)

-- The `switch (addr & 3)` of each of the four, with the old value and the word merged into it.
unfoldable pub merge_lwl : ℕ → ℕ → ℕ → ℕ
merge_lwl addr cur_v word =
    let k = low_bits addr 2 in
    if k == 0
    then bit_or (bit_and cur_v 0x00ffffff) (shl32 word 24)
    else if k == 1
    then bit_or (bit_and cur_v 0x0000ffff) (shl32 word 16)
    else if k == 2
    then bit_or (bit_and cur_v 0x000000ff) (shl32 word 8)
    else bit_or (bit_and cur_v 0x00000000) (shl32 word 0)

unfoldable pub merge_lwr : ℕ → ℕ → ℕ → ℕ
merge_lwr addr cur_v word =
    let k = low_bits addr 2 in
    if k == 0
    then bit_or (bit_and cur_v 0x00ffffff) (shr word 24)
    else if k == 1
    then bit_or (bit_and cur_v 0x0000ffff) (shr word 16)
    else if k == 2
    then bit_or (bit_and cur_v 0x000000ff) (shr word 8)
    else bit_or (bit_and cur_v 0x00000000) (shr word 0)

unfoldable pub merge_swl : ℕ → ℕ → ℕ → ℕ
merge_swl addr cur_mem v =
    let k = low_bits addr 2 in
    if k == 0
    then bit_or (bit_and cur_mem 0x00ffffff) (shr v 24)
    else if k == 1
    then bit_or (bit_and cur_mem 0x0000ffff) (shr v 16)
    else if k == 2
    then bit_or (bit_and cur_mem 0x000000ff) (shr v 8)
    else bit_or (bit_and cur_mem 0x00000000) (shr v 0)

unfoldable pub merge_swr : ℕ → ℕ → ℕ → ℕ
merge_swr addr cur_mem v =
    let k = low_bits addr 2 in
    if k == 0
    then bit_or (bit_and cur_mem 0x00ffffff) (shl32 v 24)
    else if k == 1
    then bit_or (bit_and cur_mem 0x0000ffff) (shl32 v 16)
    else if k == 2
    then bit_or (bit_and cur_mem 0x000000ff) (shl32 v 8)
    else bit_or (bit_and cur_mem 0x00000000) (shl32 v 0)

-- A load merges with the output register, so it sees a load that has just come through.
unfoldable pub op_lwl : Machine → ℕ → Outcome Machine
unfolding merge_lwl
op_lwl m i =
    let c = m.cpu in
    let addr = address c i in
    let cur_v = c.out_regs (t i) in
    Access.load32 m.bus (aligned addr) >>= λ word.
    ok (with_cpu m (delay_load c (t i) (merge_lwl addr cur_v word)))

unfoldable pub op_lwr : Machine → ℕ → Outcome Machine
unfolding merge_lwr
op_lwr m i =
    let c = m.cpu in
    let addr = address c i in
    let cur_v = c.out_regs (t i) in
    Access.load32 m.bus (aligned addr) >>= λ word.
    ok (with_cpu m (delay_load c (t i) (merge_lwr addr cur_v word)))

unfoldable pub op_swl : ℕ → Machine → ℕ → Outcome Machine
unfolding merge_swl
op_swl fuel m i =
    let addr = address m.cpu i in
    let v = reg m.cpu (t i) in
    Access.load32 m.bus (aligned addr) >>= λ cur_mem.
    store32 fuel m (aligned addr) (merge_swl addr cur_mem v)

unfoldable pub op_swr : ℕ → Machine → ℕ → Outcome Machine
unfolding merge_swr
op_swr fuel m i =
    let addr = address m.cpu i in
    let v = reg m.cpu (t i) in
    Access.load32 m.bus (aligned addr) >>= λ cur_mem.
    store32 fuel m (aligned addr) (merge_swr addr cur_mem v)
