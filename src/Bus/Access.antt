-- ===== src/Bus/Access.antt =====
-- The loads and stores of `Bus`. The messages about registers that are not emulated are not
-- modelled; what such a register returns is.
use cpp_station.Prelude.{ℕ, ◌==◌, if◌then◌else◌}
use cpp_station.Outcome.{
  Outcome, ok, panic, ◌>>=◌, unhandled_load32, unhandled_load16, unhandled_load8, unhandled_store32,
  unhandled_store16, unhandled_store8, bad_expansion1_base, bad_expansion2_base, unhandled_gpu_read,
  unhandled_gpu_write,
}
use cpp_station.Memory.Map.{memory_map, hits, offset_in, mask_region}
use cpp_station.Memory.Ram
use cpp_station.Memory.Bios
use cpp_station.Gpu.Status.{status, read}
use cpp_station.Gpu.Gp0.{gp0}
use cpp_station.Gpu.Gp1.{gp1}
use cpp_station.Bus.State.{Bus}
use cpp_station.Bus.Registers.{dma_reg, set_dma_reg}

-- The `switch` on a GPU register.
unfoldable pub gpu_load : Bus → ℕ → Outcome ℕ
gpu_load b offset =
    if offset == 0
    then ok (read b.gpu)
    else if offset == 4
    then ok (status b.gpu)
    else panic (unhandled_gpu_read offset)

unfoldable pub load32 : Bus → ℕ → Outcome ℕ
unfolding gpu_load
load32 b addr =
    let abs = mask_region addr in
    if hits memory_map.ram abs
    then Ram.load32 b.ram (offset_in memory_map.ram abs)
    else if hits memory_map.bios abs
    then Bios.load32 b.bios (offset_in memory_map.bios abs)
    else if hits memory_map.irq_control abs
    then ok 0
    else if hits memory_map.dma abs
    then dma_reg b (offset_in memory_map.dma abs)
    else if hits memory_map.gpu abs
    then gpu_load b (offset_in memory_map.gpu abs)
    else if hits memory_map.timers abs
    then ok 0
    else panic (unhandled_load32 abs)

-- The two registers whose value the emulator insists on.
unfoldable pub mem_control_store : Bus → ℕ → ℕ → Outcome Bus
mem_control_store b offset val =
    if offset == 0
    then if val == 0x1f000000 then ok b else panic (bad_expansion1_base val)
    else if offset == 4
    then if val == 0x1f802000 then ok b else panic (bad_expansion2_base val)
    else ok b

unfoldable pub gpu_store : Bus → ℕ → ℕ → Outcome Bus
gpu_store b offset val =
    if offset == 0
    then (gp0 b.gpu val >>= λ g. ok (record b { gpu = g }))
    else if offset == 4
    then (gp1 b.gpu val >>= λ g. ok (record b { gpu = g }))
    else panic (unhandled_gpu_write offset val)

unfoldable pub store32 : ℕ → Bus → ℕ → ℕ → Outcome Bus
unfolding mem_control_store gpu_store
store32 fuel b addr val =
    let abs = mask_region addr in
    if hits memory_map.ram abs
    then (Ram.store32 b.ram (offset_in memory_map.ram abs) val >>= λ r. ok (record b { ram = r }))
    else if hits memory_map.mem_control abs
    then mem_control_store b (offset_in memory_map.mem_control abs) val
    else if hits memory_map.ram_control abs
    then ok b
    else if hits memory_map.cache_control abs
    then ok b
    else if hits memory_map.irq_control abs
    then ok b
    else if hits memory_map.dma abs
    then set_dma_reg fuel b (offset_in memory_map.dma abs) val
    else if hits memory_map.gpu abs
    then gpu_store b (offset_in memory_map.gpu abs) val
    else if hits memory_map.timers abs
    then ok b
    else panic (unhandled_store32 abs)

unfoldable pub load16 : Bus → ℕ → Outcome ℕ
load16 b addr =
    let abs = mask_region addr in
    if hits memory_map.ram abs
    then Ram.load16 b.ram (offset_in memory_map.ram abs)
    else if hits memory_map.spu abs
    then ok 0
    else if hits memory_map.irq_control abs
    then ok 0
    else panic (unhandled_load16 addr)

unfoldable pub store16 : Bus → ℕ → ℕ → Outcome Bus
store16 b addr val =
    let abs = mask_region addr in
    if hits memory_map.ram abs
    then (Ram.store16 b.ram (offset_in memory_map.ram abs) val >>= λ r. ok (record b { ram = r }))
    else if hits memory_map.spu abs
    then ok b
    else if hits memory_map.timers abs
    then ok b
    else if hits memory_map.irq_control abs
    then ok b
    else panic (unhandled_store16 addr)

unfoldable pub load8 : Bus → ℕ → Outcome ℕ
load8 b addr =
    let abs = mask_region addr in
    if hits memory_map.ram abs
    then Ram.load8 b.ram (offset_in memory_map.ram abs)
    else if hits memory_map.bios abs
    then Bios.load8 b.bios (offset_in memory_map.bios abs)
    else if hits memory_map.expansion1 abs
    then ok 0xff
    else panic (unhandled_load8 addr)

unfoldable pub store8 : Bus → ℕ → ℕ → Outcome Bus
store8 b addr val =
    let abs = mask_region addr in
    if hits memory_map.ram abs
    then (Ram.store8 b.ram (offset_in memory_map.ram abs) val >>= λ r. ok (record b { ram = r }))
    else if hits memory_map.expansion2 abs
    then ok b
    else panic (unhandled_store8 addr val)
