-- ===== src/Bus/Sizes.antt =====
-- The accesses of the CPU keep the state behind the bus well formed, and a load gives a word of its
-- size.
use cpp_station.Prelude.{ℕ, ◌+◌, ◌^◌, ◌<◌, inl, inr, Bool-cases, ltb, arith}
use cpp_station.Word.Fields.{bit_or_low}
use cpp_station.Outcome.{
  Outcome, ok, panic, unhandled_store32, ◌>>=◌, Ensures, Ensures-if, Ensures-bind, Safe-Ensures,
}
use cpp_station.Memory.Bytes.{join32-lt}
use cpp_station.Memory.Map.{memory_map, hits, offset_in, mask_region}
use cpp_station.Memory.Ram.{Ram, IsBytes}
use cpp_station.Memory.Ram
use cpp_station.Memory.Ram.Contents.{loads-lt, store32-IsBytes, store16-IsBytes, store8-IsBytes}
use cpp_station.Memory.Bios
use cpp_station.Memory.Bios.{Bios}
use cpp_station.Dma.Channel.{Channel, Port, port_from_index, block_control, active, port_code}
use cpp_station.Dma.Channel.Registers.{IsChannel, setters-IsChannel, control-lt}
use cpp_station.Dma.Controller.{Dma, interrupt, set_interrupt}
use cpp_station.Dma.Controller
use cpp_station.Dma.Interrupts.{set_interrupt-IsDma, interrupt-lt}
use cpp_station.Gpu.Gp0.{gp0}
use cpp_station.Gpu.Gp1.{gp1}
use cpp_station.Gpu.Gp0.Invariant.{IsGpu, gp0-IsGpu}
use cpp_station.Gpu.Registers.{gp1-IsGpu, status_lem}
use cpp_station.Bus.State.{Bus, channel_of, with_channel}
use cpp_station.Bus.Transfer.{do_dma}
use cpp_station.Bus.Registers.{dma_reg, set_dma_reg, set_channel_reg, major}
use cpp_station.Bus.Access.{
  gpu_load, gpu_store, mem_control_store, load32, load16, load8, store32, store16, store8,
}
use cpp_station.Bus.Invariant.{
  IsBus, IsWord, Any, trivially, with_gpu-IsBus, with_ram-IsBus, with_channel-IsBus, do_dma-IsBus,
}

bios_loads-lt :
    (b : Bios) (offset : ℕ)
    → ((i : ℕ) → b.buffer i < 256)
    → Ensures IsWord (Bios.load32 b offset) × Ensures (λ v. v < 2 ^ 8) (Bios.load8 b offset)
unfolding Bios.load32 Bios.load8
bios_loads-lt b offset h =
    let c = b.buffer in
    let word =
      join32-lt (c (offset + 0)) (c (offset + 1)) (c (offset + 2)) (c (offset + 3)) (h (offset + 0))
        (h (offset + 1)) (h (offset + 2)) (h (offset + 3)) in
    (ground (arith, word), ground (arith, h offset))

block_control-lt : (c : Channel) → IsChannel c → block_control c < 2 ^ 32
unfolding block_control
block_control-lt c h =
    omega (arith, bit_or_low 16 c.block_size c.block_count h.size16, h.size16, h.count16)

dma_reg-lt : (b : Bus) (offset : ℕ) → IsBus b → Ensures IsWord (dma_reg b offset)
unfolding dma_reg
dma_reg-lt b offset h = elim (Bool-cases (ltb (major offset) 7)) [
  | inl e ↦ rw e (
      Ensures-bind Any IsWord (port_from_index (major offset)) _ (trivially _) (λ p u.
        let c = h.channels (port_code p) in
        ground
          (arith, c.base24, control-lt (channel_of b p) c, block_control-lt (channel_of b p) c)))
  | inr e ↦ rw e (ground (arith, interrupt-lt b.dma h.dma_fields, h.control32))
]

gpu_load-lt : (b : Bus) (offset : ℕ) → IsBus b → Ensures IsWord (gpu_load b offset)
unfolding gpu_load
gpu_load-lt b offset h = ground (arith, (status_lem b.gpu h.gpu_valid).0)

pub load32-IsWord : (b : Bus) (addr : ℕ) → IsBus b → Ensures IsWord (load32 b addr)
unfolding load32
load32-IsWord b addr h =
    let x = mask_region addr in
    let ram = (loads-lt b.ram (offset_in memory_map.ram x) h.ram_bytes).0 in
    let bios = (bios_loads-lt b.bios (offset_in memory_map.bios x) h.bios_bytes).0 in
    let dma = dma_reg-lt b (offset_in memory_map.dma x) h in
    let gpu = gpu_load-lt b (offset_in memory_map.gpu x) h in ground (arith, ram, bios, dma, gpu)

pub load16-lt : (b : Bus) (addr : ℕ) → IsBus b → Ensures (λ v. v < 2 ^ 16) (load16 b addr)
unfolding load16
load16-lt b addr h =
    let ram = (loads-lt b.ram (offset_in memory_map.ram (mask_region addr)) h.ram_bytes).1 in
    ground (arith, ram)

pub load8-lt : (b : Bus) (addr : ℕ) → IsBus b → Ensures (λ v. v < 2 ^ 8) (load8 b addr)
unfolding load8
load8-lt b addr h =
    let x = mask_region addr in
    let ram = (loads-lt b.ram (offset_in memory_map.ram x) h.ram_bytes).2 in
    let bios = (bios_loads-lt b.bios (offset_in memory_map.bios x) h.bios_bytes).1 in
    ground (arith, ram, bios)

with_dma_control-IsBus :
    (b : Bus) (v : ℕ)
    → IsBus b
    → v < 2 ^ 32
    → IsBus (record b { dma = Controller.set_control b.dma v })
with_dma_control-IsBus b v h hv = record {
  ram_bytes = h.ram_bytes;
  bios_bytes = h.bios_bytes;
  control32 = hv;
  dma_fields = record {
    dummy6 = h.dma_fields.dummy6;
    en7 = h.dma_fields.en7;
    flags7 = h.dma_fields.flags7;
  };
  channels = h.channels;
  gpu_valid = h.gpu_valid;
}

with_interrupt-IsBus :
    (b : Bus) (v : ℕ) → IsBus b → IsBus (record b { dma = set_interrupt b.dma v })
unfolding set_interrupt
with_interrupt-IsBus b v h = record {
  ram_bytes = h.ram_bytes;
  bios_bytes = h.bios_bytes;
  control32 = h.control32;
  dma_fields = set_interrupt-IsDma b.dma v h.dma_fields;
  channels = h.channels;
  gpu_valid = h.gpu_valid;
}

set_channel_reg-IsChannel :
    (c : Channel) (offset v : ℕ) → IsChannel c → Ensures IsChannel (set_channel_reg c offset v)
unfolding set_channel_reg
set_channel_reg-IsChannel c offset v h =
    let (base, block, ctl, rest) = setters-IsChannel c v h in ground (arith, base, block, ctl)

set_dma_reg-IsBus :
    (fuel : ℕ) (b : Bus) (offset v : ℕ)
    → IsBus b
    → v < 2 ^ 32
    → Ensures IsBus (set_dma_reg fuel b offset v)
unfolding set_dma_reg
set_dma_reg-IsBus fuel b offset v h hv =
    let channel = λ (p : Port) (c : Channel) (k : IsChannel c).
      let valid = with_channel-IsBus b p c h k in
      Ensures-if IsBus (active c) (do_dma fuel (with_channel b p c) p) (ok (with_channel b p c))
        (do_dma-IsBus fuel (with_channel b p c) p valid) valid in
    elim (Bool-cases (ltb (major offset) 7)) [
      | inl e ↦ rw e (
          Ensures-bind Any IsBus (port_from_index (major offset)) _ (trivially _) (λ p u.
            Ensures-bind IsChannel IsBus (set_channel_reg (channel_of b p) offset v) _
              (set_channel_reg-IsChannel (channel_of b p) offset v (h.channels (port_code p)))
              (channel p)))
      | inr e ↦ rw e (ground (arith, with_dma_control-IsBus b v h hv, with_interrupt-IsBus b v h))
    ]

gpu_store-IsBus : (b : Bus) (offset v : ℕ) → IsBus b → Ensures IsBus (gpu_store b offset v)
unfolding gpu_store
gpu_store-IsBus b offset v h =
    let by_gp0 =
      Ensures-bind IsGpu IsBus (gp0 b.gpu v) (λ g. ok (record b { gpu = g }))
        (Safe-Ensures IsGpu (gp0 b.gpu v) (gp0-IsGpu b.gpu v h.gpu_valid))
        (λ g k. with_gpu-IsBus b g h k) in
    let by_gp1 =
      Ensures-bind IsGpu IsBus (gp1 b.gpu v) (λ g. ok (record b { gpu = g }))
        (Safe-Ensures IsGpu (gp1 b.gpu v) (gp1-IsGpu b.gpu v h.gpu_valid))
        (λ g k. with_gpu-IsBus b g h k) in
    ground (arith, by_gp0, by_gp1)

mem_control_store-IsBus :
    (b : Bus) (offset v : ℕ) → IsBus b → Ensures IsBus (mem_control_store b offset v)
unfolding mem_control_store
mem_control_store-IsBus b offset v h = ground (arith, h)

stored-IsBus :
    (b : Bus) (m : Outcome Ram)
    → IsBus b
    → Ensures IsBytes m
    → Ensures IsBus (m >>= λ r. ok (record b { ram = r }))
stored-IsBus b m h k = Ensures-bind IsBytes IsBus m _ k (λ r bytes. with_ram-IsBus b r h bytes)

pub store32-IsBus :
    (fuel : ℕ) (b : Bus) (addr v : ℕ) → IsBus b → v < 2 ^ 32 → Ensures IsBus (store32 fuel b addr v)
unfolding store32
store32-IsBus fuel b addr v h hv =
    let x = mask_region addr in
    let ram =
      stored-IsBus b (Ram.store32 b.ram (offset_in memory_map.ram x) v) h
        (store32-IsBytes b.ram (offset_in memory_map.ram x) v h.ram_bytes) in
    let dma = set_dma_reg-IsBus fuel b (offset_in memory_map.dma x) v h hv in
    let gpu = gpu_store-IsBus b (offset_in memory_map.gpu x) v h in
    let control = mem_control_store-IsBus b (offset_in memory_map.mem_control x) v h in
    elim (Bool-cases (hits memory_map.ram x)) [
      | inl e1 ↦ rw e1 ram
      | inr e1 ↦ rw e1 (elim (Bool-cases (hits memory_map.mem_control x)) [
        | inl e2 ↦ rw e2 control
        | inr e2 ↦ rw e2 (
            Ensures-if IsBus (hits memory_map.ram_control x) (ok b) _ h (
              Ensures-if IsBus (hits memory_map.cache_control x) (ok b) _ h (
                Ensures-if IsBus (hits memory_map.irq_control x) (ok b) _ h (
                  Ensures-if IsBus (hits memory_map.dma x)
                    (set_dma_reg fuel b (offset_in memory_map.dma x) v) _ dma
                    (Ensures-if IsBus (hits memory_map.gpu x)
                      (gpu_store b (offset_in memory_map.gpu x) v) _ gpu
                      (Ensures-if IsBus (hits memory_map.timers x) (ok b)
                        (panic (unhandled_store32 x)) h tt))))))
      ])
    ]

pub store16-IsBus : (b : Bus) (addr v : ℕ) → IsBus b → Ensures IsBus (store16 b addr v)
unfolding store16
store16-IsBus b addr v h =
    let x = offset_in memory_map.ram (mask_region addr) in
    ground (arith, stored-IsBus b (Ram.store16 b.ram x v) h (store16-IsBytes b.ram x v h.ram_bytes))

pub store8-IsBus : (b : Bus) (addr v : ℕ) → IsBus b → v < 2 ^ 8 → Ensures IsBus (store8 b addr v)
unfolding store8
store8-IsBus b addr v h hv =
    let x = offset_in memory_map.ram (mask_region addr) in
    ground
      (arith, stored-IsBus b (Ram.store8 b.ram x v) h (store8-IsBytes b.ram x v h.ram_bytes hv))
