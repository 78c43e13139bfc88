-- ===== src/Bus/DmaWindow/Stores.antt =====
-- What a store to one register of the DMA controller leaves in each of them.
use cpp_station.Prelude.{
  ℕ, ◌+◌, ◌*◌, ◌/◌, ◌%◌, ◌^◌, ◌<◌, ◌≡◌, ◌≢◌, refl, ◌∙◌, inl, inr, Bool, true, false, Bool-cases,
  update, ◌==◌, if◌then◌else◌, ==_true, ==_false, arith,
}
use cpp_station.Outcome.{ok}
use cpp_station.Memory.Map.{mask_region}
use cpp_station.Dma.Channel.{
  Channel, Port, Sync, sync_code, port_code, control, block_control, set_block_control, set_base,
  active,
}
use cpp_station.Dma.Channel.Registers.{
  IsChannel, configured, set_control-configured, control-configured, sync_of_code,
  block_control-set_block_control,
}
use cpp_station.Dma.Controller
use cpp_station.Dma.Controller.{Dma, channel, set_channel}
use cpp_station.Bus.State.{Bus, channel_of, with_channel}
use cpp_station.Bus.Registers.{set_channel_reg, set_dma_reg}
use cpp_station.Bus.Access.{load32, store32}
use cpp_station.Bus.DmaWindow.{
  Field, base_field, block_field, control_field, Register, of_channel, general, interrupts,
  field_offset, place_of, field, value, field_kept, kept, IsQuiet, port_code-lt,
  port_from_index-port_code, field_offset-lt, place_lem, place-lt, dma_reg-value, load32-window,
  store32-window,
}

-- The registers of a channel after a store of `v` to the one at `k` that keeps it.
abbrev pub Keeps : Channel → Field → ℕ → Channel → Type 0
Keeps c k v c' =
    (k' : Field)
    → field k' c' ≡ (if field_offset k == field_offset k' then field_kept k v else field k' c)

set_base-Keeps : (c : Channel) (v : ℕ) → Keeps c base_field v (set_base c v)
unfolding set_base control block_control
set_base-Keeps c v base_field = refl
set_base-Keeps c v block_field = refl
set_base-Keeps c v control_field = refl

set_block_control-Keeps :
    (c : Channel) (v : ℕ) → v < 2 ^ 32 → Keeps c block_field v (set_block_control c v)
unfolding set_block_control control
set_block_control-Keeps c v h base_field = refl
set_block_control-Keeps c v h block_field = block_control-set_block_control c v h
set_block_control-Keeps c v h control_field = refl

configured-Keeps :
    (c : Channel) (v : ℕ) (s : Sync)
    → IsChannel c
    → sync_code s ≡ v / 2 ^ 9 % 4
    → Keeps c control_field v (configured c v s)
unfolding configured block_control
configured-Keeps c v s valid e base_field = refl
configured-Keeps c v s valid e block_field = refl
configured-Keeps c v s valid e control_field = control-configured c v s valid e

set_channel_reg-Keeps :
    (b : Bus) (p : Port) (k : Field) (v : ℕ)
    → v < 2 ^ 32
    → IsChannel (channel_of b p)
    → IsQuiet b (of_channel p k) v
    → (c : Channel) × (set_channel_reg (channel_of b p) (place_of (of_channel p k)) v ≡ ok c)
      × (active c ≡ false)
      × Keeps (channel_of b p) k v c
unfolding set_channel_reg set_base set_block_control active configured
set_channel_reg-Keeps b p base_field v h valid quiet =
    let (at, in_channel, below) = place_lem p base_field in
    let c = channel_of b p in (set_base c v, rw in_channel refl, quiet, set_base-Keeps c v)
set_channel_reg-Keeps b p block_field v h valid quiet =
    let (at, in_channel, below) = place_lem p block_field in
    let c = channel_of b p in
    (set_block_control c v, rw in_channel refl, quiet, set_block_control-Keeps c v h)
set_channel_reg-Keeps b p control_field v h valid (off, mode) =
    let (at, in_channel, below) = place_lem p control_field in
    let c = channel_of b p in
    let (s, e) = sync_of_code (v / 2 ^ 9 % 4) (omega arith) mode in
    (
      configured c v s,
      rw in_channel (set_control-configured c v s e),
      rw off refl,
      configured-Keeps c v s valid e,
    )

if_same :
    (p : Port) (k k' : Field)
    → (place_of (of_channel p k) == place_of (of_channel p k'))
      ≡ (field_offset k == field_offset k')
if_same p k k' = ground (arith, field_offset-lt k, field_offset-lt k')

-- Another channel's registers stand elsewhere.
other_channel :
    (p q : Port) (k k' : Field)
    → port_code p ≢ port_code q
    → (place_of (of_channel p k) == place_of (of_channel q k')) ≡ false
other_channel p q k k' ne =
    ==_false (place_of (of_channel p k)) (place_of (of_channel q k'))
      (λ e. omega (arith, field_offset-lt k, field_offset-lt k', ne, e))

same_channel :
    (d : Dma) (p : Port) (k k' : Field) (v : ℕ) (c : Channel) (n : ℕ)
    → n ≡ port_code p
    → Keeps (channel d p) k v c
    → field k' (update d.channels (port_code p) c n) ≡ (
        if place_of (of_channel p k) == 16 * n + field_offset k'
        then field_kept k v
        else field k' (d.channels n))
same_channel d p k k' v c n e keeps =
    rw (e, ==_true (port_code p) (port_code p) refl, if_same p k k') (keeps k')

value-set_channel :
    (d : Dma) (p : Port) (k : Field) (v : ℕ) (c : Channel) (r : Register)
    → Keeps (channel d p) k v c
    → value (set_channel d p c) r
      ≡ (if place_of (of_channel p k) == place_of r then field_kept k v else value d r)
value-set_channel d p k v c general keeps =
    rw
      (==_false (place_of (of_channel p k)) 0x70
        (λ e. omega (arith, field_offset-lt k, port_code-lt p, e)))
      refl
value-set_channel d p k v c interrupts keeps =
    rw
      (==_false (place_of (of_channel p k)) 0x74
        (λ e. omega (arith, field_offset-lt k, port_code-lt p, e)))
      (unfold Controller.interrupt Controller.irq in refl)
value-set_channel d p k v c (of_channel q k') keeps =
    elim (Bool-cases (port_code p == port_code q)) [
      | inl e ↦ same_channel d p k k' v c (port_code q) (ground arith) keeps
      | inr e ↦ rw (e, other_channel p q k k' (ground arith)) refl
    ]

set_dma_reg-of_channel :
    (fuel : ℕ) (b : Bus) (p : Port) (k : Field) (v : ℕ) (c : Channel)
    → set_channel_reg (channel_of b p) (place_of (of_channel p k)) v ≡ ok c
    → active c ≡ false
    → set_dma_reg fuel b (place_of (of_channel p k)) v ≡ ok (with_channel b p c)
unfolding set_dma_reg
set_dma_reg-of_channel fuel b p k v c e off =
    let (at, in_channel, below) = place_lem p k in
    rw (at, below, port_from_index-port_code p, e, off) refl

-- The bus after the store: the register keeps the word, every other one is as before, and so are the
-- RAM and the GPU.
abbrev pub HasStored : Bus → Register → ℕ → Bus → Type 0
HasStored b r v b' =
    ((r' : Register) (addr' : ℕ)
      → mask_region addr' ≡ 0x1f801080 + place_of r'
      → load32 b' addr' ≡ (if place_of r == place_of r' then ok (kept r v) else load32 b addr'))
    × (b'.ram ≡ b.ram)
    × (b'.gpu ≡ b.gpu)

load32-value :
    (b : Bus) (r : Register) (addr : ℕ)
    → mask_region addr ≡ 0x1f801080 + place_of r
    → load32 b addr ≡ ok (value b.dma r)
load32-value b r addr e = load32-window b addr (place_of r) e (place-lt r) ∙ dma_reg-value b r

if-ok : (t : Bool) (x y : ℕ) → ok (if t then x else y) ≡ (if t then ok x else ok y)
if-ok true x y = refl
if-ok false x y = refl

-- The values of the registers are what the loads show.
values-HasStored :
    (b : Bus) (d : Dma) (r : Register) (v : ℕ)
    → ((r' : Register)
        → value d r' ≡ (if place_of r == place_of r' then kept r v else value b.dma r'))
    → HasStored b r v (record b { dma = d })
values-HasStored b d r v h = (
  λ r' addr' e'.
      rw (load32-value (record b { dma = d }) r' addr' e', load32-value b r' addr' e', h r')
        (if-ok (place_of r == place_of r') (kept r v) (value b.dma r')),
  refl,
  refl,
)

set_dma_reg-general :
    (fuel : ℕ) (b : Bus) (v : ℕ)
    → set_dma_reg fuel b 0x70 v ≡ ok (record b { dma = Controller.set_control b.dma v })
unfolding set_dma_reg
set_dma_reg-general fuel b v = refl

value-set_control :
    (d : Dma) (v : ℕ) (r : Register)
    → value (Controller.set_control d v) r
      ≡ (if place_of general == place_of r then v else value d r)
value-set_control d v general = refl
value-set_control d v interrupts = unfold Controller.interrupt Controller.irq in refl
value-set_control d v (of_channel p k) =
    rw
      (==_false 0x70 (place_of (of_channel p k))
        (λ e. omega (arith, field_offset-lt k, port_code-lt p, e)))
      refl

-- The DMA registers behave as memory cells: a word store of the bus, through any segment, to the
-- base, block control or control register of any of the seven channels or to the general control
-- register, that starts no transfer, since the channel is not active or the control word has bit
-- 24 clear and a mode other than 3, ends normally. A word load of that register then gives the
-- word, of a base its 24 low bits and of a control register the bits that there are; a load of
-- every other one of the 23 registers, the interrupt register included, gives what it gave
-- before; the RAM and the GPU are unchanged.
pub store32-HasStored :
    (fuel : ℕ) (b : Bus) (r : Register) (addr v : ℕ)
    → mask_region addr ≡ 0x1f801080 + place_of r
    → v < 2 ^ 32
    → ((p : Port) → IsChannel (channel_of b p))
    → IsQuiet b r v
    → (b' : Bus) × (store32 fuel b addr v ≡ ok b') × HasStored b r v b'
store32-HasStored fuel b general addr v e h valid quiet = (
  record b { dma = Controller.set_control b.dma v },
  store32-window fuel b addr 0x70 v e (omega arith) ∙ set_dma_reg-general fuel b v,
  values-HasStored b (Controller.set_control b.dma v) general v (value-set_control b.dma v),
)
store32-HasStored fuel b interrupts addr v e h valid quiet = absurd quiet
store32-HasStored fuel b (of_channel p k) addr v e h valid quiet =
    let (c, run, off, keeps) = set_channel_reg-Keeps b p k v h (valid p) quiet in
    (
      with_channel b p c,
      store32-window fuel b addr (place_of (of_channel p k)) v e (place-lt (of_channel p k))
          ∙ set_dma_reg-of_channel fuel b p k v c run off,
      values-HasStored b (set_channel b.dma p c) (of_channel p k) v
          (λ r'. value-set_channel b.dma p k v c r' keeps),
    )
