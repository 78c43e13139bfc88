-- ===== src/Bus/OrderingTable.antt =====
-- The transfer that clears the ordering table: `doDmaBlock` on the port OTC.
use cpp_station.Prelude.{
  ℕ, zero, suc, ◌+◌, ◌-◌, ◌*◌, ◌/◌, ◌%◌, ◌^◌, ◌≤◌, ◌<◌, ◌≡◌, ◌≢◌, refl, ◌∙◌, false, ◌==◌,
  if◌then◌else◌, ==_false, arith,
}
use cpp_station.Word.Fields.{bit_and_high, bit_and_mask}
use cpp_station.Word.{add32}
use cpp_station.Outcome.{ok}
use cpp_station.Memory.Ram.{Ram, ram_size, load32}
use cpp_station.Memory.Ram.Access.{stored32, store32-in_range, load32-in_range, load32-stored32}
use cpp_station.Dma.Channel.{
  Channel, to_ram, decrement, manual, otc, Port, transfer_size, done, active,
}
use cpp_station.Bus.State.{Bus, channel_of, with_channel}
use cpp_station.Bus.Transfer.{
  word_address, transfer_word, transfer_words, step_size, do_dma_block, do_dma,
}

pub word_address_lem : (a : ℕ) → word_address a ≡ a / 4 % 2 ^ 19 * 4
unfolding word_address
word_address_lem a = omega (arith, bit_and_high 2 a 0x7ffff, bit_and_mask 19 (a / 2 ^ 2))

-- Every address that a transfer computes is that of a whole word inside the RAM.
pub word_address-in_range : (a : ℕ) → word_address a + 3 < ram_size
word_address-in_range a = omega (arith, word_address_lem a)

word_address-aligned : (a : ℕ) → a % 4 ≡ 0 → a < ram_size → word_address a ≡ a
word_address-aligned a e h = omega (arith, word_address_lem a)

-- The word at `addr` of a table with `n` entries below it.
abbrev link : ℕ → ℕ → ℕ
link zero addr = 0xffffff
link (suc n) addr = addr - 4

-- The RAM after `n` words from `addr` downwards, each the address of the word below it and the last
-- the end marker.
ordering_table : ℕ → ℕ → Ram → Ram
ordering_table zero addr r = r
ordering_table (suc n) addr r = ordering_table n (addr - 4) (stored32 r addr (link n addr))

transfer_word-otc :
    (b : Bus) (n addr : ℕ)
    → addr % 4 ≡ 0
    → 4 * n ≤ addr
    → addr < ram_size
    → transfer_word otc to_ram (suc n) addr b
      ≡ ok (record b { ram = stored32 b.ram addr (link n addr) })
unfolding transfer_word
transfer_word-otc b zero addr e low high =
    rw (word_address-aligned addr e high) (ground (arith, store32-in_range b.ram addr 0xffffff))
transfer_word-otc b (suc n) addr e low high =
    rw (word_address-aligned addr e high) (ground (arith, store32-in_range b.ram addr (addr - 4)))

transfer_words-otc :
    (n addr : ℕ) (b : Bus)
    → addr % 4 ≡ 0
    → 4 * n ≤ addr
    → addr < ram_size
    → transfer_words otc to_ram 0xfffffffc (suc n) addr b
      ≡ ok (record b { ram = ordering_table (suc n) addr b.ram })
unfolding transfer_words ordering_table
transfer_words-otc zero addr b e low high = rw (transfer_word-otc b zero addr e low high) refl
transfer_words-otc (suc n) addr b e low high = rw (transfer_word-otc b (suc n) addr e low high) (
    let down : add32 addr 0xfffffffc ≡ addr - 4 = omega arith in
    rw down (
      transfer_words-otc n (addr - 4) (record b { ram = stored32 b.ram addr (addr - 4) })
        (omega arith) (omega arith) (omega arith)))

-- A load above the table does not see it.
load32-stored32_below :
    (r : Ram) (addr v x : ℕ)
    → addr + 4 ≤ x
    → x + 3 < ram_size
    → load32 (stored32 r addr v) x ≡ load32 r x
unfolding stored32
load32-stored32_below r addr v x h high =
    rw (load32-in_range _ x high, load32-in_range r x high) (ground arith)

load32-ordering_table_above :
    (n addr x : ℕ) (r : Ram)
    → 4 * n ≤ addr + 4
    → addr + 4 ≤ x
    → x + 3 < ram_size
    → load32 (ordering_table n addr r) x ≡ load32 r x
unfolding ordering_table
load32-ordering_table_above zero addr x r fits h high = refl
load32-ordering_table_above (suc zero) addr x r fits h high =
    load32-stored32_below r addr 0xffffff x h high
load32-ordering_table_above (suc (suc n)) addr x r fits h high =
    rw
      (load32-ordering_table_above (suc n) (addr - 4) x (stored32 r addr (addr - 4)) (omega arith)
        (omega arith) high)
      (load32-stored32_below r addr (addr - 4) x h high)

suc-== : (k n : ℕ) → (suc k == suc n) ≡ (k == n)
suc-== k n = ground arith

top : (addr : ℕ) → addr - 4 * 0 ≡ addr
top addr = omega arith

-- The entry `k` of a table of `suc n`.
load32-ordering_table :
    (n addr k : ℕ) (r : Ram)
    → 4 * n ≤ addr
    → addr + 3 < ram_size
    → k ≤ n
    → load32 (ordering_table (suc n) addr r) (addr - 4 * k)
      ≡ ok (if k == n then 0xffffff else addr - 4 * (k + 1))
unfolding ordering_table
load32-ordering_table zero addr zero r low high le =
    rw (top addr) (load32-stored32 r addr 0xffffff high (omega arith))
load32-ordering_table zero addr (suc k) r low high le = absurd (omega arith)
load32-ordering_table (suc n) addr zero r low high le =
    rw (top addr, ==_false 0 (suc n) (omega arith))
      (load32-ordering_table_above (suc n) (addr - 4) addr (stored32 r addr (addr - 4))
          (omega arith) (omega arith) high
        ∙ load32-stored32 r addr (addr - 4) high (omega arith))
load32-ordering_table (suc n) addr (suc k) r low high le =
    let here : addr - 4 - 4 * k ≡ addr - 4 * suc k = omega arith in
    let next : addr - 4 - 4 * (k + 1) ≡ addr - 4 * (suc k + 1) = omega arith in
    rw (suc-== k n) (
      rw (here, next) at
        (load32-ordering_table n (addr - 4) k (stored32 r addr (addr - 4)) (omega arith)
          (omega arith) (omega arith)))

do_dma-manual :
    (fuel : ℕ) (b : Bus) (p : Port)
    → (channel_of b p).sync ≡ manual
    → do_dma fuel b p ≡ do_dma_block b p
unfolding do_dma
do_dma-manual fuel b p e = ground arith

pub do_dma_block-ok :
    (b : Bus) (p : Port) (n : ℕ) (b' : Bus)
    → transfer_size (channel_of b p) ≡ ok n
    → n ≢ 0xffffffff
    → transfer_words p
        (channel_of b p).direction
        (step_size (channel_of b p).step)
        n
        (channel_of b p).base
        b
      ≡ ok b'
    → do_dma_block b p ≡ ok (with_channel b' p (done (channel_of b' p)))
unfolding do_dma_block
do_dma_block-ok b p n b' size ne run = rw (size, ==_false n 0xffffffff ne, run) refl

size_of : (c : Channel) (n : ℕ) → c.sync ≡ manual → c.block_size ≡ n → transfer_size c ≡ ok n
unfolding transfer_size
size_of c n e h = ground arith

-- A channel set up to clear an ordering table of `suc n` entries down from its base.
abbrev pub ClearsTable : Channel → ℕ → Type 0
ClearsTable c n =
    (c.direction ≡ to_ram)
    × (c.step ≡ decrement)
    × (c.sync ≡ manual)
    × (c.block_size ≡ suc n)
    × (c.base % 4 ≡ 0)
    × (4 * n ≤ c.base)
    × (c.base < ram_size)

-- A manual transfer to the RAM on the port OTC, of n + 1 words down from an aligned base in the
-- RAM that leaves room for them, ends with a linked list in the RAM: each word holds the address
-- of the word below it and the last the end marker 0xffffff; the channel is no longer active and
-- the GPU is unchanged.
pub do_dma-ClearsTable :
    (fuel : ℕ) (b : Bus) (n k : ℕ)
    → ClearsTable (channel_of b otc) n
    → k ≤ n
    → (b' : Bus) × (do_dma fuel b otc ≡ ok b')
      × (load32 b'.ram ((channel_of b otc).base - 4 * k)
          ≡ ok (if k == n then 0xffffff else (channel_of b otc).base - 4 * (k + 1)))
      × (active (channel_of b' otc) ≡ false)
      × (b'.gpu ≡ b.gpu)
unfolding done active
do_dma-ClearsTable fuel b n k (dir, step, sync, size, al, low, high) le =
    let base = (channel_of b otc).base in
    (
      with_channel (record b { ram = ordering_table (suc n) base b.ram }) otc
          (done (channel_of b otc)),
      do_dma-manual fuel b otc sync
          ∙ do_dma_block-ok b otc (suc n) (record b { ram = ordering_table (suc n) base b.ram })
              (size_of (channel_of b otc) (suc n) sync size) (omega arith)
              (rw (dir, step) (transfer_words-otc n base b al low high)),
      load32-ordering_table n base k b.ram low (omega arith) le,
      refl,
      refl,
    )
