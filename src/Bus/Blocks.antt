-- ===== src/Bus/Blocks.antt =====
-- The transfer of a block of words to the GPU: `doDmaBlock` on the port GPU.
use cpp_station.Prelude.{
  ℕ, zero, suc, ◌+◌, ◌-◌, ◌*◌, ◌/◌, ◌%◌, ◌^◌, ◌<◌, ◌≡◌, ◌⊎◌, inl, inr, refl, ◌∙◌, ap, sym, fun_ext,
  List, ◌∷◌, ==_false, arith,
}
use cpp_station.Word.{add32}
use cpp_station.Outcome.{Outcome, ok, ◌>>=◌, >>=_assoc}
use cpp_station.Memory.Bytes.{join32}
use cpp_station.Memory.Ram.{Ram}
use cpp_station.Memory.Ram.Access.{load32-in_range}
use cpp_station.Dma.Channel.{
  Channel, Step, increment, decrement, from_ram, manual, request, gpu, transfer_size, done,
}
use cpp_station.Gpu.State.{Gpu}
use cpp_station.Gpu.Gp0.{gp0}
use cpp_station.Gpu.Gp0.Feed.{feed, listed}
use cpp_station.Bus.State.{Bus, channel_of, with_channel}
use cpp_station.Bus.Transfer.{
  word_address, transfer_word, transfer_words, step_size, do_dma_block, do_dma,
}
use cpp_station.Bus.OrderingTable.{word_address_lem, word_address-in_range}

-- The word of the RAM with the byte `x` lowest.
abbrev pub word_at : Ram → ℕ → ℕ
word_at r x = join32 (r.cells (x + 0)) (r.cells (x + 1)) (r.cells (x + 2)) (r.cells (x + 3))

-- The place of the word `k` of a block in the RAM of 2^21 bytes, where the addresses wrap around.
abbrev pub place : Step → ℕ → ℕ → ℕ
place increment base k = (base + 4 * k) / 4 % 2 ^ 19 * 4
place decrement base k = (base + (2 ^ 21 - 4) * k) / 4 % 2 ^ 19 * 4

abbrev pub block_words : Ram → Step → ℕ → ℕ → List ℕ
block_words r step base n = listed n (λ k. word_at r (place step base k))

place_0 : (step : Step) (addr : ℕ) → word_address addr ≡ place step addr 0
place_0 increment addr = omega (arith, word_address_lem addr)
place_0 decrement addr = omega (arith, word_address_lem addr)

place-suc :
    (step : Step) (addr k : ℕ)
    → place step (add32 addr (step_size step)) k ≡ place step addr (suc k)
place-suc increment addr k = omega arith
place-suc decrement addr k = omega arith

block_words-suc :
    (r : Ram) (step : Step) (addr n : ℕ)
    → block_words r step addr (suc n)
      ≡ word_at r (word_address addr) ∷ block_words r step (add32 addr (step_size step)) n
block_words-suc r step addr n = rw (place_0 step addr) (
    ap (λ f. word_at r (place step addr 0) ∷ listed n f)
      (fun_ext (λ k. ap (λ x. word_at r x) (sym (place-suc step addr k)))))

transfer_word-gpu :
    (b : Bus) (remsz addr : ℕ)
    → transfer_word gpu from_ram remsz addr b
      ≡ (gp0 b.gpu (word_at b.ram (word_address addr)) >>= λ g. ok (record b { gpu = g }))
unfolding transfer_word
transfer_word-gpu b remsz addr =
    rw (load32-in_range b.ram (word_address addr) (word_address-in_range addr)) refl

transfer_words-feed :
    (n addr : ℕ) (step : Step) (b : Bus)
    → transfer_words gpu from_ram (step_size step) n addr b
      ≡ (feed (block_words b.ram step addr n) b.gpu >>= λ g. ok (record b { gpu = g }))
unfolding transfer_words feed
transfer_words-feed zero addr step b = refl
transfer_words-feed (suc n) addr step b =
    let w = word_at b.ram (word_address addr) in
    let next = add32 addr (step_size step) in
    let rest : Bus → Outcome Bus = λ b'. transfer_words gpu from_ram (step_size step) n next b' in
    let after : Gpu → Outcome Bus = λ g. ok (record b { gpu = g }) in
    ap (λ (m : Outcome Bus). m >>= rest) (transfer_word-gpu b (suc n) addr)
    ∙ >>=_assoc (gp0 b.gpu w) after rest
    ∙ ap (λ (k : Gpu → Outcome Bus). gp0 b.gpu w >>= k)
        (fun_ext (λ g. transfer_words-feed n next step (record b { gpu = g })))
    ∙ sym (>>=_assoc (gp0 b.gpu w) (λ g. feed (block_words b.ram step next n) g) after)
    ∙ ap (λ (ws : List ℕ). feed ws b.gpu >>= after) (sym (block_words-suc b.ram step addr n))

-- The channel moves `n` words in one transfer that is not a linked list.
abbrev pub MovesBlock : Channel → ℕ → Type 0
MovesBlock c n =
    ((c.sync ≡ manual) × (c.block_size ≡ n))
    ⊎ ((c.sync ≡ request) × (c.block_count * c.block_size ≡ n))

size_lem : (c : Channel) (n : ℕ) → n < 2 ^ 31 → MovesBlock c n → transfer_size c ≡ ok n
unfolding transfer_size
size_lem c n h (inl (sync, size)) = rw sync (ap ok size)
size_lem c n h (inr (sync, size)) = rw (sync, size) (ground arith)

do_dma-block :
    (fuel : ℕ) (b : Bus) (n : ℕ)
    → MovesBlock (channel_of b gpu) n
    → do_dma fuel b gpu ≡ do_dma_block b gpu
unfolding do_dma
do_dma-block fuel b n (inl (sync, size)) = ground arith
do_dma-block fuel b n (inr (sync, size)) = ground arith

-- A transfer from the RAM to the GPU that is not a linked list, manual or by request, of fewer
-- than 2^31 words: it writes the words of the RAM from the base on, up or down as the channel
-- says and around the end of the RAM, to GP0 in their order, has the outcome of these writes, and
-- then completes the channel.
pub do_dma_feeds_block :
    (fuel : ℕ) (b : Bus) (n : ℕ)
    → n < 2 ^ 31
    → MovesBlock (channel_of b gpu) n
    → (channel_of b gpu).direction ≡ from_ram
    → do_dma fuel b gpu ≡ (
        feed (block_words b.ram (channel_of b gpu).step (channel_of b gpu).base n) b.gpu >>= λ g.
        ok (with_channel (record b { gpu = g }) gpu (done (channel_of b gpu))))
unfolding do_dma_block
do_dma_feeds_block fuel b n h block dir =
    do_dma-block fuel b n block
    ∙ rw
        (
          size_lem (channel_of b gpu) n h block,
          ==_false n 0xffffffff (omega arith),
          dir,
          transfer_words-feed n (channel_of b gpu).base (channel_of b gpu).step b,
        )
        (>>=_assoc
          (feed (block_words b.ram (channel_of b gpu).step (channel_of b gpu).base n) b.gpu)
          (λ g. ok (record b { gpu = g }))
          (λ b'. ok (with_channel b' gpu (done (channel_of b' gpu)))))
