-- ===== src/Gpu/Gp0/Collect.antt =====
-- Whole commands and images: what a sequence of words to the GP0 port comes to.
use native.Mathlib.Nat.{mul-le-mul, add-zero, zero-add}
use cpp_station.Prelude.{
  ℕ, zero, suc, ◌+◌, ◌-◌, ◌*◌, ◌/◌, ◌%◌, ◌^◌, ◌≤◌, ◌<◌, ◌≡◌, refl, ◌∙◌, List, [], ◌∷◌, some, ◌==◌,
  if◌then◌else◌, ==_false, ==_true, arith,
}
use cpp_station.Word.Fields.{bit_and_high, bit_and_mask}
use cpp_station.Outcome.{ok, >>=-ok}
use cpp_station.Gpu.State.{Gpu, clear, command, image_load, Method}
use cpp_station.Gpu.Gp0.Feed.{length, nth, listed, listed-nth, feed, parked}
use cpp_station.Gpu.Gp0.{command_table, gp0, begin_command}
use cpp_station.Gpu.Gp0.Commands.{run_command, param, image_words}
use cpp_station.Gpu.Gp0.Invariant.{
  with_word, accept_word-command, accept_word-image, command_table_sizes,
}

-- One of the words of a command, but for the first.
with_parameter : Gpu → ℕ → Gpu
with_parameter g v = with_word (record g { gp0_words_remaining = g.gp0_words_remaining - 1 }) v

collected : Gpu → List ℕ → Gpu
collected g [] = g
collected g (v ∷ vs) = collected (with_parameter g v) vs

gp0-with_parameter :
    (g : Gpu) (v : ℕ)
    → g.gp0_mode ≡ command
    → 0 < g.gp0_words_remaining
    → g.gp0_words_remaining < 2 ^ 32
    → g.gp0_command.len < 12
    → gp0 g v ≡ (
        if g.gp0_words_remaining == 1
        then run_command g.gp0_command_method (with_parameter g v)
        else ok (with_parameter g v))
unfolding gp0 with_parameter with_word
gp0-with_parameter g v e pos fits room =
    ground
      (arith, accept_word-command (record g { gp0_words_remaining = g.gp0_words_remaining - 1 }) v)

feed-collected :
    (v : ℕ) (vs : List ℕ) (g : Gpu)
    → g.gp0_mode ≡ command
    → g.gp0_words_remaining ≡ suc (length vs)
    → g.gp0_command.len + g.gp0_words_remaining ≤ 12
    → feed (v ∷ vs) g ≡ (run_command g.gp0_command_method (collected g (v ∷ vs)))
unfolding feed collected
feed-collected v [] g e n room =
    >>=-ok (gp0 g v)
    ∙ gp0-with_parameter g v e (omega arith) (omega arith) (omega arith)
    ∙ rw n refl
feed-collected v (w ∷ vs) g e n room =
    let rest =
      feed-collected w vs (with_parameter g v) (unfold with_parameter with_word in e)
        (unfold with_parameter with_word in omega arith)
        (unfold with_parameter with_word in omega arith) in
    rw (gp0-with_parameter g v e (omega arith) (omega arith) (omega arith)) (
      rw (==_false g.gp0_words_remaining 1 (omega arith))
        (rest ∙ unfold with_parameter with_word in refl))

-- The command buffer after the words: those from before, and then the new ones in their order.
collected_old :
    (vs : List ℕ) (g : Gpu) (j : ℕ) → j < g.gp0_command.len → param (collected g vs) j ≡ param g j
unfolding collected with_parameter with_word
collected_old [] g j h = refl
collected_old (v ∷ vs) g j h =
    collected_old vs (with_parameter g v) j (omega arith)
    ∙ rw (==_false g.gp0_command.len j (omega arith))

collected_new :
    (vs : List ℕ) (g : Gpu) (j : ℕ)
    → j < length vs
    → param (collected g vs) (g.gp0_command.len + j) ≡ nth vs j
unfolding collected with_parameter with_word
collected_new [] g j h = absurd (omega arith)
collected_new (v ∷ vs) g zero h = rw (add-zero g.gp0_command.len) (
    collected_old vs (with_parameter g v) g.gp0_command.len (omega arith)
    ∙ rw (==_true g.gp0_command.len g.gp0_command.len refl))
collected_new (v ∷ vs) g (suc j) h =
    let shifted : g.gp0_command.len + suc j ≡ g.gp0_command.len + 1 + j = omega arith in
    rw shifted (collected_new vs (with_parameter g v) j (omega arith))

collected_same :
    (vs : List ℕ) (g : Gpu)
    → length vs ≤ g.gp0_words_remaining
    → (parked (collected g vs) ≡ parked g)
      × ((collected g vs).gp0_mode ≡ g.gp0_mode)
      × ((collected g vs).gp0_words_remaining + length vs ≡ g.gp0_words_remaining)
unfolding collected with_parameter with_word
collected_same [] g h = (refl, refl, omega arith)
collected_same (v ∷ vs) g h =
    let rest = collected_same vs (with_parameter g v) (omega arith) in (rest.0, rest.1, omega arith)

-- The state in which `gp0` puts the first word of a command.
abbrev pub begun : Gpu → ℕ → Method → Gpu
begun g n m = record g {
  gp0_words_remaining = n;
  gp0_command_method = m;
  gp0_command = clear g.gp0_command;
}

begin_command-begun :
    (g : Gpu) (v n : ℕ) (m : Method)
    → command_table (v / 2 ^ 24 % 2 ^ 8) ≡ some (n, m)
    → begin_command g v ≡ ok (begun g n m)
unfolding begin_command
begin_command-begun g v n m e = rw (e, begin_command)

gp0-begun :
    (g : Gpu) (v n : ℕ) (m : Method)
    → g.gp0_words_remaining ≡ 0
    → command_table (v / 2 ^ 24 % 2 ^ 8) ≡ some (n, m)
    → gp0 g v ≡ gp0 (begun g n m) v
unfolding gp0
gp0-begun g v n m idle e =
    let sizes = command_table_sizes (v / 2 ^ 24 % 2 ^ 8) n m e in
    rw (==_true g.gp0_words_remaining 0 idle, begin_command-begun g v n m e)
      (rw (==_false n 0 (omega arith)))

-- A command of n words, written to an idle port in command mode, runs its method once, on a state
-- whose parameters are those words in their order, with the port in command mode and no word
-- awaited, and that differs from the first in the registers of the port alone.
pub feed-run_command :
    (g : Gpu) (v n : ℕ) (m : Method) (vs : List ℕ)
    → g.gp0_mode ≡ command
    → g.gp0_words_remaining ≡ 0
    → command_table (v / 2 ^ 24 % 2 ^ 8) ≡ some (n, m)
    → length (v ∷ vs) ≡ n
    → (g' : Gpu) × (feed (v ∷ vs) g ≡ run_command m g')
      × (listed n (param g') ≡ v ∷ vs)
      × (g'.gp0_words_remaining ≡ 0)
      × (g'.gp0_mode ≡ command)
      × (parked g' ≡ parked g)
feed-run_command g v n m vs mode idle e len =
    let g1 = begun g n m in
    let same = collected_same (v ∷ vs) g1 (omega arith) in
    let sizes = command_table_sizes (v / 2 ^ 24 % 2 ^ 8) n m e in
    (
      collected g1 (v ∷ vs),
      unfold feed in
          rw (gp0-begun g v n m idle e) (feed-collected v vs g1 mode (omega arith) (omega arith)),
      listed-nth n (v ∷ vs) _ len
          (λ j h. rw zero-add at (collected_new (v ∷ vs) g1 j (omega arith))),
      omega (arith, same.2),
      same.1 ∙ mode,
      same.0,
    )

gp0-image :
    (g : Gpu) (v : ℕ)
    → g.gp0_mode ≡ image_load
    → 0 < g.gp0_words_remaining
    → g.gp0_words_remaining < 2 ^ 32
    → gp0 g v
      ≡ ok (
          if g.gp0_words_remaining == 1
          then record g { gp0_words_remaining = 0; gp0_mode = command }
          else record g { gp0_words_remaining = g.gp0_words_remaining - 1 })
unfolding gp0
gp0-image g v e pos fits =
    ground
      (arith, accept_word-image (record g { gp0_words_remaining = g.gp0_words_remaining - 1 }) v)

-- The words of an image, as many as the port in image mode awaits, have no effect but their
-- count, and the last switches the port back to commands.
pub feed-image :
    (g : Gpu) (v : ℕ) (vs : List ℕ)
    → g.gp0_mode ≡ image_load
    → g.gp0_words_remaining ≡ length (v ∷ vs)
    → g.gp0_words_remaining < 2 ^ 32
    → feed (v ∷ vs) g ≡ ok (record g { gp0_words_remaining = 0; gp0_mode = command })
unfolding feed
feed-image g v [] e n fits = rw (gp0-image g v e (omega arith) fits, n)
feed-image g v (w ∷ vs) e n fits = rw (gp0-image g v e (omega arith) fits) (
    rw (==_false g.gp0_words_remaining 1 (omega arith)) (
      feed-image (record g { gp0_words_remaining = g.gp0_words_remaining - 1 }) w vs e (omega arith)
        (omega arith)))

-- For sizes of 16 bits, the size that gp0ImageLoad computes is the number of words that hold w *
-- h pixels of 16 bits, with no overflow.
pub image_words_lem :
    (w h : ℕ) → w < 2 ^ 16 → h < 2 ^ 16 → image_words (w + h * 2 ^ 16) ≡ (w * h + 1) / 2
unfolding image_words
image_words_lem w h hw hh =
    let width : (w + h * 2 ^ 16) % 2 ^ 16 ≡ w = omega arith in
    let height : (w + h * 2 ^ 16) / 2 ^ 16 ≡ h = omega arith in
    let small : w * h ≤ 0xffff * 0xffff =
      mul-le-mul {n₂ = 0xffff} {m₂ = 0xffff} (omega arith) (omega arith) in
    let n = (w * h % 2 ^ 32 + 1) % 2 ^ 32 in
    rw (width, height)
      (omega (arith, small, bit_and_high 1 n (2 ^ 31 - 1), bit_and_mask 31 (n / 2 ^ 1)))
