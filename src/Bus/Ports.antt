-- ===== src/Bus/Ports.antt =====
-- The GP0 port as the processor sees it: stores to its address.
use cpp_station.Prelude.{ℕ, ◌≡◌, refl, sym, ap, ◌∙◌, fun_ext, List, [], ◌∷◌}
use cpp_station.Outcome.{Outcome, ok, ◌>>=◌, >>=_assoc}
use cpp_station.Memory.Map.{mask_region}
use cpp_station.Gpu.Gp0.{gp0}
use cpp_station.Gpu.Gp0.Feed.{feed, parked}
use cpp_station.Gpu.Gp0.Interpreter.{Command, AllCommands, IsIdle, encode, interpret}
use cpp_station.Gpu.Gp0.Interpreter.Refines.{feed-interpret}
use cpp_station.Bus.State.{Bus}
use cpp_station.Bus.Access.{store32}

-- Words that are stored at one address, one after the other.
unfoldable pub store_all : ℕ → ℕ → List ℕ → Bus → Outcome Bus
store_all fuel addr [] b = ok b
store_all fuel addr (w ∷ ws) b = store32 fuel b addr w >>= λ b'. store_all fuel addr ws b'

store32-gp0 :
    (fuel addr w : ℕ) (b : Bus)
    → mask_region addr ≡ 0x1f801810
    → store32 fuel b addr w ≡ (gp0 b.gpu w >>= λ g. ok (record b { gpu = g }))
unfolding store32
store32-gp0 fuel addr w b e = rw e refl

store_all-feed :
    (fuel addr : ℕ) (ws : List ℕ) (b : Bus)
    → mask_region addr ≡ 0x1f801810
    → store_all fuel addr ws b ≡ (feed ws b.gpu >>= λ g. ok (record b { gpu = g }))
unfolding store_all feed
store_all-feed fuel addr [] b e = refl
store_all-feed fuel addr (w ∷ ws) b e = rw (store32-gp0 fuel addr w b e) (
    >>=_assoc (gp0 b.gpu w) (λ g. ok (record b { gpu = g })) (λ b'. store_all fuel addr ws b')
    ∙ ap (λ k. gp0 b.gpu w >>= k)
        (fun_ext (λ g. store_all-feed fuel addr ws (record b { gpu = g }) e))
    ∙ sym (>>=_assoc (gp0 b.gpu w) (λ g. feed ws g) (λ g. ok (record b { gpu = g }))))

-- Word stores of the bus to an address that maskRegion takes to the GP0 port, of the words of any
-- sequence of commands in their order, with the port idle and the commands as for feed-interpret,
-- have the outcome of the interpreter of whole commands on the GPU, the registers of the port
-- apart; the rest of the machine is unchanged.
pub store_all-interpret :
    (fuel addr : ℕ) (cs : List Command) (b : Bus)
    → mask_region addr ≡ 0x1f801810
    → IsIdle b.gpu
    → AllCommands cs
    → (store_all fuel addr (encode cs) b >>= λ b'. ok (record b' { gpu = parked b'.gpu }))
      ≡ (interpret cs (parked b.gpu) >>= λ g. ok (record b { gpu = g }))
store_all-interpret fuel addr cs b e i h = rw (store_all-feed fuel addr (encode cs) b e) (
    >>=_assoc (feed (encode cs) b.gpu) (λ g. ok (record b { gpu = g }))
      (λ b'. ok (record b' { gpu = parked b'.gpu }))
    ∙ sym (>>=_assoc (feed (encode cs) b.gpu) (λ g. ok (parked g)) (λ g. ok (record b { gpu = g })))
    ∙ ap (λ m. m >>= λ g. ok (record b { gpu = g })) (feed-interpret cs b.gpu i h).0)
