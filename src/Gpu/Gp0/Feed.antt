-- ===== src/Gpu/Gp0/Feed.antt =====
-- Words written to the GP0 port one after the other, and the GPU but for the registers of the port.
use cpp_station.Prelude.{
  ℕ, zero, suc, ◌<◌, ◌≡◌, refl, sym, ◌∙◌, ap, fun_ext, List, [], ◌∷◌, ◌++◌, arith,
}
use cpp_station.Outcome.{Outcome, ok, ◌>>=◌, >>=_assoc}
use cpp_station.Gpu.State.{Gpu, nop, command}
use cpp_station.Gpu.Gp0.{gp0}

abbrev pub length : List ℕ → ℕ
length [] = 0
length (x ∷ xs) = suc (length xs)

abbrev pub nth : List ℕ → ℕ → ℕ
nth [] i = 0
nth (x ∷ xs) zero = x
nth (x ∷ xs) (suc i) = nth xs i

-- The first values of a function.
abbrev pub listed : ℕ → (ℕ → ℕ) → List ℕ
listed zero f = []
listed (suc n) f = f 0 ∷ listed n (λ i. f (suc i))

pub listed-nth :
    (n : ℕ) (xs : List ℕ) (f : ℕ → ℕ)
    → length xs ≡ n
    → ((j : ℕ) → j < n → f j ≡ nth xs j)
    → listed n f ≡ xs
listed-nth zero [] f e h = refl
listed-nth zero (x ∷ xs) f e h = absurd (omega arith)
listed-nth (suc n) [] f e h = absurd (omega arith)
listed-nth (suc n) (x ∷ xs) f e h =
    rw
      (
        h 0 (omega arith),
        listed-nth n xs (λ i. f (suc i)) (omega arith) (λ j k. h (suc j) (omega arith)),
      )
      refl

-- Words written to the port one after the other.
unfoldable pub feed : List ℕ → Gpu → Outcome Gpu
feed [] g = ok g
feed (v ∷ vs) g = gp0 g v >>= λ g'. feed vs g'

pub feed-++ : (xs ys : List ℕ) (g : Gpu) → feed (xs ++ ys) g ≡ (feed xs g >>= λ g'. feed ys g')
unfolding feed
feed-++ [] ys g = refl
feed-++ (x ∷ xs) ys g =
    ap (λ (k : Gpu → Outcome Gpu). gp0 g x >>= k) (fun_ext (λ g'. feed-++ xs ys g'))
    ∙ sym (>>=_assoc (gp0 g x) (feed xs) (feed ys))

-- The GPU without the registers of the port: the same for any two states that differ in them alone.
abbrev pub parked : Gpu → Gpu
parked g = record g {
  gp0_command = record { words = λ _. 0; len = 0 };
  gp0_words_remaining = 0;
  gp0_command_method = nop;
  gp0_mode = command;
}
