-- ===== src/Outcome.antt =====
-- How a call of the program ends: normally, by `panic` (helpers.hpp: a message and `exit(-1)`), in
-- undefined behaviour of C++, or out of the fuel that bounds a `while (true)`.
use cpp_station.Prelude.{ℕ, ◌≡◌, refl, Bool, true, false, if◌then◌else◌}

-- The calls of `panic` in the modelled files, each with the numbers that its message prints.
pub data Panic : Type 0 where
  unhandled_load32 unhandled_load16 unhandled_load8 : ℕ → Panic
  unhandled_store32 unhandled_store16 : ℕ → Panic
  unhandled_store8 : ℕ → ℕ → Panic
  bad_expansion1_base bad_expansion2_base : ℕ → Panic
  unhandled_gpu_read : ℕ → Panic
  unhandled_gpu_write : ℕ → ℕ → Panic
  unhandled_dma_read : ℕ → Panic
  unhandled_dma_write : ℕ → ℕ → Panic
  unknown_sync_mode invalid_port : ℕ → Panic
  bad_linked_list_direction : Panic
  linked_list_on_port : ℕ → Panic
  no_block_size : Panic
  unhandled_destination_port unhandled_source_port : ℕ → Panic
  unhandled_gp0 unhandled_gp1 unhandled_texture_depth unsupported_display_mode : ℕ → Panic
  unhandled_cop0 invalid_cop0 : ℕ → Panic
  unhandled_cop0_write unhandled_cop0_register unhandled_cop0_read : ℕ → Panic
  unhandled_cause_write : Panic
  unhandled_gte unhandled_gte_load unhandled_gte_store : ℕ → Panic
  bios_not_loaded glad_not_loaded : Panic

-- `fault` is undefined behaviour, such as a read outside a buffer.
pub data Outcome {ℓ} (A : Type ℓ) : Type ℓ where
  ok : A → Outcome A
  panic : Panic → Outcome A
  fault : Outcome A
  timeout : Outcome A

infixl 5 ◌>>=◌
abbrev pub ◌>>=◌ {ℓ κ} : {A : Type ℓ} {B : Type κ} → Outcome A → (A → Outcome B) → Outcome B
ok a >>= f = f a
panic p >>= f = panic p
fault >>= f = fault
timeout >>= f = timeout

-- A property of the result of a call, if it ends normally.
abbrev pub Ensures {ℓ κ} : {A : Type ℓ} → (A → Type κ) → Outcome A → Type κ
Ensures P (ok a) = P a
Ensures P (panic p) = Unit
Ensures P fault = Unit
Ensures P timeout = Unit

-- The call ends normally with that property, or by `panic`: no undefined behaviour, and no lack of
-- fuel.
abbrev pub Safe {ℓ κ} : {A : Type ℓ} → (A → Type κ) → Outcome A → Type κ
Safe P (ok a) = P a
Safe P (panic p) = Unit
Safe P fault = ⊥ × Unit
Safe P timeout = ⊥ × Unit

pub Safe-bind {ℓ κ μ ν} :
    {A : Type ℓ} {B : Type κ} (P : A → Type μ) (Q : B → Type ν) (m : Outcome A) (f : A → Outcome B)
    → Safe P m
    → ((a : A) → P a → Safe Q (f a))
    → Safe Q (m >>= f)
Safe-bind P Q (ok a) f h k = k a h
Safe-bind P Q (panic p) f h k = tt
Safe-bind P Q fault f h k = absurd h.0
Safe-bind P Q timeout f h k = absurd h.0

pub Ensures-bind {ℓ κ μ ν} :
    {A : Type ℓ} {B : Type κ} (P : A → Type μ) (Q : B → Type ν) (m : Outcome A) (f : A → Outcome B)
    → Ensures P m
    → ((a : A) → P a → Ensures Q (f a))
    → Ensures Q (m >>= f)
Ensures-bind P Q (ok a) f h k = k a h
Ensures-bind P Q (panic p) f h k = tt
Ensures-bind P Q fault f h k = tt
Ensures-bind P Q timeout f h k = tt

pub Ensures-if {ℓ κ} :
    {A : Type ℓ} (P : A → Type κ) (b : Bool) (x y : Outcome A)
    → Ensures P x
    → Ensures P y
    → Ensures P (if b then x else y)
Ensures-if P true x y hx hy = hx
Ensures-if P false x y hx hy = hy

pub Safe-imp {ℓ κ μ} :
    {A : Type ℓ} (P : A → Type κ) (Q : A → Type μ) (m : Outcome A)
    → ((a : A) → P a → Q a)
    → Safe P m
    → Safe Q m
Safe-imp P Q (ok a) f h = f a h
Safe-imp P Q (panic p) f h = tt
Safe-imp P Q fault f h = absurd h.0
Safe-imp P Q timeout f h = absurd h.0

pub Safe-if {ℓ κ} :
    {A : Type ℓ} (P : A → Type κ) (b : Bool) (x y : Outcome A)
    → Safe P x
    → Safe P y
    → Safe P (if b then x else y)
Safe-if P true x y hx hy = hx
Safe-if P false x y hx hy = hy

pub Safe-Ensures {ℓ κ} : {A : Type ℓ} (P : A → Type κ) (m : Outcome A) → Safe P m → Ensures P m
Safe-Ensures P (ok a) h = h
Safe-Ensures P (panic p) h = tt
Safe-Ensures P fault h = tt
Safe-Ensures P timeout h = tt

pub >>=-ok {ℓ} : {A : Type ℓ} (m : Outcome A) → (m >>= λ a. ok a) ≡ m
>>=-ok (ok a) = refl
>>=-ok (panic p) = refl
>>=-ok fault = refl
>>=-ok timeout = refl

pub >>=_assoc {ℓ κ μ} :
    {A : Type ℓ} {B : Type κ} {C : Type μ} (m : Outcome A) (f : A → Outcome B) (k : B → Outcome C)
    → ((m >>= f) >>= k) ≡ (m >>= λ a. f a >>= k)
>>=_assoc (ok a) f k = refl
>>=_assoc (panic p) f k = refl
>>=_assoc fault f k = refl
>>=_assoc timeout f k = refl
