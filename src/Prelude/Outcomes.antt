-- ===== src/Prelude/Outcomes.antt =====
-- A value or an error: Go's `(T, error)`.

use mathlib.Core.Path.{◌≡◌, refl}
use mathlib.Core.Logic.{◌⊎◌, inl, inr}
use mathlib.Core.Bool.{Bool, true, false}

pub data Outcome {ℓ κ} (E : Type κ) (A : Type ℓ) : Type (ℓ ⊔ κ) where
  ok : A → Outcome E A
  err : E → Outcome E A

infixl 5 ◌>>=◌
abbrev pub ◌>>=◌ {ℓ κ μ} :
    {E : Type μ} {A : Type ℓ} {B : Type κ} → Outcome E A → (A → Outcome E B) → Outcome E B
ok a >>= f = f a
err e >>= f = err e

-- `fmt.Errorf("...: %w", err)`.
abbrev pub map_err {ℓ κ μ} :
    {E : Type μ} {F : Type κ} {A : Type ℓ} → (E → F) → Outcome E A → Outcome F A
map_err f (ok a) = ok a
map_err f (err e) = err (f e)

abbrev pub is_ok {ℓ μ} : {E : Type μ} {A : Type ℓ} → Outcome E A → Bool
is_ok (ok a) = true
is_ok (err e) = false

pub Outcome-cases {ℓ μ} :
    {E : Type μ} {A : Type ℓ} (r : Outcome E A) → ((a : A) × (r ≡ ok a)) ⊎ ((e : E) × (r ≡ err e))
Outcome-cases (ok a) = inl (a, refl)
Outcome-cases (err e) = inr (e, refl)

-- A postcondition of the value, if there is one.
abbrev pub Ensures {ℓ κ μ} : {E : Type μ} {A : Type ℓ} → (A → Type κ) → Outcome E A → Type κ
Ensures P (ok a) = P a
Ensures P (err e) = Unit

pub bind-Ensures {ℓ κ μ ν} :
    {E : Type μ} {A : Type ℓ} {B : Type κ} (P : B → Type ν) (m : Outcome E A) (f : A → Outcome E B)
    → ((a : A) → m ≡ ok a → Ensures P (f a))
    → Ensures P (m >>= f)
bind-Ensures P (ok a) f h = h a refl
bind-Ensures P (err e) f h = tt
