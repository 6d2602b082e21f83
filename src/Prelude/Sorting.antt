-- ===== src/Prelude/Sorting.antt =====
-- `sort.SliceStable`, as insertion: the order, the items, and what it keeps of them.
use Prim.Native.Nat.{ℕ, suc, ◌≤◌}
use mathlib.Core.Path.{◌≡◌, refl}
use mathlib.Core.Logic.{inl, inr}
use mathlib.Core.Bool.{Bool}
use mathlib.Core.List.{List, [], ◌∷◌, Perm}
use mathlib.Core.List.Perm
use native.Mathlib.Omega.{arith}
use second_brain.Prelude.Tests.{Bool-cases, if◌then◌else◌, ltb}
use second_brain.Prelude.Lists.{All, length}

module _ {ℓ} {A : Type ℓ} (less : A → A → Bool) where
  -- `x` goes before the first item that is not less than it.
  unfoldable pub sort_insert : A → List A → List A
  sort_insert x [] = x ∷ []
  sort_insert x (y ∷ ys) = let rest = sort_insert x ys in if less y x then y ∷ rest else x ∷ y ∷ ys

  unfoldable pub sort_stable : List A → List A
  sort_stable [] = []
  sort_stable (x ∷ xs) = sort_insert x (sort_stable xs)

  module _ {κ} (P : A → Type κ) where
    All-sort_insert : (x : A) (ys : List A) → P x → All P ys → All P (sort_insert x ys)
    unfolding sort_insert
    All-sort_insert x [] px h = (px, tt)
    All-sort_insert x (y ∷ ys) px (py, h) = elim (Bool-cases (less y x)) [
      | inl b ↦ rw b (py, All-sort_insert x ys px h)
      | inr b ↦ rw b (px, (py, h))
    ]

    pub All-sort_stable : (xs : List A) → All P xs → All P (sort_stable xs)
    unfolding sort_stable
    All-sort_stable [] h = tt
    All-sort_stable (x ∷ xs) (px, h) = All-sort_insert x _ px (All-sort_stable xs h)

  sort_insert-perm : (x : A) (ys : List A) → Perm (sort_insert x ys) (x ∷ ys)
  unfolding sort_insert
  sort_insert-perm x [] = Perm.refl _
  sort_insert-perm x (y ∷ ys) = elim (Bool-cases (less y x)) [
    | inl b ↦ rw b (Perm.trans (Perm.cons y (sort_insert-perm x ys)) (Perm.swap x y ys))
    | inr b ↦ rw b (Perm.refl _)
  ]

  -- A sort moves the items and nothing else.
  pub sort_stable-perm : (xs : List A) → Perm (sort_stable xs) xs
  unfolding sort_stable
  sort_stable-perm [] = Perm.refl _
  sort_stable-perm (x ∷ xs) =
      Perm.trans (sort_insert-perm x (sort_stable xs)) (Perm.cons x (sort_stable-perm xs))

module _ {ℓ} {A : Type ℓ} (less : A → A → Bool) where
  length-sort_insert : (x : A) (ys : List A) → length (sort_insert less x ys) ≡ suc (length ys)
  unfolding sort_insert
  length-sort_insert x [] = refl
  length-sort_insert x (y ∷ ys) = ground (arith, length-sort_insert x ys)

  pub length-sort_stable : (xs : List A) → length (sort_stable less xs) ≡ length xs
  unfolding sort_stable
  length-sort_stable [] = refl
  length-sort_stable (x ∷ xs) =
      omega (arith, length-sort_insert x (sort_stable less xs), length-sort_stable xs)

module _ {ℓ} {A : Type ℓ} (key : A → ℕ) where
  -- No key is below one that stands further on.
  abbrev pub Descends : List A → Type 0
  Descends [] = Unit
  Descends (x ∷ xs) = All (λ y. key y ≤ key x) xs × Descends xs

  All-le : (a b : ℕ) (ys : List A) → a ≤ b → All (λ y. key y ≤ a) ys → All (λ y. key y ≤ b) ys
  All-le a b [] h p = tt
  All-le a b (y ∷ ys) h (p, ps) = (omega arith, All-le a b ys h ps)

  sort_insert-Descends :
      (x : A) (ys : List A) → Descends ys → Descends (sort_insert (λ a b. ltb (key b) (key a)) x ys)
  unfolding sort_insert
  sort_insert-Descends x [] h = (tt, tt)
  sort_insert-Descends x (y ∷ ys) (below, h) = elim (Bool-cases (ltb (key x) (key y))) [
    | inl b ↦ rw b (
      All-sort_insert (λ a b. ltb (key b) (key a)) (λ z. key z ≤ key y) x ys (ground arith) below,
      sort_insert-Descends x ys h,
    )
    | inr b ↦ rw b ((ground arith, All-le (key y) (key x) ys (ground arith) below), (below, h))
  ]

  -- Sorting by the greater key puts the items in descending order.
  pub sort_stable-Descends : (xs : List A) → Descends (sort_stable (λ a b. ltb (key b) (key a)) xs)
  unfolding sort_stable
  sort_stable-Descends [] = tt
  sort_stable-Descends (x ∷ xs) = sort_insert-Descends x _ (sort_stable-Descends xs)
