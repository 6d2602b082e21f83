-- ===== src/Prelude/Lists.antt =====
-- Lists measured by native numbers, filters by a Boolean test, and predicates over lists.
use Prim.Native.Nat.{ℕ, zero, suc, ◌+◌, ◌≤◌, min}
use mathlib.Core.Path.{◌≡◌, refl, ap, sym, subst}
use mathlib.Core.Logic.{◌⊎◌, inl, inr}
use mathlib.Core.Bool.{Bool, true, false}
use mathlib.Core.List.{List, [], ◌∷◌, ◌++◌, map}
use native.Mathlib.Omega.{arith}
use second_brain.Prelude.Tests.{if◌then◌else◌, Bool-cases}

module _ {ℓ} {A : Type ℓ} where
  abbrev pub length : List A → ℕ
  length [] = 0
  length (x ∷ xs) = suc (length xs)

  abbrev pub is_nil : List A → Bool
  is_nil [] = true
  is_nil (x ∷ xs) = false

  abbrev pub take : ℕ → List A → List A
  take zero xs = []
  take (suc n) [] = []
  take (suc n) (x ∷ xs) = x ∷ take n xs

  abbrev pub drop : ℕ → List A → List A
  drop zero xs = xs
  drop (suc n) [] = []
  drop (suc n) (x ∷ xs) = drop n xs

  -- The items that pass a test, in their order: a loop with `continue`.
  abbrev pub keep : (A → Bool) → List A → List A
  keep p [] = []
  keep p (x ∷ xs) = let rest = keep p xs in if p x then x ∷ rest else rest

module _ {ℓ} {A : Type ℓ} where
  pub length-append : (xs ys : List A) → length (xs ++ ys) ≡ length xs + length ys
  length-append [] ys = omega arith
  length-append (x ∷ xs) ys = omega (arith, length-append xs ys)

  pub take-append-drop : (n : ℕ) (xs : List A) → take n xs ++ drop n xs ≡ xs
  take-append-drop zero xs = refl
  take-append-drop (suc n) [] = refl
  take-append-drop (suc n) (x ∷ xs) = ap (λ r. x ∷ r) (take-append-drop n xs)

  pub length-take : (n : ℕ) (xs : List A) → length (take n xs) ≡ min n (length xs)
  length-take zero xs = omega arith
  length-take (suc n) [] = omega arith
  length-take (suc n) (x ∷ xs) = omega (arith, length-take n xs)

  pub length-drop : (n : ℕ) (xs : List A) → length (take n xs) + length (drop n xs) ≡ length xs
  length-drop zero xs = omega arith
  length-drop (suc n) [] = omega arith
  length-drop (suc n) (x ∷ xs) = omega (arith, length-drop n xs)

  pub length-keep : (p : A → Bool) (xs : List A) → length (keep p xs) ≤ length xs
  length-keep p [] = omega arith
  length-keep p (x ∷ xs) = ground (arith, length-keep p xs)

module _ {ℓ κ} {A : Type ℓ} (P : A → Type κ) where
  -- Every item satisfies `P`.
  abbrev pub All : List A → Type κ
  All [] = Unit
  All (x ∷ xs) = P x × All xs

  pub All-append : (xs ys : List A) → All xs → All ys → All (xs ++ ys)
  All-append [] ys hx hy = hy
  All-append (x ∷ xs) ys (px, hx) hy = (px, All-append xs ys hx hy)

  pub All-take : (n : ℕ) (xs : List A) → All xs → All (take n xs)
  All-take zero xs h = tt
  All-take (suc n) [] h = tt
  All-take (suc n) (x ∷ xs) (p, h) = (p, All-take n xs h)

  pub All-keep : (p : A → Bool) (xs : List A) → All xs → All (keep p xs)
  All-keep p [] h = tt
  All-keep p (x ∷ xs) (px, h) = elim (Bool-cases (p x)) [
    | inl e ↦ rw e (px, All-keep p xs h)
    | inr e ↦ rw e (All-keep p xs h)
  ]

-- Membership that can be matched.
pub data Within {ℓ} {A : Type ℓ} (a : A) : List A → Type ℓ where
  at_head : {x : A} {xs : List A} → a ≡ x → Within a (x ∷ xs)
  in_tail : {x : A} {xs : List A} → Within a xs → Within a (x ∷ xs)

module _ {ℓ} {A : Type ℓ} where
  pub Within-append_left : {a : A} (xs ys : List A) → Within a xs → Within a (xs ++ ys)
  Within-append_left [] ys h = elim h [ ]
  Within-append_left (x ∷ xs) ys (at_head e) = at_head e
  Within-append_left (x ∷ xs) ys (in_tail h) = in_tail (Within-append_left xs ys h)

  pub Within-append_right : {a : A} (xs ys : List A) → Within a ys → Within a (xs ++ ys)
  Within-append_right [] ys h = h
  Within-append_right (x ∷ xs) ys h = in_tail (Within-append_right xs ys h)

  pub Within-append_cases :
      {a : A} (xs ys : List A) → Within a (xs ++ ys) → Within a xs ⊎ Within a ys
  Within-append_cases [] ys h = inr h
  Within-append_cases (x ∷ xs) ys (at_head e) = inl (at_head e)
  Within-append_cases (x ∷ xs) ys (in_tail h) = elim (Within-append_cases xs ys h) [
    | inl l ↦ inl (in_tail l)
    | inr r ↦ inr r
  ]

module _ {ℓ} {A : Type ℓ} where
  Within-if :
      (p : A → Bool) {a : A} (x : A) (xs : List A) (b : Bool)
      → p x ≡ b
      → (Within a (keep p xs) → Within a xs × (p a ≡ true))
      → Within a (if b then x ∷ keep p xs else keep p xs)
      → Within a (x ∷ xs) × (p a ≡ true)
  Within-if p x xs true e rec (at_head s) = (at_head s, rw s e)
  Within-if p x xs true e rec (in_tail t) = let (w, q) = rec t in (in_tail w, q)
  Within-if p x xs false e rec t = let (w, q) = rec t in (in_tail w, q)

  pub Within-keep :
      (p : A → Bool) {a : A} (xs : List A) → Within a (keep p xs) → Within a xs × (p a ≡ true)
  Within-keep p [] h = elim h [ ]
  Within-keep p (x ∷ xs) h = Within-if p x xs (p x) refl (Within-keep p xs) h

  pub keep-Within :
      (p : A → Bool) {a : A} (xs : List A) → Within a xs → p a ≡ true → Within a (keep p xs)
  keep-Within p [] h e = elim h [ ]
  keep-Within p (x ∷ xs) (at_head s) e = rw (← s) (rw e (at_head refl))
  keep-Within p (x ∷ xs) (in_tail t) e = elim (Bool-cases (p x)) [
    | inl q ↦ rw q (in_tail (keep-Within p xs t e))
    | inr q ↦ rw q (keep-Within p xs t e)
  ]

  pub All-Within {κ} : (P : A → Type κ) {a : A} (xs : List A) → All P xs → Within a xs → P a
  All-Within P [] h w = elim w [ ]
  All-Within P (x ∷ xs) (px, h) (at_head e) = subst P (sym e) px
  All-Within P (x ∷ xs) (px, h) (in_tail w) = All-Within P xs h w

  -- What holds of every member holds of the list.
  pub All-of_Within {κ} : (P : A → Type κ) (xs : List A) → ((a : A) → Within a xs → P a) → All P xs
  All-of_Within P [] f = tt
  All-of_Within P (x ∷ xs) f = (f x (at_head refl), All-of_Within P xs (λ a w. f a (in_tail w)))

-- A member of a mapped list comes from a member.
pub Within-map {ℓ κ} :
    {A : Type ℓ} {B : Type κ} (f : A → B) {b : B} (xs : List A)
    → Within b (map f xs)
    → (a : A) × Within a xs × (b ≡ f a)
Within-map f [] h = elim h [ ]
Within-map f (x ∷ xs) (at_head e) = (x, at_head refl, e)
Within-map f (x ∷ xs) (in_tail w) = let (a, wa, e) = Within-map f xs w in (a, in_tail wa, e)
