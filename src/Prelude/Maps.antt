-- ===== src/Prelude/Maps.antt =====
-- A Go map with text keys, as an association list with at most one entry for a key.
use mathlib.Core.Path.{◌≡◌, refl, sym}
use mathlib.Core.Logic.{inl, inr}
use mathlib.Core.Bool.{Bool, false, true}
use mathlib.Core.Option.{Option, none, some}
use mathlib.Core.List.{List, [], ◌∷◌, ◌++◌}
use native.Mathlib.Omega.{arith}
use second_brain.Prelude.Tests.{Bool-cases, if◌then◌else◌, is_some}
use second_brain.Prelude.Lists.{Within, at_head, in_tail}
use second_brain.Prelude.Strings.{Text, ◌==◌, ==_refl, ==→≡, eq_iff}

abbrev pub Dict {ℓ} : Type ℓ → Type ℓ
Dict V = List (Text × V)

module _ {ℓ} {V : Type ℓ} where
  unfoldable pub lookup : Text → Dict V → Option V
  lookup k [] = none
  lookup k ((j, v) ∷ m) = let rest = lookup k m in if j == k then some v else rest

  -- `m[k] = v`.
  unfoldable pub insert : Text → V → Dict V → Dict V
  insert k v [] = (k, v) ∷ []
  insert k v ((j, w) ∷ m) = let rest = insert k v m in if j == k then (k, v) ∷ m else (j, w) ∷ rest

  -- `delete(m, k)`.
  unfoldable pub delete : Text → Dict V → Dict V
  delete k [] = []
  delete k ((j, w) ∷ m) = let rest = delete k m in if j == k then rest else (j, w) ∷ rest

  abbrev pub has_key : Text → Dict V → Bool
  has_key k m = is_some (lookup k m)

  abbrev pub values : Dict V → List V
  values [] = []
  values ((j, v) ∷ m) = v ∷ values m

  pub lookup-insert :
      (at wanted : Text) (value : V) (dict : Dict V)
      → lookup wanted (insert at value dict)
        ≡ (if at == wanted then some value else lookup wanted dict)
  unfolding lookup insert
  lookup-insert at wanted value [] = refl
  lookup-insert at wanted value ((key, old) ∷ rest) = ground (
    arith,
    lookup-insert at wanted value rest,
    eq_iff key wanted,
    eq_iff key at,
    eq_iff at wanted,
  )

  pub lookup-delete :
      (k j : Text) (m : Dict V) → lookup j (delete k m) ≡ (if k == j then none else lookup j m)
  unfolding lookup delete
  lookup-delete k j [] = ground arith
  lookup-delete k j ((i, w) ∷ m) =
      ground (arith, eq_iff k j, eq_iff i k, eq_iff i j, lookup-delete k j m)

  pub lookup-insert_self :
      (at : Text) (value : V) (dict : Dict V) → lookup at (insert at value dict) ≡ some value
  lookup-insert_self at value dict = simp (lookup-insert, ==_refl)

-- `slices.Contains`, and the lookup in a `map[string]bool` that only holds `true`.
unfoldable pub contains : Text → List Text → Bool
contains k [] = false
contains k (j ∷ js) = let rest = contains k js in if j == k then true else rest

pub contains-append :
    (k : Text) (xs ys : List Text)
    → contains k (xs ++ ys) ≡ (if contains k xs then true else contains k ys)
unfolding contains
contains-append k [] ys = refl
contains-append k (x ∷ xs) ys = ground (arith, contains-append k xs ys)

pub contains-Within : (k : Text) (xs : List Text) → contains k xs ≡ true → Within k xs
unfolding contains
contains-Within k [] h = cc
contains-Within k (x ∷ xs) h = elim (Bool-cases (x == k)) [
  | inl e ↦ at_head (sym (==→≡ x k e))
  | inr e ↦ in_tail (contains-Within k xs (ground arith))
]
