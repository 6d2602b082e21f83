-- ===== src/Material/Union.antt =====
-- Merging fetched items with those of the last run is a union in which what was fetched wins.
use second_brain.Prelude.{
  ==_refl, Bool-cases, List, Option, Text, [], arith, contains, eq_iff, if◌then◌else◌, inl, inr,
  is_blank, is_some, none, not, refl, some, true, ◌&&◌, ◌++◌, ◌==◌, ◌||◌, ◌∷◌, ◌≡◌, ◌≢◌,
}
use second_brain.Models.{XBookmark}
use second_brain.Material.Merge.{collect, merge_x_bookmarks}

-- The first item with an identifier.
unfoldable pub find_id {ℓ} : {A : Type ℓ} → (A → Text) → Text → List A → Option A
find_id id k [] = none
find_id id k (x ∷ xs) = let rest = find_id id k xs in if id x == k then some x else rest

abbrev pub first_some {ℓ} : {A : Type ℓ} → Option A → Option A → Option A
first_some none b = b
first_some (some a) b = some a

-- No identifier stands twice.
abbrev pub IsDistinct {ℓ} : {A : Type ℓ} → (A → Text) → List A → Type ℓ
IsDistinct id [] = Unit
IsDistinct id (x ∷ xs) = (find_id id (id x) xs ≡ none) × IsDistinct id xs

module _ {ℓ} {A : Type ℓ} (id : A → Text) where
  pub find_id-append :
      (k : Text) (xs ys : List A)
      → find_id id k (xs ++ ys) ≡ first_some (find_id id k xs) (find_id id k ys)
  unfolding find_id
  find_id-append k [] ys = refl
  find_id-append k (x ∷ xs) ys = ground (arith, find_id-append k xs ys)

  pub find_id-collect :
      (k : Text) (seen : List Text) (xs : List A)
      → find_id id k (collect id seen xs).0
        ≡ (if is_blank k || contains k seen then none else find_id id k xs)
  unfolding find_id collect contains
  find_id-collect k seen [] = ground arith
  find_id-collect k seen (x ∷ xs) =
      ground (arith, eq_iff (id x) k, find_id-collect k seen xs, find_id-collect k (id x ∷ seen) xs)

  pub seen-collect :
      (k : Text) (seen : List Text) (xs : List A)
      → contains k (collect id seen xs).1
        ≡ (contains k seen || (not (is_blank k) && is_some (find_id id k xs)))
  unfolding find_id collect contains
  seen-collect k seen [] = ground arith
  seen-collect k seen (x ∷ xs) =
      ground (arith, eq_iff (id x) k, seen-collect k seen xs, seen-collect k (id x ∷ seen) xs)

  pub collect-IsDistinct : (seen : List Text) (xs : List A) → IsDistinct id (collect id seen xs).0
  unfolding collect contains
  collect-IsDistinct seen [] = tt
  collect-IsDistinct seen (x ∷ xs) = elim (Bool-cases (is_blank (id x) || contains (id x) seen)) [
    | inl e ↦ rw e (collect-IsDistinct seen xs)
    | inr e ↦ rw e (
      ground (arith, find_id-collect (id x) (id x ∷ seen) xs, ==_refl (id x)),
      collect-IsDistinct (id x ∷ seen) xs,
    )
  ]

  pub append-IsDistinct :
      (xs ys : List A)
      → IsDistinct id xs
      → IsDistinct id ys
      → ((k : Text) → is_some (find_id id k xs) ≡ true → find_id id k ys ≡ none)
      → IsDistinct id (xs ++ ys)
  unfolding find_id
  append-IsDistinct [] ys hx hy apart = hy
  append-IsDistinct (x ∷ xs) ys (first, hx) hy apart = (
    ground (arith, find_id-append (id x) xs ys, apart (id x), ==_refl (id x)),
    append-IsDistinct xs ys hx hy (λ k h. apart k (ground arith)),
  )

  -- Two passes with one `seen`: a left-biased union.
  pub find_id-union :
      (k : Text) (xs ys : List A)
      → find_id id k ((collect id [] xs).0 ++ (collect id (collect id [] xs).1 ys).0)
        ≡ (if is_blank k then none else first_some (find_id id k xs) (find_id id k ys))
  unfolding contains
  find_id-union k xs ys =
      let seen = (collect id [] xs).1 in
      ground (
        arith,
        find_id-append k (collect id [] xs).0 (collect id seen ys).0,
        find_id-collect k [] xs,
        find_id-collect k seen ys,
        seen-collect k [] xs,
      )

  pub union-IsDistinct :
      (xs ys : List A)
      → IsDistinct id ((collect id [] xs).0 ++ (collect id (collect id [] xs).1 ys).0)
  unfolding contains
  union-IsDistinct xs ys =
      let seen = (collect id [] xs).1 in
      append-IsDistinct (collect id [] xs).0 (collect id seen ys).0 (collect-IsDistinct [] xs)
        (collect-IsDistinct seen ys)
        (λ k h.
          ground (arith, find_id-collect k [] xs, find_id-collect k seen ys, seen-collect k [] xs))

-- Unless there is no previous run, merged bookmarks have distinct identifiers, and each non-blank
-- identifier keeps its first fetched bookmark, or else its first previous one.
pub merge_x_bookmarks-union :
    (previous fetched : List XBookmark)
    → previous ≢ []
    → IsDistinct (λ b. b.id) (merge_x_bookmarks previous fetched)
      × ((k : Text)
          → find_id (λ b. b.id) k (merge_x_bookmarks previous fetched) ≡ (
              if is_blank k
              then none
              else first_some (find_id (λ b. b.id) k fetched) (find_id (λ b. b.id) k previous)))
unfolding merge_x_bookmarks
merge_x_bookmarks-union [] fetched n = absurd (n refl)
merge_x_bookmarks-union (p ∷ previous) fetched n = (
  union-IsDistinct (λ b. b.id) fetched (p ∷ previous),
  λ k. find_id-union (λ b. b.id) k fetched (p ∷ previous),
)
