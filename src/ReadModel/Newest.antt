-- ===== src/ReadModel/Newest.antt =====
-- What the source views serve: the newest items, in their order, and the summaries of these.
use second_brain.Prelude.{Descends, List, codes, length, min, ℕ, ◌++◌, ◌≡◌, Within}
use mathlib.Core.List.{Perm}
use second_brain.Models.{Summary, XBookmark}

-- `served` are the `limit` items of `xs` with the greatest keys, in descending order, or all.
pub record AreNewest {ℓ} {A : Type ℓ} (key : A → ℕ) (limit : ℕ) (xs served : List A) : Type ℓ where
  pub left_out : List A
  pub same_items : Perm (served ++ left_out) xs
  pub descending : Descends key (served ++ left_out)
  pub as_many : length served ≡ min limit (length xs)

-- The summary belongs to X and to one of the bookmarks that are served.
abbrev pub IsSummaryOf : List XBookmark → Summary → Type 0
IsSummaryOf served s =
    (s.source ≡ codes "x") × (b : XBookmark) × Within b served × (s.source_url ≡ b.source_url)
