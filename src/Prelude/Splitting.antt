-- ===== src/Prelude/Splitting.antt =====
-- `strings.Split` and `strings.Join` undo one another.
use Prim.Native.Nat.{ℕ}
use mathlib.Core.Path.{◌≡◌, refl, sym, ap, ◌∙◌}
use mathlib.Core.Logic.{◌≢◌, inl, inr}
use mathlib.Core.Bool.{false, true}
use mathlib.Core.List.{List, [], ◌∷◌, ◌++◌, append_assoc, append-nil}
use native.Mathlib.Omega.{arith}
use second_brain.Prelude.Tests.{Bool-cases, eqb}
use second_brain.Prelude.Lists.{All, All-append}
use second_brain.Prelude.Strings.{Text, join, split, split_from, has_prefix}

-- The text has no occurrence of the code point.
abbrev pub Lacks : ℕ → Text → Type 0
Lacks b = All (λ c. eqb c b ≡ false)

split_from-cons :
    (sep : ℕ) (cur s : Text) → (q : Text) × (qs : List Text) × (split_from sep cur s ≡ q ∷ qs)
unfolding split_from
split_from-cons sep cur [] = (cur, [], refl)
split_from-cons sep cur (c ∷ s) = elim (Bool-cases (eqb c sep)) [
  | inl e ↦ (cur, split_from sep [] s, rw e)
  | inr e ↦ let (q, qs, h) = split_from-cons sep (cur ++ c ∷ []) s in (q, qs, rw e h)
]

join-cons :
    (p : Text) (ps : List Text) (sep : Text)
    → ps ≢ []
    → join (p ∷ ps) sep ≡ p ++ (sep ++ join ps sep)
unfolding join
join-cons p [] sep h = absurd (h refl)
join-cons p (q ∷ ps) sep h = refl

split_from-ne-nil : (sep : ℕ) (cur s : Text) → split_from sep cur s ≢ []
split_from-ne-nil sep cur s h = let (q, qs, e) = split_from-cons sep cur s in cc

join_single : (p sep : Text) → join (p ∷ []) sep ≡ p
unfolding join
join_single p sep = refl

join-split_from : (sep : ℕ) (cur s : Text) → join (split_from sep cur s) (sep ∷ []) ≡ cur ++ s
unfolding split_from
join-split_from sep cur [] = join_single cur _ ∙ sym (append-nil cur)
join-split_from sep cur (c ∷ s) = elim (Bool-cases (eqb c sep)) [
  | inl e ↦
      rw (e, join-cons cur _ (sep ∷ []) (split_from-ne-nil sep [] s), join-split_from sep [] s)
        (ground arith)
  | inr e ↦ rw (e, join-split_from sep (cur ++ c ∷ []) s) (append_assoc cur (c ∷ []) s)
]

-- Joining the parts of a split gives the text back.
pub join-split : (s : Text) (sep : ℕ) → join (split s sep) (sep ∷ []) ≡ s
unfolding split
join-split s sep = join-split_from sep [] s

split_from-append :
    (sep : ℕ) (cur p rest : Text)
    → Lacks sep p
    → split_from sep cur (p ++ sep ∷ rest) ≡ (cur ++ p) ∷ split_from sep [] rest
unfolding split_from
split_from-append sep cur [] rest h = ground (arith, append-nil cur)
split_from-append sep cur (c ∷ p) rest (hc, h) = rw hc (
    split_from-append sep (cur ++ c ∷ []) p rest h
    ∙ ap (λ q. q ∷ split_from sep [] rest) (append_assoc cur (c ∷ []) p))

-- The first part of a text, up to the separator.
pub split-append :
    (sep : ℕ) (p rest : Text) → Lacks sep p → split (p ++ sep ∷ rest) sep ≡ p ∷ split rest sep
unfolding split
split-append sep p rest h = split_from-append sep [] p rest h

split_from_whole : (sep : ℕ) (cur p : Text) → Lacks sep p → split_from sep cur p ≡ (cur ++ p) ∷ []
unfolding split_from
split_from_whole sep cur [] h = rw append-nil
split_from_whole sep cur (c ∷ p) (hc, h) =
    rw hc
      (split_from_whole sep (cur ++ c ∷ []) p h ∙ ap (λ q. q ∷ []) (append_assoc cur (c ∷ []) p))

pub split_whole : (sep : ℕ) (p : Text) → Lacks sep p → split p sep ≡ p ∷ []
unfolding split
split_whole sep p h = split_from_whole sep [] p h

-- Splitting a join gives the parts back, if there is a part and none holds the separator.
pub split-join :
    (sep : ℕ) (p : Text) (ps : List Text)
    → All (Lacks sep) (p ∷ ps)
    → split (join (p ∷ ps) (sep ∷ [])) sep ≡ p ∷ ps
unfolding join
split-join sep p [] (h, hs) = split_whole sep p h
split-join sep p (q ∷ ps) (h, hs) =
    split-append sep p (join (q ∷ ps) (sep ∷ [])) h ∙ ap (λ r. p ∷ r) (split-join sep q ps hs)

split_from-Lacks : (sep : ℕ) (cur s : Text) → Lacks sep cur → All (Lacks sep) (split_from sep cur s)
unfolding split_from
split_from-Lacks sep cur [] h = (h, tt)
split_from-Lacks sep cur (c ∷ s) h = elim (Bool-cases (eqb c sep)) [
  | inl e ↦ rw e (h, split_from-Lacks sep [] s tt)
  | inr e ↦ rw e (
      split_from-Lacks sep (cur ++ c ∷ []) s
        (All-append (λ c. eqb c sep ≡ false) cur (c ∷ []) h (e, tt)))
]

-- No part of a split holds the separator.
pub split-Lacks : (s : Text) (sep : ℕ) → All (Lacks sep) (split s sep)
unfolding split
split-Lacks s sep = split_from-Lacks sep [] s tt

-- Two joins of parts, put together by the separator.
pub join-append :
    (sep : Text) (p : Text) (ps : List Text) (q : Text) (qs : List Text)
    → join ((p ∷ ps) ++ (q ∷ qs)) sep ≡ join (p ∷ ps) sep ++ (sep ++ join (q ∷ qs) sep)
unfolding join
join-append sep p [] q qs = refl
join-append sep p (r ∷ ps) q qs = rw (join-append sep r ps q qs) (simp append_assoc)

split_from-split_from :
    (sep : ℕ) (cur s t : Text)
    → split_from sep cur (s ++ sep ∷ t) ≡ split_from sep cur s ++ split_from sep [] t
unfolding split_from
split_from-split_from sep cur [] t = ground arith
split_from-split_from sep cur (c ∷ s) t =
    ground (arith, split_from-split_from sep [] s t, split_from-split_from sep (cur ++ c ∷ []) s t)

-- A separator between two texts separates their parts.
pub split-split : (sep : ℕ) (s t : Text) → split (s ++ sep ∷ t) sep ≡ split s sep ++ split t sep
unfolding split
split-split sep s t = split_from-split_from sep [] s t

pub has_prefix-append : (s t : Text) → has_prefix (s ++ t) s ≡ true
unfolding has_prefix
has_prefix-append [] [] = refl
has_prefix-append [] (c ∷ t) = refl
has_prefix-append (c ∷ s) t = ground (arith, has_prefix-append s t)
