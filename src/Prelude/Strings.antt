-- ===== src/Prelude/Strings.antt =====
-- Text as its code points, with the operations of Go's `strings` that the program calls.
use Prim.Native.Nat.{ℕ, ◌+◌}
use Prim.Native.Char.{code}
use Prim.Native.String.{String}
use mathlib.Core.Path.{◌≡◌, refl, ap, sym, ◌∙◌}
use mathlib.Core.Logic.{◌↔◌, ◌≢◌, ◌⊎◌, inl, inr}
use mathlib.Core.Bool.{Bool, true, false, not, ◌&&◌, ◌||◌}
use mathlib.Core.List.{List, [], ◌∷◌, ◌++◌, append-nil}
use native.Mathlib.Omega.{arith}
use second_brain.Prelude.Tests.{ltb, leb, eqb, if◌then◌else◌, Bool-cases}
use second_brain.Prelude.Lists.{is_nil, length, length-append}

abbrev pub Text : Type 0
Text = List ℕ

-- The code points of a literal. Shut, so that a statement shows the literal.
unfoldable pub codes : String → Text
codes String.[] = []
codes (String.◌∷◌ c s) = code c ∷ codes s

-- Equality of texts, shut so that a comparison stays one test.
infix 50 ◌==◌
unfoldable pub ◌==◌ : Text → Text → Bool
[] == [] = true
[] == (d ∷ t) = false
(c ∷ s) == [] = false
(c ∷ s) == (d ∷ t) = eqb c d && s == t

pub ==→≡ : (s t : Text) → (s == t) ≡ true → s ≡ t
unfolding ◌==◌
==→≡ [] [] h = refl
==→≡ [] (d ∷ t) h = cc
==→≡ (c ∷ s) [] h = cc
==→≡ (c ∷ s) (d ∷ t) h = ground (arith, ==→≡ s t)

pub ==_refl : (s : Text) → (s == s) ≡ true
unfolding ◌==◌
==_refl [] = refl
==_refl (c ∷ s) = ground (arith, ==_refl s)

pub eq_iff : (s t : Text) → ((s == t) ≡ true) ↔ (s ≡ t)
eq_iff s t = (==→≡ s t, λ e. rw e (==_refl t))

-- `unicode.IsSpace`.
unfoldable pub is_space : ℕ → Bool
is_space c =
    (leb 9 c && leb c 13)
    || eqb c 32
    || eqb c 0x85
    || eqb c 0xa0
    || eqb c 0x1680
    || (leb 0x2000 c && leb c 0x200a)
    || eqb c 0x2028
    || eqb c 0x2029
    || eqb c 0x202f
    || eqb c 0x205f
    || eqb c 0x3000

module _ (p : ℕ → Bool) where
  -- `strings.TrimLeftFunc` and `strings.TrimRightFunc`.
  unfoldable pub trim_left : Text → Text
  trim_left [] = []
  trim_left (c ∷ s) = let rest = trim_left s in if p c then rest else c ∷ s

  unfoldable pub trim_right : Text → Text
  trim_right [] = []
  trim_right (c ∷ s) = let rest = trim_right s in if p c && is_nil rest then [] else c ∷ rest

  unfoldable pub trim_by : Text → Text
  unfolding trim_left trim_right
  trim_by s = trim_right (trim_left s)

-- `strings.TrimSpace`.
unfoldable pub trim : Text → Text
unfolding trim_by is_space
trim s = trim_by is_space s

trim_right-trim_right : (p : ℕ → Bool) (s : Text) → trim_right p (trim_right p s) ≡ trim_right p s
unfolding trim_right
trim_right-trim_right p [] = refl
trim_right-trim_right p (c ∷ s) = ground (arith, trim_right-trim_right p s)

-- Trimming from the left leaves a text that starts with no space, or nothing.
trim_left-cases :
    (p : ℕ → Bool) (s : Text)
    → (trim_left p s ≡ []) ⊎ ((c : ℕ) × (t : Text) × (trim_left p s ≡ c ∷ t) × (p c ≡ false))
unfolding trim_left
trim_left-cases p [] = inl refl
trim_left-cases p (c ∷ s) = elim (Bool-cases (p c)) [
  | inl e ↦ rw e (trim_left-cases p s)
  | inr e ↦ rw e (inr (c, s, refl, e))
]

trim_by-trim_by : (p : ℕ → Bool) (s : Text) → trim_by p (trim_by p s) ≡ trim_by p s
unfolding trim_by
trim_by-trim_by p s = elim (trim_left-cases p s) [
  | inl e ↦ rw e refl
  | inr (c, t, e, n) ↦ rw (e, n, n, n) (ap (λ r. c ∷ r) (trim_right-trim_right p t))
]

-- A trimmed text is trimmed.
pub trim-trim : (s : Text) → trim (trim s) ≡ trim s
unfolding trim
trim-trim s = trim_by-trim_by is_space s

-- `strings.Trim(s, "/")` and `strings.TrimRight(s, "/")`.
abbrev pub is_slash : ℕ → Bool
is_slash c = eqb c b'/'

-- `strings.TrimSpace(s) == ""`.
unfoldable pub is_blank : Text → Bool
unfolding trim
is_blank s = is_nil (trim s)

-- `fallback` of summarizer.go: the value, unless it is blank.
unfoldable pub fallback : Text → Text → Text
unfolding is_blank
fallback value fallback_value = if not (is_blank value) then value else fallback_value

-- `strings.HasPrefix(s, prefix)`.
unfoldable pub has_prefix : Text → Text → Bool
has_prefix s [] = true
has_prefix [] (d ∷ t) = false
has_prefix (c ∷ s) (d ∷ t) = eqb c d && has_prefix s t

-- `strings.Split(s, sep)` at one code point; `cur` is the part being read.
unfoldable pub split_from : ℕ → Text → Text → List Text
split_from sep cur [] = cur ∷ []
split_from sep cur (c ∷ s) =
    let cut = split_from sep [] s in
    let go_on = split_from sep (cur ++ c ∷ []) s in if eqb c sep then cur ∷ cut else go_on

unfoldable pub split : Text → ℕ → List Text
unfolding split_from
split s sep = split_from sep [] s

-- `strings.Join(parts, sep)`.
unfoldable pub join : List Text → Text → Text
join [] sep = []
join (p ∷ []) sep = p
join (p ∷ q ∷ ps) sep = p ++ (sep ++ join (q ∷ ps) sep)

-- The bytes of a code point in UTF-8; `len(s)` counts bytes.
unfoldable pub utf8_size : ℕ → ℕ
utf8_size c = if ltb c 0x80 then 1 else if ltb c 0x800 then 2 else if ltb c 0x10000 then 3 else 4

unfoldable pub byte_length : Text → ℕ
unfolding utf8_size
byte_length [] = 0
byte_length (c ∷ s) = utf8_size c + byte_length s

pub ne→== : (s t : Text) → s ≢ t → (s == t) ≡ false
ne→== s t h = elim (Bool-cases (s == t)) [ inl e ↦ absurd (h (==→≡ s t e)) | inr e ↦ e ]

pub append_cancel : (p s t : Text) → p ++ s ≡ p ++ t → s ≡ t
append_cancel [] s t h = h
append_cancel (c ∷ p) s t h = append_cancel p s t (ground arith)

-- Texts that go on differently behind one prefix differ.
pub append-ne : (p s t : Text) → s ≢ t → p ++ s ≢ p ++ t
append-ne p s t n h = n (append_cancel p s t h)

pub append-ne_self : (p : Text) (c : ℕ) (t : Text) → p ≢ p ++ c ∷ t
append-ne_self p c t h = append-ne p [] (c ∷ t) (λ e. cc) (append-nil p ∙ h)

append_self-ne : (s t : Text) (c : ℕ) → (c ∷ s) ++ t ≢ t
append_self-ne s t c h = absurd (omega (arith, ap length h, length-append {0} (c ∷ s) t))

-- Texts with one ending differ before it.
pub append_cancel_right : (s t e : Text) → s ++ e ≡ t ++ e → s ≡ t
append_cancel_right [] [] e h = refl
append_cancel_right [] (d ∷ t) e h = absurd (append_self-ne t e d (sym h))
append_cancel_right (c ∷ s) [] e h = absurd (append_self-ne s e c h)
append_cancel_right (c ∷ s) (d ∷ t) e h =
    let same : s ≡ t = append_cancel_right s t e (ground arith) in ground arith
