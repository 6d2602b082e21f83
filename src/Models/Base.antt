-- ===== src/Models/Base.antt =====
-- The primitive types of the data model, and slices that may be nil.
use second_brain.Prelude.{ℕ, Bool, Text, codes, List, [], Option, none, some, ltb, eqb}

-- Nanoseconds from the zero time, 1 January of year 1, UTC.
abbrev pub Time : Type 0
Time = ℕ

abbrev pub is_zero_time : Time → Bool
is_zero_time t = eqb t 0

-- `a.After(b)`.
abbrev pub after : Time → Time → Bool
after a b = ltb b a

-- The 64 bits of a floating-point number; nothing here computes with it.
abbrev pub Float : Type 0
Float = ℕ

-- `[]T`, where `none` is the nil slice.
abbrev pub Slice {ℓ} : Type ℓ → Type ℓ
Slice A = Option (List A)

-- What `range` and `len` see of a slice.
abbrev pub items {ℓ} : {A : Type ℓ} → Slice A → List A
items none = []
items (some xs) = xs

-- `SourceType` is a string in the source.
abbrev pub SourceType : Type 0
SourceType = Text

abbrev pub source_type_x : SourceType
source_type_x = codes "x"

abbrev pub source_type_youtube : SourceType
source_type_youtube = codes "youtube"
