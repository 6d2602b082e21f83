-- ===== src/Storage/Containment.antt =====
-- What `filesystemObjectPath` accepts, and where the paths that it returns lie.
use second_brain.Prelude.{
  All, Bool-cases, List, Text, [], ap, append-nil, append_assoc, arith, false, inl, inr, join-split,
  none, refl, split, split-append, sym, ◌++◌, ◌∙◌, ◌∷◌, ◌≡◌, Bool, ok, ◌≢◌, length, ◌↔◌, join,
  Outcome, Lacks, split-split, trim, split-join, All-append, true, has_prefix, ◌>>=◌, map_err,
  Outcome-cases,
}
use second_brain.Storage.ObjectPath.{
  clean_parts, clean_rooted, clean_step, find_unsafe, is_unsafe_part, trim_slash_prefix,
  safe_storage_path_part, trim_path, join_path, filesystem_object_path, check_contained,
  invalid_bucket, invalid_object,
}

-- A part that `safeStoragePathPart` lets through.
abbrev pub IsSafe : Text → Type 0
IsSafe part = is_unsafe_part part ≡ false

find_unsafe-none : (ps : List Text) → find_unsafe ps ≡ none → All IsSafe ps
unfolding find_unsafe
find_unsafe-none [] h = tt
find_unsafe-none (p ∷ ps) h = elim (Bool-cases (is_unsafe_part p)) [
  | inl e ↦ absurd (ground arith)
  | inr e ↦ (e, find_unsafe-none ps (ground arith))
]

none-find_unsafe : (ps : List Text) → All IsSafe ps → find_unsafe ps ≡ none
unfolding find_unsafe
none-find_unsafe [] h = refl
none-find_unsafe (p ∷ ps) (hp, h) = rw hp (none-find_unsafe ps h)

clean_step-IsSafe : (st : List Text) (p : Text) → IsSafe p → clean_step st p ≡ st ++ p ∷ []
unfolding clean_step is_unsafe_part
clean_step-IsSafe st p h = ground arith

pub clean_parts-IsSafe : (st ps : List Text) → All IsSafe ps → clean_parts st ps ≡ st ++ ps
unfolding clean_parts
clean_parts-IsSafe st [] h = sym (append-nil st)
clean_parts-IsSafe st (p ∷ ps) (hp, h) =
    rw (clean_step-IsSafe st p hp) (clean_parts-IsSafe _ ps h ∙ append_assoc st (p ∷ []) ps)

pub clean_parts-nil : (st ps : List Text) → clean_parts st ([] ∷ ps) ≡ clean_parts st ps
unfolding clean_parts
clean_parts-nil st ps = refl

-- `Clean` leaves a path alone if none of its parts is empty, `.` or `..`.
clean_rooted-IsSafe : (v : Text) → All IsSafe (split v b'/') → clean_rooted v ≡ b'/' ∷ v
unfolding clean_rooted
clean_rooted-IsSafe v h =
    rw (split-append b'/' [] v tt, clean_parts-nil, clean_parts-IsSafe [] _ h)
      (ap (λ r. b'/' ∷ r) (join-split v b'/'))

-- The test for a part that may not stand in a storage path.
abbrev pub Accepts : Text → Bool → Text → Type 0
Accepts value allow_nested r =
    (r ≡ trim_path value)
    × (r ≢ [])
    × All IsSafe (split r b'/')
    × (allow_nested ≡ false → length (split r b'/') ≡ 1)

trim_clean_rooted : (v : Text) → All IsSafe (split v b'/') → trim_slash_prefix (clean_rooted v) ≡ v
unfolding trim_slash_prefix
trim_clean_rooted v h = rw (clean_rooted-IsSafe v h)

pub safe_storage_path_part_sound :
    (value : Text) (nested : Bool) (r : Text)
    → safe_storage_path_part value nested ≡ ok r
    → Accepts value nested r
unfolding safe_storage_path_part
safe_storage_path_part_sound value nested r h =
    let t = trim_path value in
    let parts = split t b'/' in
    let same : r ≡ t = ground (arith, find_unsafe-none parts, trim_clean_rooted t) in
    (same, ground arith, rw same (find_unsafe-none parts (ground arith)), ground arith)

safe_storage_path_part_complete :
    (value : Text) (nested : Bool) (r : Text)
    → Accepts value nested r
    → safe_storage_path_part value nested ≡ ok r
unfolding safe_storage_path_part
safe_storage_path_part_complete value nested r (e, n, s, one) =
    ground (arith, none-find_unsafe (split r b'/') s, trim_clean_rooted r s)

-- A part is accepted exactly when the result is the part trimmed of space and slashes, is not
-- empty, has no empty, `.` or `..` segment, and is one segment unless nesting is allowed.
pub safe_storage_path_part_iff :
    (value : Text) (nested : Bool) (r : Text)
    → (safe_storage_path_part value nested ≡ ok r) ↔ Accepts value nested r
safe_storage_path_part_iff value nested r =
    (safe_storage_path_part_sound value nested r, safe_storage_path_part_complete value nested r)

-- What `filepath.Abs` returns: a rooted path that `Clean` has gone over.
pub record IsCleanRoot (root : Text) (first : Text) (segments : List Text) : Type 0 where
  pub spelled : root ≡ b'/' ∷ join (first ∷ segments) (b'/' ∷ [])
  pub safe : All IsSafe (first ∷ segments)
  pub whole : All (Lacks b'/') (first ∷ segments)

join_path_lem :
    (root first : Text) (segments : List Text) (bucket object : Text)
    → IsCleanRoot root first segments
    → All IsSafe (split bucket b'/')
    → All IsSafe (split object b'/')
    → join_path root bucket object ≡ root ++ b'/' ∷ (bucket ++ b'/' ∷ object)
unfolding join_path trim_slash_prefix
join_path_lem root first segments bucket object c hb ho =
    let inner = join (first ∷ segments) (b'/' ∷ []) in
    let safe : All IsSafe (split (inner ++ b'/' ∷ (bucket ++ b'/' ∷ object)) b'/') =
      rw
        (
          split-split b'/' inner _,
          split-split b'/' bucket object,
          split-join b'/' first segments c.whole,
        )
        (All-append IsSafe (first ∷ segments) _ c.safe
          (All-append IsSafe (split bucket b'/') _ hb ho)) in
    rw c.spelled (clean_rooted-IsSafe _ safe)

has_prefix-cons : (s t : Text) → has_prefix (s ++ b'/' ∷ t) (s ++ b'/' ∷ []) ≡ true
unfolding has_prefix
has_prefix-cons [] [] = refl
has_prefix-cons [] (c ∷ t) = refl
has_prefix-cons (c ∷ s) t = ground (arith, has_prefix-cons s t)

check_contained_ok :
    (root rest : Text) → check_contained root (root ++ b'/' ∷ rest) ≡ ok (root ++ b'/' ∷ rest)
unfolding check_contained
check_contained_ok root rest = ground (arith, has_prefix-cons root rest)

module _ (absolute : Text → Outcome Text Text) (root root_abs first : Text) (segments : List Text)
    (set : trim root ≢ []) (found : absolute (trim root) ≡ ok root_abs)
    (clean : IsCleanRoot root_abs first segments) where
  -- With a storage root that is set and made absolute to a clean path other than `/`: bucket and
  -- object are checked in this order, and the path is then the root, the bucket and the object
  -- joined by slashes; the last guard never refuses.
  pub filesystem_object_path_lem :
      (bucket object : Text)
      → filesystem_object_path absolute root bucket object ≡ (do
        b ← map_err invalid_bucket (safe_storage_path_part bucket false)
        o ← map_err invalid_object (safe_storage_path_part object true)
        ok (root_abs ++ b'/' ∷ (b ++ b'/' ∷ o)))
  unfolding filesystem_object_path
  filesystem_object_path_lem bucket object =
      elim (Outcome-cases (safe_storage_path_part bucket false)) [
        | inr (e, h) ↦ ground arith
        | inl (b, hb) ↦ elim (Outcome-cases (safe_storage_path_part object true)) [
          | inr (e, h) ↦ ground arith
          | inl (o, ho) ↦
              let (_, _, sb, _) = safe_storage_path_part_sound bucket false b hb in
              let (_, _, so, _) = safe_storage_path_part_sound object true o ho in
              ground (
                arith,
                join_path_lem root_abs first segments b o clean sb so,
                check_contained_ok root_abs (b ++ b'/' ∷ o),
              )
        ]
      ]

  -- With a storage root that is set and made absolute to a clean path other than `/`: the
  -- segments of a returned path are those of the root, then those of the accepted bucket and
  -- object, none of which is empty, `.` or `..`.
  pub filesystem_object_path-contained :
      (bucket object p : Text)
      → filesystem_object_path absolute root bucket object ≡ ok p
      → (b : Text) × (o : Text) × Accepts bucket false b
        × Accepts object true o
        × (p ≡ root_abs ++ b'/' ∷ (b ++ b'/' ∷ o))
        × (split p b'/' ≡ split root_abs b'/' ++ (split b b'/' ++ split o b'/'))
        × All IsSafe (split b b'/' ++ split o b'/')
  filesystem_object_path-contained bucket object p h =
      let e = filesystem_object_path_lem bucket object in
      elim (Outcome-cases (safe_storage_path_part bucket false)) [
        | inr (x, hb) ↦ absurd (ground arith)
        | inl (b, hb) ↦ elim (Outcome-cases (safe_storage_path_part object true)) [
          | inr (x, ho) ↦ absurd (ground arith)
          | inl (o, ho) ↦
              let accepted_b = safe_storage_path_part_sound bucket false b hb in
              let accepted_o = safe_storage_path_part_sound object true o ho in
              let same : p ≡ root_abs ++ b'/' ∷ (b ++ b'/' ∷ o) = ground arith in
              (
                b,
                o,
                accepted_b,
                accepted_o,
                same,
                rw same (rw (split-split b'/' root_abs _, split-split b'/' b o)),
                All-append IsSafe (split b b'/') _ accepted_b.2 accepted_o.2,
              )
        ]
      ]
