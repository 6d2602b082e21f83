-- ===== src/Storage/ObjectPath.antt =====
-- The object paths of artifacts.go: `safeStoragePathPart`, `filesystemObjectPath`,
-- `storagePathSegment`, `synthesisStoragePath`, and the parts of Go's `path` that they call.
use second_brain.Prelude.{
  Bool, List, Option, Outcome, Text, [], codes, eqb, err, false, has_prefix, if◌then◌else◌, is_nil,
  is_slash, join, length, map, map_err, none, not, ok, some, split, trim, trim_by, true, ℕ, ◌&&◌,
  ◌++◌, ◌==◌, ◌>>=◌, ◌||◌, ◌∷◌, true,
}
use second_brain.Models.{SourceCandidate, SynthesisRecord}

pub data PathError : Type 0 where
  value_is_empty : PathError
  nested_bucket : PathError
  unsafe_segment : Text → PathError

pub data ObjectPathError : Type 0 where
  root_required : ObjectPathError
  invalid_bucket : PathError → ObjectPathError
  invalid_object : PathError → ObjectPathError
  absolute_failed : Text → ObjectPathError
  escapes_root : ObjectPathError

-- `part == "" || part == "." || part == ".."`.
unfoldable pub is_unsafe_part : Text → Bool
is_unsafe_part part = is_nil part || part == codes "." || part == codes ".."

-- The loop over the parts: the first one that is refused.
unfoldable pub find_unsafe : List Text → Option Text
unfolding is_unsafe_part
find_unsafe [] = none
find_unsafe (p ∷ ps) = let rest = find_unsafe ps in if is_unsafe_part p then some p else rest

-- `path.Clean` of a rooted path reads the parts between slashes: an empty one and `.` are
-- dropped, `..` drops the part before it, and stops at the root.
abbrev pub drop_last : List Text → List Text
drop_last [] = []
drop_last (p ∷ []) = []
drop_last (p ∷ q ∷ ps) = p ∷ drop_last (q ∷ ps)

unfoldable pub clean_step : List Text → Text → List Text
clean_step stack part =
    if is_nil part || part == codes "."
    then stack
    else if part == codes ".."
    then drop_last stack
    else stack ++ part ∷ []

unfoldable pub clean_parts : List Text → List Text → List Text
unfolding clean_step
clean_parts stack [] = stack
clean_parts stack (p ∷ ps) = clean_parts (clean_step stack p) ps

-- `pathpkg.Clean("/" + value)`.
unfoldable pub clean_rooted : Text → Text
unfolding clean_parts
clean_rooted value = b'/' ∷ join (clean_parts [] (split (b'/' ∷ value) b'/')) (b'/' ∷ [])

-- `strings.TrimPrefix(s, "/")`.
unfoldable pub trim_slash_prefix : Text → Text
trim_slash_prefix [] = []
trim_slash_prefix (c ∷ s) = if is_slash c then s else c ∷ s

-- `strings.Trim(strings.TrimSpace(value), "/")`.
unfoldable pub trim_path : Text → Text
trim_path value = trim_by is_slash (trim value)

unfoldable pub safe_storage_path_part : Text → Bool → Outcome PathError Text
unfolding find_unsafe clean_rooted trim_slash_prefix
safe_storage_path_part value allow_nested =
    let trimmed = trim_path value in
    let parts = split trimmed b'/' in
    if is_nil trimmed
    then err value_is_empty
    else if not allow_nested && not (eqb (length parts) 1)
    then err nested_bucket
    else elim (find_unsafe parts) [
      | some part ↦ err (unsafe_segment part)
      | none ↦ ok (trim_slash_prefix (clean_rooted trimmed))
    ]

-- `filepath.Join(root, bucket, object)` of a rooted root: the parts joined by slashes, cleaned.
unfoldable pub join_path : Text → Text → Text → Text
join_path root bucket object =
    clean_rooted (trim_slash_prefix root ++ b'/' ∷ (bucket ++ b'/' ∷ object))

-- The last guard: the path is the root, or lies behind the root and a separator.
unfoldable pub check_contained : Text → Text → Outcome ObjectPathError Text
check_contained root_abs full_path =
    if not (full_path == root_abs) && not (has_prefix full_path (root_abs ++ b'/' ∷ []))
    then err escapes_root
    else ok full_path

-- `filepath.Abs` reads the working directory: it is a parameter.
module _ (absolute : Text → Outcome Text Text) where
  unfoldable pub filesystem_object_path : Text → Text → Text → Outcome ObjectPathError Text
  filesystem_object_path root bucket object =
      let steps : Outcome ObjectPathError Text = do
        clean_bucket ← map_err invalid_bucket (safe_storage_path_part bucket false)
        clean_object ← map_err invalid_object (safe_storage_path_part object true)
        root_abs ← map_err absolute_failed (absolute (trim root))
        check_contained root_abs (join_path root_abs clean_bucket clean_object)
      in if is_nil (trim root) then err root_required else steps

-- `strings.ReplaceAll` of one code point by another.
unfoldable pub replace_all : ℕ → ℕ → Text → Text
replace_all old new s = map (λ c. if eqb c old then new else c) s

unfoldable pub storage_path_segment : Text → Text
unfolding replace_all
storage_path_segment value =
    let trimmed = trim value in
    if is_nil trimmed
    then codes "unknown"
    else replace_all b' ' b'-' (replace_all b'\\' b'_' (replace_all b'/' b'_' trimmed))

unfoldable pub synthesis_storage_path : SourceCandidate → Text → SynthesisRecord → Text
unfolding storage_path_segment
synthesis_storage_path candidate capture_hash record' =
    join
      (codes "artifacts"
        ∷ candidate.source_type
        ∷ candidate.external_id
        ∷ capture_hash
        ∷ storage_path_segment record'.prompt_version
        ∷ storage_path_segment record'.model
        ∷ codes "summary.json"
        ∷ [])
      (codes "/")
