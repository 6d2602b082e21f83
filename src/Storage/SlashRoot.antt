-- ===== src/Storage/SlashRoot.antt =====
-- `filesystemObjectPath` when the storage root is the root of the file system.
use second_brain.Prelude.{
  All, All-append, Bool-cases, List, Outcome, Outcome-cases, Text, [], ap, arith, eq_iff, eqb, err,
  false, has_prefix, inl, inr, join-split, ok, refl, split, split-append, split-split, subst, trim,
  true, ℕ, ◌++◌, ◌∷◌, ◌≡◌, ◌≢◌,
}
use second_brain.Storage.ObjectPath.{
  check_contained, clean_rooted, escapes_root, filesystem_object_path, is_unsafe_part, join_path,
  safe_storage_path_part, trim_slash_prefix,
}
use second_brain.Storage.Containment.{
  IsSafe, clean_parts-IsSafe, clean_parts-nil, safe_storage_path_part_sound,
}

unsafe_nil : (ps : List Text) → All IsSafe ([] ∷ ps) → ⊥
unfolding is_unsafe_part
unsafe_nil ps (h, s) = cc

first_code :
    (b : Text)
    → b ≢ []
    → All IsSafe (split b b'/')
    → (rest : Text) → has_prefix (b ++ rest) (b'/' ∷ []) ≡ false
unfolding has_prefix
first_code [] n s rest = absurd (n refl)
first_code (c ∷ b) n s rest = elim (Bool-cases (eqb c b'/')) [
  | inl e ↦
      let same : c ≡ b'/' = ground arith in
      let bad = subst (λ (d : ℕ). All IsSafe (split (d ∷ b) b'/')) same s in
      absurd (unsafe_nil (split b b'/') (rw (split-append b'/' [] b tt) at bad))
  | inr e ↦ ground arith
]

clean_rooted-slash : (v : Text) → All IsSafe (split v b'/') → clean_rooted (b'/' ∷ v) ≡ b'/' ∷ v
unfolding clean_rooted
clean_rooted-slash v h =
    rw
      (
        split-append b'/' [] (b'/' ∷ v) tt,
        clean_parts-nil,
        split-append b'/' [] v tt,
        clean_parts-nil [] (split v b'/'),
        clean_parts-IsSafe [] _ h,
      )
      (ap (λ r. b'/' ∷ r) (join-split v b'/'))

refused :
    (v : Text)
    → has_prefix v (b'/' ∷ []) ≡ false
    → (b'/' ∷ v) ≢ b'/' ∷ []
    → check_contained (b'/' ∷ []) (b'/' ∷ v) ≡ err escapes_root
unfolding check_contained has_prefix
refused v h n = ground (arith, eq_iff (b'/' ∷ v) (b'/' ∷ []))

slash_refused :
    (b o : Text)
    → b ≢ []
    → All IsSafe (split b b'/')
    → All IsSafe (split o b'/')
    → check_contained (b'/' ∷ []) (join_path (b'/' ∷ []) b o) ≡ err escapes_root
unfolding join_path trim_slash_prefix
slash_refused b o n sb so =
    let rest = b'/' ∷ o in
    let safe : All IsSafe (split (b ++ rest) b'/') =
      rw (split-split b'/' b o) (All-append IsSafe (split b b'/') _ sb so) in
    rw (clean_rooted-slash (b ++ rest) safe)
      (refused (b ++ rest) (first_code b n sb rest) (λ e. n (ground arith)))

-- If the storage root is made absolute to `/`, no bucket and object have a path.
pub filesystem_object_path-slash :
    (absolute : Text → Outcome Text Text) (root bucket object p : Text)
    → absolute (trim root) ≡ ok (b'/' ∷ [])
    → filesystem_object_path absolute root bucket object ≢ ok p
unfolding filesystem_object_path
filesystem_object_path-slash absolute root bucket object p found h =
    elim (Outcome-cases (safe_storage_path_part bucket false)) [
      | inr (x, hb) ↦ ground arith
      | inl (b, hb) ↦ elim (Outcome-cases (safe_storage_path_part object true)) [
        | inr (x, ho) ↦ ground arith
        | inl (o, ho) ↦
            let (_, n, sb, _) = safe_storage_path_part_sound bucket false b hb in
            let (_, _, so, _) = safe_storage_path_part_sound object true o ho in
            ground (arith, slash_refused b o n sb so)
      ]
    ]
