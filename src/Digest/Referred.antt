-- ===== src/Digest/Referred.antt =====
-- What each filter of a digest's inputs lets through.
use second_brain.Prelude.{
  ==_refl, Dict, List, Text, Within, [], arith, at_head, codes, contains, eq_iff, false, has_key,
  if◌then◌else◌, in_tail, insert, is_nil, lookup, lookup-insert, map, not, refl, trim, true, ◌&&◌,
  ◌==◌, ◌∷◌, ◌≡◌, Bool, All, keep, Bool-cases, inl, ◌≢◌, inr,
}
use second_brain.Models.{DigestSourceRef, ThemeCluster, InsightCluster, Insight}
use second_brain.Digest.Refs.{digest_source_ref_map, digest_source_ref_map_from, ref_key}
use second_brain.Digest.Inputs.{
  filter_used_refs, filter_digest_insight_clusters, filter_digest_themes, digest_insight_id_set,
  with_role,
}

-- The keys of some references.
abbrev pub keys_of : List DigestSourceRef → List Text
keys_of = map ref_key

has_key-ref_map_from :
    (k : Text) (allowed : Dict DigestSourceRef) (refs : List DigestSourceRef)
    → has_key k (digest_source_ref_map_from allowed refs)
      ≡ (if has_key k allowed then true else not (k == codes ":") && contains k (keys_of refs))
unfolding digest_source_ref_map_from contains
has_key-ref_map_from k allowed [] = ground arith
has_key-ref_map_from k allowed (ref ∷ refs) =
    let j = ref_key ref in
    ground (
      arith,
      eq_iff j k,
      eq_iff j (codes ":"),
      eq_iff k (codes ":"),
      lookup-insert j k ref allowed,
      has_key-ref_map_from k (insert j ref allowed) refs,
      has_key-ref_map_from k allowed refs,
    )

-- A key is allowed exactly when a reference has it, and it is not `:`.
pub has_key-ref_map :
    (k : Text) (refs : List DigestSourceRef)
    → has_key k (digest_source_ref_map refs) ≡ (not (k == codes ":") && contains k (keys_of refs))
unfolding digest_source_ref_map lookup
has_key-ref_map k refs = has_key-ref_map_from k [] refs

contains-filter_used_refs :
    (k : Text) (used : List Text) (refs : List DigestSourceRef)
    → contains k (keys_of (filter_used_refs used refs))
      ≡ (contains k (keys_of refs) && contains k used)
unfolding filter_used_refs contains
contains-filter_used_refs k used [] = refl
contains-filter_used_refs k used (ref ∷ refs) =
    ground (arith, eq_iff (ref_key ref) k, contains-filter_used_refs k used refs)

pub contains-map {ℓ} :
    {A : Type ℓ} (f : A → Text) {a : A} (xs : List A)
    → Within a xs
    → contains (f a) (map f xs) ≡ true
unfolding contains
contains-map f [] h = elim h [ ]
contains-map f (x ∷ xs) (at_head e) = rw (e, ==_refl) refl
contains-map f {a} (x ∷ xs) (in_tail h) = ground (arith, contains-map f xs h)

-- A reference that is used by what is selected, with a role.
abbrev pub IsUsed : List Text → DigestSourceRef → Type 0
IsUsed used ref = (contains (ref_key ref) used ≡ true) × (is_nil (trim ref.digest_role) ≡ false)

input_not_blank : is_nil (trim (codes "input")) ≡ false
unfolding trim codes
input_not_blank = refl

with_role-IsUsed :
    (used : List Text) (ref : DigestSourceRef)
    → contains (ref_key ref) used ≡ true
    → IsUsed used (with_role ref)
with_role-IsUsed used ref h = (h, ground (arith, input_not_blank))

pub filter_used_refs-IsUsed :
    (used : List Text) (refs : List DigestSourceRef)
    → All (IsUsed used) (filter_used_refs used refs)
unfolding filter_used_refs
filter_used_refs-IsUsed used [] = tt
filter_used_refs-IsUsed used (ref ∷ refs) = elim (Bool-cases (contains (ref_key ref) used)) [
  | inl e ↦ rw e (with_role-IsUsed used ref e, filter_used_refs-IsUsed used refs)
  | inr e ↦ rw e (filter_used_refs-IsUsed used refs)
]

contains-map-keep {ℓ} :
    {A : Type ℓ} (f : A → Text) (p : A → Bool) (k : Text) (xs : List A)
    → contains k (map f (keep p xs)) ≡ true
    → contains k (map f xs) ≡ true
unfolding contains
contains-map-keep f p k [] h = h
contains-map-keep f p k (x ∷ xs) h = ground (arith, contains-map-keep f p k xs)

pub allowed_contains :
    (k : Text) (refs : List DigestSourceRef)
    → has_key k (digest_source_ref_map refs) ≡ true
    → contains k (keys_of refs) ≡ true
allowed_contains k refs h = ground (arith, has_key-ref_map k refs)

-- An item that was selected by its key, and counts as used, has a reference among those left.
pub referred :
    (k : Text) (used : List Text) (refs : List DigestSourceRef)
    → has_key k (digest_source_ref_map refs) ≡ true
    → contains k used ≡ true
    → contains k (keys_of (filter_used_refs used refs)) ≡ true
referred k used refs h u =
    ground (arith, allowed_contains k refs h, contains-filter_used_refs k used refs)

All-keep_test {ℓ} :
    {A : Type ℓ} (p : A → Bool) (q : A → Bool) (xs : List A)
    → ((x : A) → p x ≡ true → q x ≡ true)
    → All (λ x. q x ≡ true) (keep p xs)
All-keep_test p q [] h = tt
All-keep_test p q (x ∷ xs) h = elim (Bool-cases (p x)) [
  | inl e ↦ rw e (h x e, All-keep_test p q xs h)
  | inr e ↦ rw e (All-keep_test p q xs h)
]

pub themes_referred :
    (themes : List ThemeCluster) (refs : List DigestSourceRef)
    → All
        (λ t. (t.sources ≢ []) × All (λ x. contains x (keys_of refs) ≡ true) t.sources)
        (filter_digest_themes themes (digest_source_ref_map refs))
unfolding filter_digest_themes
themes_referred [] refs = tt
themes_referred (t ∷ ts) refs =
    let kept = keep (λ x. has_key x (digest_source_ref_map refs)) t.sources in
    elim (Bool-cases (is_nil kept)) [
      | inl e ↦ rw e (themes_referred ts refs)
      | inr e ↦ rw e (
        (
          λ n. ground arith,
          All-keep_test _ (λ x. contains x (keys_of refs)) t.sources
              (λ x h. allowed_contains x refs h),
        ),
        themes_referred ts refs,
      )
    ]

pub clusters_referred :
    (clusters : List InsightCluster) (insights : List Insight)
    → All
        (λ c.
          (c.insight_ids ≢ [])
          × All (λ x. contains x (map (λ i. i.id) insights) ≡ true) c.insight_ids
          × All (λ x. contains x (map (λ i. i.id) insights) ≡ true) c.representative_insight_ids)
        (filter_digest_insight_clusters clusters (digest_insight_id_set insights))
unfolding filter_digest_insight_clusters digest_insight_id_set
clusters_referred [] insights = tt
clusters_referred (c ∷ cs) insights =
    let ids = map (λ i. i.id) (keep (λ i. not (is_nil (trim i.id))) insights) in
    let kept = keep (λ x. contains x ids) c.insight_ids in
    elim (Bool-cases (is_nil kept)) [
      | inl e ↦ rw e (clusters_referred cs insights)
      | inr e ↦ rw e (
        (
          λ n. ground arith,
          All-keep_test _ (λ x. contains x (map (λ i. i.id) insights)) c.insight_ids
              (λ x h. contains-map-keep (λ i. i.id) _ x insights h),
          All-keep_test _ (λ x. contains x (map (λ i. i.id) insights)) c.representative_insight_ids
              (λ x h. contains-map-keep (λ i. i.id) _ x insights h),
        ),
        clusters_referred cs insights,
      )
    ]
