-- ===== src/Digest/Freshness.antt =====
-- Which sources `newDigestSourceRefsFromLatest` refers to.
use second_brain.Prelude.{
  Option, none, map, eqb, ltb, Option-cases, ◌||◌, ◌++◌, Bool, Dict, List, Text, [], arith, codes,
  eq_iff, false, has_key, if◌then◌else◌, inl, inr, is_nil, lookup, lookup-insert, not, refl, some,
  trim, true, ◌&&◌, ◌<◌, ◌==◌, ◌∷◌, ◌≡◌, ◌≢◌,
}
use second_brain.Models.{DigestIssue, Insight, Summary, items, DigestSourceRef, Result, Time}
use second_brain.Digest.Refs.{
  of_summary, of_insight, Mention, add_ref, add_refs, digest_cutoff, digest_source_key, input_ref,
  is_fresh, mentions, ref_key, refs_by_key, seen_at,
}

abbrev mention_key : Mention → Text
mention_key m = digest_source_key m.source m.external_id

-- Some fresh mention has this key.
unfoldable any_fresh : Time → Time → Text → List Mention → Bool
any_fresh run_at cutoff k [] = false
any_fresh run_at cutoff k (m ∷ ms) =
    let rest = any_fresh run_at cutoff k ms in
    if is_fresh run_at cutoff m && mention_key m == k then true else rest

has_key-add_ref :
    (run_at cutoff : Time) (k : Text) (refs : Dict DigestSourceRef) (m : Mention)
    → has_key k (add_ref run_at cutoff refs m)
      ≡ (if is_fresh run_at cutoff m && mention_key m == k then true else has_key k refs)
unfolding add_ref
has_key-add_ref run_at cutoff k refs m =
    let key = mention_key m in
    ground (arith, eq_iff key k, lookup-insert key k (input_ref (seen_at run_at m) m) refs)

has_key-add_refs :
    (run_at cutoff : Time) (k : Text) (refs : Dict DigestSourceRef) (ms : List Mention)
    → has_key k (add_refs run_at cutoff refs ms)
      ≡ (if has_key k refs then true else any_fresh run_at cutoff k ms)
unfolding add_refs any_fresh
has_key-add_refs run_at cutoff k refs [] = ground arith
has_key-add_refs run_at cutoff k refs (m ∷ ms) = ground (
  arith,
  has_key-add_refs run_at cutoff k (add_ref run_at cutoff refs m) ms,
  has_key-add_ref run_at cutoff k refs m,
)

-- Some item has the property.
unfoldable pub some_item {ℓ} : {A : Type ℓ} → (A → Bool) → List A → Bool
some_item test [] = false
some_item test (x ∷ xs) = let rest = some_item test xs in if test x then true else rest

-- The time that an item gives, or else the time of the run.
unfoldable pub time_of : Time → Option Time → Time
time_of run_at none = run_at
time_of run_at (some t) = if eqb t 0 then run_at else t

-- The time that the last digest was scheduled for, zero if there is none.
unfoldable pub last_digest_at : Option DigestIssue → Time
last_digest_at none = 0
last_digest_at (some digest) = digest.scheduled_for

-- Of a source and an identifier that are not blank, with this key, and later than the last digest.
unfoldable pub is_new : Result → Text → Text → Text → Option Time → Bool
is_new latest k source id at =
    not (is_nil (trim source))
    && not (is_nil (trim id))
    && trim source ++ b':' ∷ trim id == k
    && (eqb (last_digest_at latest.digest) 0
        || ltb (last_digest_at latest.digest) (time_of latest.generated_at at))

cutoff-last_digest_at : (latest : Result) → digest_cutoff latest ≡ last_digest_at latest.digest
unfolding digest_cutoff last_digest_at
cutoff-last_digest_at latest = elim (Option-cases latest.digest) [
  | inl e ↦ ground arith
  | inr (d, e) ↦ ground arith
]

fresh-is_new :
    (latest : Result) (k : Text) (m : Mention)
    → (is_fresh latest.generated_at (digest_cutoff latest) m && mention_key m == k)
      ≡ is_new latest k m.source m.external_id m.generated_at
unfolding is_fresh seen_at digest_source_key is_new time_of
fresh-is_new latest k m =
    rw (cutoff-last_digest_at latest)
      (elim (Option-cases m.generated_at) [ inl e ↦ ground arith | inr (t, e) ↦ ground arith ])

any_fresh-append :
    (run_at cutoff : Time) (k : Text) (ms ns : List Mention)
    → any_fresh run_at cutoff k (ms ++ ns)
      ≡ (any_fresh run_at cutoff k ms || any_fresh run_at cutoff k ns)
unfolding any_fresh
any_fresh-append run_at cutoff k [] ns = refl
any_fresh-append run_at cutoff k (m ∷ ms) ns =
    ground (arith, any_fresh-append run_at cutoff k ms ns)

any_fresh-map {ℓ} :
    {A : Type ℓ} (mention : A → Mention) (latest : Result) (k : Text) (xs : List A)
    → any_fresh latest.generated_at (digest_cutoff latest) k (map mention xs)
      ≡ some_item
          (λ x. is_new latest k (mention x).source (mention x).external_id (mention x).generated_at)
          xs
unfolding any_fresh some_item
any_fresh-map mention latest k [] = refl
any_fresh-map mention latest k (x ∷ xs) =
    ground (arith, fresh-is_new latest k (mention x), any_fresh-map mention latest k xs)

-- A key has a reference exactly when the run has a summary, or an insight, of a source and an
-- identifier that are not blank and together the key, which is later than the last digest if that
-- has a time; what gives no time of its own is as late as the run.
pub has_key-refs_by_key :
    (latest : Result) (k : Text)
    → has_key k (refs_by_key latest) ≡ (
        some_item
          (λ (s : Summary). is_new latest k s.source s.id s.generated_at)
          (items latest.summaries)
        || some_item
            (λ (i : Insight). is_new latest k i.source i.source_id i.generated_at)
            (items latest.insights))
unfolding refs_by_key lookup mentions of_summary of_insight
has_key-refs_by_key latest k =
    let cutoff = digest_cutoff latest in
    let of_summaries = map of_summary (items latest.summaries) in
    let of_insights = map of_insight (items latest.insights) in
    rw
      (
        has_key-add_refs latest.generated_at cutoff k [] (mentions latest),
        any_fresh-append latest.generated_at cutoff k of_summaries of_insights,
        any_fresh-map of_summary latest k (items latest.summaries),
        any_fresh-map of_insight latest k (items latest.insights),
      )
      refl

-- A reference stands under its own key, names a source, and was seen after the cutoff.
pub record IsNewRef (cutoff : Time) (k : Text) (ref : DigestSourceRef) : Type 0 where
  pub keyed : ref_key ref ≡ k
  pub has_source : is_nil (trim ref.source) ≡ false
  pub has_id : is_nil (trim ref.external_id) ≡ false
  pub role : ref.digest_role ≡ codes "input"
  pub seen : (t : Time) × (ref.first_seen_at ≡ some t) × (cutoff ≢ 0 → cutoff < t)

AllNew : Time → Dict DigestSourceRef → Type 0
AllNew cutoff refs =
    (k : Text) (ref : DigestSourceRef) → lookup k refs ≡ some ref → IsNewRef cutoff k ref
