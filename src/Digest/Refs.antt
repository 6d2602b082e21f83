-- ===== src/Digest/Refs.antt =====
-- `digestSourceKey`, `newDigestSourceRefsFromLatest` and `digestSourceRefMap` of service.go.
use second_brain.Prelude.{
  Bool, Dict, List, Option, Text, [], codes, has_key, if◌then◌else◌, insert, is_nil, map, none, not,
  some, trim, values, ◌&&◌, ◌++◌, ◌==◌, ◌||◌, ◌∷◌,
}
use second_brain.Models.{
  DigestSourceRef, Insight, Result, Summary, Time, after, is_zero_time, items,
}

unfoldable pub digest_source_key : Text → Text → Text
digest_source_key source external_id = trim source ++ b':' ∷ trim external_id

-- What the closure `addRef` is called with.
pub record Mention : Type 0 where
  pub source : Text
  pub external_id : Text
  pub title : Text
  pub source_url : Text
  pub capture_hash : Text
  pub generated_at : Option Time

unfoldable pub of_summary : Summary → Mention
of_summary s = record {
  source = s.source;
  external_id = s.id;
  title = s.title;
  source_url = s.source_url;
  capture_hash = s.capture_hash;
  generated_at = s.generated_at;
}

unfoldable pub of_insight : Insight → Mention
of_insight i = record {
  source = i.source;
  external_id = i.source_id;
  title = i.title;
  source_url = i.source_url;
  capture_hash = [];
  generated_at = i.generated_at;
}

-- The time of the last digest, or the zero time.
unfoldable pub digest_cutoff : Result → Time
digest_cutoff latest = elim latest.digest [
  | none ↦ 0
  | some digest ↦ if not (is_zero_time digest.scheduled_for) then digest.scheduled_for else 0
]

unfoldable pub seen_at : Time → Mention → Time
seen_at run_at m = elim m.generated_at [
  | none ↦ run_at
  | some t ↦ if not (is_zero_time t) then t else run_at
]

unfoldable pub input_ref : Time → Mention → DigestSourceRef
input_ref at m = record {
  source_item_id = [];
  source_capture_id = [];
  knowledge_synthesis_id = [];
  source = m.source;
  external_id = m.external_id;
  source_url = m.source_url;
  title = m.title;
  capture_hash = m.capture_hash;
  first_seen_at = some at;
  captured_at = none;
  synthesized_at = some at;
  digest_role = codes "input";
}

-- A mention that `addRef` does not turn away: it names a source, and is newer than the cutoff.
unfoldable pub is_fresh : Time → Time → Mention → Bool
is_fresh run_at cutoff m =
    not (is_nil (trim m.source) || is_nil (trim m.external_id))
    && not (not (is_zero_time cutoff) && not (after (seen_at run_at m) cutoff))

-- The closure `addRef`: the first mention of a source is the one that stays.
unfoldable pub add_ref : Time → Time → Dict DigestSourceRef → Mention → Dict DigestSourceRef
add_ref run_at cutoff refs m =
    let key = digest_source_key m.source m.external_id in
    if not (is_fresh run_at cutoff m)
    then refs
    else if has_key key refs
    then refs
    else insert key (input_ref (seen_at run_at m) m) refs

unfoldable pub add_refs : Time → Time → Dict DigestSourceRef → List Mention → Dict DigestSourceRef
add_refs run_at cutoff refs [] = refs
add_refs run_at cutoff refs (m ∷ ms) = add_refs run_at cutoff (add_ref run_at cutoff refs m) ms

unfoldable pub mentions : Result → List Mention
mentions latest = map of_summary (items latest.summaries) ++ map of_insight (items latest.insights)

unfoldable pub refs_by_key : Result → Dict DigestSourceRef
refs_by_key latest = add_refs latest.generated_at (digest_cutoff latest) [] (mentions latest)

-- The values of the map; Go promises no order among them.
unfoldable pub new_digest_source_refs_from_latest : Option Result → List DigestSourceRef
new_digest_source_refs_from_latest none = []
new_digest_source_refs_from_latest (some latest) = values (refs_by_key latest)

abbrev pub ref_key : DigestSourceRef → Text
ref_key ref = digest_source_key ref.source ref.external_id

-- A later reference with the same key takes the place of an earlier one.
unfoldable pub digest_source_ref_map_from :
    Dict DigestSourceRef → List DigestSourceRef → Dict DigestSourceRef
digest_source_ref_map_from allowed [] = allowed
digest_source_ref_map_from allowed (ref ∷ refs) =
    digest_source_ref_map_from
      (if not (ref_key ref == codes ":") then insert (ref_key ref) ref allowed else allowed) refs

unfoldable pub digest_source_ref_map : List DigestSourceRef → Dict DigestSourceRef
digest_source_ref_map refs = digest_source_ref_map_from [] refs
