-- ===== src/Digest/Inputs.antt =====
-- `digestInputsForLatest` of service.go, and the filters that it applies.
use second_brain.Prelude.{
  Dict, List, Outcome, Text, [], codes, contains, err, has_key, if◌then◌else◌, is_nil, keep, map,
  not, ok, trim, ◌&&◌, ◌++◌, ◌∷◌,
}
use second_brain.Models.{
  DigestSourceRef, Insight, InsightCluster, Result, SourceConnection, Summary, ThemeCluster, items,
}
use second_brain.Digest.Refs.{digest_source_key, digest_source_ref_map, ref_key}

abbrev pub Allowed : Type 0
Allowed = Dict DigestSourceRef

abbrev pub summary_key : Summary → Text
summary_key s = digest_source_key s.source s.id

abbrev pub insight_key : Insight → Text
insight_key i = digest_source_key i.source i.source_id

unfoldable pub filter_digest_summaries : List Summary → Allowed → List Summary
filter_digest_summaries summaries allowed = keep (λ s. has_key (summary_key s) allowed) summaries

unfoldable pub filter_digest_insights : List Insight → Allowed → List Insight
filter_digest_insights insights allowed = keep (λ i. has_key (insight_key i) allowed) insights

-- The keys of the map `used`.
unfoldable pub used_keys : List Summary → List Insight → List Text
used_keys summaries insights = map summary_key summaries ++ map insight_key insights

abbrev pub with_role : DigestSourceRef → DigestSourceRef
with_role ref = record ref {
  digest_role = if is_nil (trim ref.digest_role) then codes "input" else ref.digest_role;
}

unfoldable pub filter_used_refs : List Text → List DigestSourceRef → List DigestSourceRef
filter_used_refs used [] = []
filter_used_refs used (ref ∷ refs) =
    let rest = filter_used_refs used refs in
    if contains (ref_key ref) used then with_role ref ∷ rest else rest

unfoldable pub filter_digest_source_refs_for_inputs :
    List DigestSourceRef → List Summary → List Insight → List DigestSourceRef
filter_digest_source_refs_for_inputs refs summaries insights =
    filter_used_refs (used_keys summaries insights) refs

-- A theme keeps its allowed sources, and goes if none is left. The sources are compared as they
-- stand, while the keys of `allowed` are trimmed.
unfoldable pub filter_digest_themes : List ThemeCluster → Allowed → List ThemeCluster
filter_digest_themes [] allowed = []
filter_digest_themes (theme ∷ themes) allowed =
    let rest = filter_digest_themes themes allowed in
    let kept = keep (λ source. has_key source allowed) theme.sources in
    if is_nil kept then rest else record theme { sources = kept } ∷ rest

unfoldable pub filter_digest_insight_clusters :
    List InsightCluster → List Text → List InsightCluster
filter_digest_insight_clusters [] ids = []
filter_digest_insight_clusters (cluster ∷ clusters) ids =
    let rest = filter_digest_insight_clusters clusters ids in
    let kept = keep (λ id. contains id ids) cluster.insight_ids in
    if is_nil kept
    then rest
    else record cluster {
      insight_ids = kept;
      representative_insight_ids = keep (λ id. contains id ids) cluster.representative_insight_ids;
    }
      ∷ rest

unfoldable pub filter_digest_connections : List SourceConnection → Allowed → List SourceConnection
filter_digest_connections connections allowed =
    keep (λ c. has_key c.left_source_id allowed && has_key c.right_source_id allowed) connections

unfoldable pub digest_insight_id_set : List Insight → List Text
digest_insight_id_set insights = map (λ i. i.id) (keep (λ i. not (is_nil (trim i.id))) insights)

pub record DigestInputs : Type 0 where
  pub source_refs : List DigestSourceRef
  pub summaries : List Summary
  pub insights : List Insight
  pub themes : List ThemeCluster
  pub insight_clusters : List InsightCluster
  pub connections : List SourceConnection

pub data InputsError : Type 0 where
  store_failed : Text → InputsError
  no_new_digest_sources : InputsError

-- What is selected for the references that are left.
unfoldable pub select_inputs :
    Result → List DigestSourceRef → List Summary → List Insight → DigestInputs
select_inputs latest refs summaries insights = record {
  source_refs = refs;
  summaries = summaries;
  insights = insights;
  themes = filter_digest_themes (items latest.themes) (digest_source_ref_map refs);
  insight_clusters =
      filter_digest_insight_clusters (items latest.insight_clusters)
        (digest_insight_id_set insights);
  connections = filter_digest_connections (items latest.connections) (digest_source_ref_map refs);
}

-- `refs` is what `readNewDigestSourceRefs` returned.
unfoldable pub digest_inputs_for_latest :
    Outcome Text (List DigestSourceRef) → Result → Outcome InputsError DigestInputs
digest_inputs_for_latest (err e) latest = err (store_failed e)
digest_inputs_for_latest (ok refs) latest =
    let allowed = digest_source_ref_map refs in
    let summaries = filter_digest_summaries (items latest.summaries) allowed in
    let insights = filter_digest_insights (items latest.insights) allowed in
    let left = filter_digest_source_refs_for_inputs refs summaries insights in
    if is_nil refs
    then err no_new_digest_sources
    else if is_nil left
    then err no_new_digest_sources
    else ok (select_inputs latest left summaries insights)
