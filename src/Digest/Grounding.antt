-- ===== src/Digest/Grounding.antt =====
-- What the selected inputs of a digest have to do with its source references.
use second_brain.Prelude.{
  All, List, Outcome, Text, Within, Within-keep, [], arith, contains, contains-append, err, map, ok,
  subst, true, ◌≡◌, ◌≢◌,
}
use second_brain.Models.{DigestSourceRef, Insight, Result, SourceConnection, Summary, items}
use second_brain.Digest.Refs.{digest_source_ref_map}
use second_brain.Digest.Inputs.{
  DigestInputs, digest_inputs_for_latest, filter_digest_connections, filter_digest_insights,
  filter_digest_source_refs_for_inputs, filter_digest_summaries, filter_used_refs, insight_key,
  select_inputs, summary_key, used_keys,
}
use second_brain.Digest.Referred.{
  IsUsed, allowed_contains, contains-map, filter_used_refs-IsUsed, keys_of, referred,
  themes_referred, clusters_referred,
}

-- What a digest may be composed of: everything belongs to a reference, and every reference is used.
pub record IsGrounded (latest : Result) (d : DigestInputs) : Type 0 where
  pub some_ref : d.source_refs ≢ []
  pub refs_used : All (IsUsed (used_keys d.summaries d.insights)) d.source_refs
  pub summaries_referred :
      (s : Summary)
      → Within s d.summaries
      → Within s (items latest.summaries)
        × (contains (summary_key s) (keys_of d.source_refs) ≡ true)
  pub insights_referred :
      (i : Insight)
      → Within i d.insights
      → Within i (items latest.insights) × (contains (insight_key i) (keys_of d.source_refs) ≡ true)
  pub connections_referred :
      (c : SourceConnection)
      → Within c d.connections
      → Within c (items latest.connections)
        × (contains c.left_source_id (keys_of d.source_refs) ≡ true)
        × (contains c.right_source_id (keys_of d.source_refs) ≡ true)
  pub themes_referred :
      All
        (λ t. (t.sources ≢ []) × All (λ x. contains x (keys_of d.source_refs) ≡ true) t.sources)
        d.themes
  pub clusters_referred :
      All
        (λ c.
          (c.insight_ids ≢ [])
          × All (λ x. contains x (map (λ i. i.id) d.insights) ≡ true) c.insight_ids
          × All (λ x. contains x (map (λ i. i.id) d.insights) ≡ true) c.representative_insight_ids)
        d.insight_clusters

select_inputs-IsGrounded :
    (latest : Result) (refs : List DigestSourceRef)
    → let allowed = digest_source_ref_map refs in
      let summaries = filter_digest_summaries (items latest.summaries) allowed in
      let insights = filter_digest_insights (items latest.insights) allowed in
      let left = filter_digest_source_refs_for_inputs refs summaries insights in
      left ≢ [] → IsGrounded latest (select_inputs latest left summaries insights)
unfolding select_inputs filter_digest_source_refs_for_inputs used_keys filter_digest_summaries
    filter_digest_insights filter_digest_connections
select_inputs-IsGrounded latest refs n =
    let allowed = digest_source_ref_map refs in
    let summaries = filter_digest_summaries (items latest.summaries) allowed in
    let insights = filter_digest_insights (items latest.insights) allowed in
    let used = used_keys summaries insights in
    let left = filter_used_refs used refs in
    record {
      some_ref = n;
      refs_used = filter_used_refs-IsUsed used refs;
      summaries_referred = λ s w.
          let (there, ok_key) = Within-keep _ (items latest.summaries) w in
          (
            there,
            referred (summary_key s) used refs ok_key (
                ground (
                  arith,
                  contains-map summary_key summaries w,
                  contains-append (summary_key s) (map summary_key summaries)
                      (map insight_key insights),
                )),
          );
      insights_referred = λ x w.
          let (there, ok_key) = Within-keep _ (items latest.insights) w in
          (
            there,
            referred (insight_key x) used refs ok_key (
                ground (
                  arith,
                  contains-map insight_key insights w,
                  contains-append (insight_key x) (map summary_key summaries)
                      (map insight_key insights),
                )),
          );
      connections_referred = λ c w.
          let (there, both) = Within-keep _ (items latest.connections) w in
          (
            there,
            allowed_contains c.left_source_id left (ground arith),
            allowed_contains c.right_source_id left (ground arith),
          );
      themes_referred = themes_referred (items latest.themes) left;
      clusters_referred = clusters_referred (items latest.insight_clusters) insights;
    }

-- Whatever references the store returned, selected inputs are grounded: there is a reference,
-- each reference is used by a selected summary or insight and has a role, each summary, insight
-- and connection is from the run and has its references, each theme names a source and only
-- sources that are referred to, and each cluster names an insight and, among its insights and
-- its representatives, only selected ones.
pub digest_inputs_for_latest-IsGrounded :
    (refs : Outcome Text (List DigestSourceRef)) (latest : Result) (d : DigestInputs)
    → digest_inputs_for_latest refs latest ≡ ok d
    → IsGrounded latest d
unfolding digest_inputs_for_latest
digest_inputs_for_latest-IsGrounded (err e) latest d h = absurd (ground arith)
digest_inputs_for_latest-IsGrounded (ok refs) latest d h =
    let allowed = digest_source_ref_map refs in
    let summaries = filter_digest_summaries (items latest.summaries) allowed in
    let insights = filter_digest_insights (items latest.insights) allowed in
    let left = filter_digest_source_refs_for_inputs refs summaries insights in
    let same : select_inputs latest left summaries insights ≡ d = ground arith in
    subst (IsGrounded latest) same (select_inputs-IsGrounded latest refs (λ n. ground arith))
