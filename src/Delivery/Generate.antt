-- ===== src/Delivery/Generate.antt =====
-- `GenerateDigest` of service.go. The store, the composition of the digest and the functions of
-- learning.go are parameters.
use second_brain.Prelude.{
  Bool, List, Option, Outcome, Text, [], codes, err, false, if◌then◌else◌, is_nil, length, ltb,
  none, not, ok, some, trim, ◌&&◌, ◌++◌, ◌==◌, ◌>>=◌, ◌||◌, ◌∷◌,
}
use mathlib.Core.Option
use second_brain.Models.{
  Config, DigestIssue, DigestSourceRef, Insight, InsightCluster, Result, Slice, Summary, Time,
  items,
}
use second_brain.Digest.Inputs.{
  DigestInputs, InputsError, digest_inputs_for_latest, no_new_digest_sources, store_failed,
}
use second_brain.Delivery.Send.{Mailer, deliver_digest}

-- What of the store a digest needs; `W` is its state.
pub record DigestStore (W : Type 0) : Type 0 where
  pub read_latest : W → W × Outcome Text (Option Result)
  pub save_digest : DigestIssue → W → W × Outcome Text (Option DigestIssue)

-- The functions that a generation calls: case folding, the clusters and the ranks of learning.go,
-- and the address of an illustration. The publication behind a generation is left out.
pub record Tools : Type 0 where
  pub equal_fold : Text → Text → Bool
  pub cluster_insights : Slice Insight → Slice InsightCluster
  pub rank_insights : Slice Insight → Slice InsightCluster → Slice Insight
  pub illustration_url : Text → Text

-- What is answered in one generation: the time, the date of the digest at it, the references of
-- the store, the composed digest, and a random identifier.
pub record Answers : Type 0 where
  pub now : Time
  pub date : Text
  pub refs : Result → Outcome Text (List DigestSourceRef)
  pub compose : DigestInputs → Outcome Text DigestIssue
  pub new_id : Outcome Text Text

unfoldable pub normalize_result_insight_engine : Tools → Result → Result
normalize_result_insight_engine tools result =
    let clusters =
      if is_nil (items result.insight_clusters) && not (is_nil (items result.insights))
      then tools.cluster_insights result.insights
      else result.insight_clusters in
    record result {
      insight_clusters = clusters;
      insights = tools.rank_insights result.insights clusters;
    }

unfoldable pub annotate_digest_illustration : Tools → DigestIssue → DigestIssue
annotate_digest_illustration tools digest =
    let has_illustration =
      digest.illustration_available
      || not (is_nil (trim digest.illustration_base64))
      || not (is_nil (trim digest.illustration_mime_type))
      || not (is_nil (trim digest.illustration_alt)) in
    if not (is_nil (trim digest.id)) && has_illustration
    then record digest { illustration_url = tools.illustration_url digest.id }
    else digest

-- `readLatestCanonical` after the store has answered.
unfoldable pub canonical : Tools → Result → Result
unfolding normalize_result_insight_engine annotate_digest_illustration
canonical tools latest = record (normalize_result_insight_engine tools latest) {
  digest = Option.map (annotate_digest_illustration tools) latest.digest;
}

unfoldable pub is_sent_digest_for_date : Tools → Option DigestIssue → Text → Bool
is_sent_digest_for_date tools none date = false
is_sent_digest_for_date tools (some digest) date =
    digest.digest_date == date
    && tools.equal_fold (trim digest.status) (codes "sent")
    && not (is_nil (trim digest.body_markdown))

unfoldable pub has_digest_inputs : List Summary → List Insight → Bool
has_digest_inputs summaries insights = ltb 0 (length summaries) || ltb 0 (length insights)

-- Everything of the latest run, for a digest without new sources.
unfoldable pub continuity_inputs : Result → DigestInputs
continuity_inputs latest = record {
  source_refs = [];
  summaries = items latest.summaries;
  insights = items latest.insights;
  themes = items latest.themes;
  insight_clusters = items latest.insight_clusters;
  connections = items latest.connections;
}

abbrev pub no_new_sources : Text
no_new_sources = codes "no new source-grounded digest inputs since last digest"

abbrev pub or_continuity : Result → Outcome InputsError DigestInputs → Outcome Text DigestInputs
or_continuity latest (err (store_failed e)) = err e
or_continuity latest (err no_new_digest_sources) = ok (continuity_inputs latest)
or_continuity latest (ok inputs) = ok inputs

unfoldable pub ensure_digest_id : Outcome Text Text → DigestIssue → Outcome Text DigestIssue
ensure_digest_id new_id digest =
    let named = new_id >>= λ id. ok (record digest { id = id }) in
    if is_nil (trim digest.id) then named else ok digest

-- The digest before it is delivered.
unfoldable pub draft_digest : Tools → Config → Answers → Result → Outcome Text DigestIssue
unfolding has_digest_inputs continuity_inputs ensure_digest_id annotate_digest_illustration
draft_digest tools cfg a latest =
    let drafted =
      or_continuity latest (digest_inputs_for_latest (a.refs latest) latest) >>= λ inputs.
      let composed = a.compose inputs >>= λ digest.
      ensure_digest_id a.new_id
        (record digest { owner_id = cfg.owner_id; source_refs = inputs.source_refs })
      >>= λ named. ok (annotate_digest_illustration tools named) in
      if has_digest_inputs inputs.summaries inputs.insights then composed else err no_new_sources in
    if has_digest_inputs (items latest.summaries) (items latest.insights)
    then drafted
    else err (codes "no source-grounded digest inputs are available")

-- The delivery is appended, and the first delivery gives the status.
abbrev pub first_status : DigestIssue → DigestIssue
first_status digest = elim digest.deliveries [
  | [] ↦ digest
  | delivery ∷ deliveries ↦ record digest { status = delivery.status }
]

module _ {W : Type 0} (store : DigestStore W) (tools : Tools) (mailer : Mailer) (cfg : Config) where
  -- What is returned, and the idempotency keys of the mails.
  abbrev pub Generated : Type 0
  Generated = W × Outcome Text (Option DigestIssue) × List Text

  unfoldable pub send_digest : Answers → DigestIssue → W → Generated
  unfolding deliver_digest
  send_digest a digest w =
      let (delivery, mails) = deliver_digest mailer cfg a.now digest in
      let delivered =
        first_status (record digest { deliveries = digest.deliveries ++ delivery ∷ [] }) in
      let (w', saved) = store.save_digest delivered w in (w', saved, mails)

  -- What follows the draft.
  unfoldable pub send_drafted : Answers → W → Outcome Text DigestIssue → Generated
  unfolding send_digest
  send_drafted a w (err e) = (w, err e, [])
  send_drafted a w (ok digest) = send_digest a digest w

  -- What follows the read.
  unfoldable pub generate_from : Answers → W → Outcome Text (Option Result) → Generated
  unfolding send_drafted draft_digest is_sent_digest_for_date canonical
  generate_from a w (err e) = (w, err e, [])
  generate_from a w (ok none) =
      (w, err (codes "no knowledge run is available for digest generation"), [])
  generate_from a w (ok (some read)) =
      let latest = canonical tools read in
      if is_sent_digest_for_date tools latest.digest a.date
      then (w, ok latest.digest, [])
      else send_drafted a w (draft_digest tools cfg a latest)

  unfoldable pub generate_digest : Answers → W → Generated
  unfolding generate_from
  generate_digest a w = let (w', read) = store.read_latest w in generate_from a w' read
