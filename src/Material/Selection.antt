-- ===== src/Material/Selection.antt =====
-- refresh_material.go, but for the merges: which fetched sources are new, and what a previous
-- result contributes. A `map[string]bool` of excluded identities is the list of its keys.
use second_brain.Prelude.{
  Bool, Dict, List, Text, [], codes, contains, false, if◌then◌else◌, is_nil, keep, length, lookup,
  map, none, not, some, trim, ℕ, ◌&&◌, ◌++◌, ◌==◌, ◌||◌, ◌∷◌,
}
use second_brain.Models.{
  ActionItem, Insight, ProcessedSource, SourceCandidate, SourceMaterialKey, SourceMaterialState,
  SourceType, Summary, XBookmark, YouTubeItem, source_type_x, source_type_youtube,
}
use second_brain.Storage.Upload.{Host, capture_hash}
use second_brain.Material.Keys.{
  key_text, source_material_identity, source_material_key_for_candidate,
}

abbrev pub States : Type 0
States = Dict SourceMaterialState

-- The candidate was processed, and not with another content.
unfoldable pub is_processed : Host → Text → Text → States → SourceCandidate → Bool
is_processed host prompt_version model states c =
    elim (lookup (key_text (source_material_key_for_candidate c prompt_version model)) states) [
      | none ↦ false
      | some state ↦
          state.processed
          && (is_nil state.latest_capture_hash || state.latest_capture_hash == capture_hash host c)
    ]

-- New candidates and skipped ones; `prompt_version` is `synthesisPromptVersion`.
unfoldable pub filter_new_source_candidates :
    Host → Text → List SourceCandidate → States → Text → List SourceCandidate × List SourceCandidate
filter_new_source_candidates host prompt_version [] states model = ([], [])
filter_new_source_candidates host prompt_version (c ∷ cs) states model =
    let (new, skipped) = filter_new_source_candidates host prompt_version cs states model in
    if is_processed host prompt_version model states c
    then (new, c ∷ skipped)
    else (c ∷ new, skipped)

abbrev pub fetched_key : SourceType → Text → Text → Text → SourceMaterialKey
fetched_key source_type prompt_version model id = record {
  source_type = source_type;
  external_id = id;
  prompt_version = prompt_version;
  model = model;
}

-- The closure `add`, over the keys in their order.
unfoldable pub add_keys : List Text → List SourceMaterialKey → List SourceMaterialKey
add_keys seen [] = []
add_keys seen (k ∷ ks) =
    let skipped = add_keys seen ks in
    let added = add_keys (key_text k ∷ seen) ks in
    if is_nil (trim k.external_id) || contains (key_text k) seen then skipped else k ∷ added

unfoldable pub source_material_keys_from_fetched :
    List XBookmark → List YouTubeItem → Text → Text → List SourceMaterialKey
source_material_keys_from_fetched bookmarks videos prompt_version model = add_keys [] (
    map (λ b. fetched_key source_type_x prompt_version model b.id) bookmarks
    ++ map (λ v. fetched_key source_type_youtube prompt_version model v.video_id) videos)

unfoldable pub processed_source_ids : List ProcessedSource → List Text
processed_source_ids = map (λ s. source_material_identity s.source_type s.external_id)

unfoldable pub content_type_for_summary : SourceType → Text
content_type_for_summary source_type =
    if source_type == source_type_x
    then codes "post"
    else if source_type == source_type_youtube
    then codes "video"
    else codes "document"

abbrev pub summary_identity : Summary → Text
summary_identity s = source_material_identity s.source s.id

abbrev pub insight_identity : Insight → Text
insight_identity i = source_material_identity i.source i.source_id

abbrev pub action_identity : ActionItem → Text
action_identity a = source_material_identity a.source a.source_id

unfoldable pub summaries_excluding : List Summary → List Text → List Summary
summaries_excluding summaries [] = summaries
summaries_excluding summaries (e ∷ exclude) =
    keep (λ s. not (contains (summary_identity s) (e ∷ exclude))) summaries

unfoldable pub insights_excluding : List Insight → List Text → List Insight
insights_excluding insights [] = insights
insights_excluding insights (e ∷ exclude) =
    keep (λ i. not (contains (insight_identity i) (e ∷ exclude))) insights

unfoldable pub action_items_excluding : List ActionItem → List Text → List ActionItem
action_items_excluding actions [] = actions
action_items_excluding actions (e ∷ exclude) =
    keep (λ a. not (contains (action_identity a) (e ∷ exclude))) actions

unfoldable pub count_cached_transcripts : List YouTubeItem → ℕ
count_cached_transcripts videos = length (keep (λ v. v.transcript_status == codes "cached") videos)
