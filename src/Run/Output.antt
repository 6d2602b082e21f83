-- ===== src/Run/Output.antt =====
-- `processedSourcesFromResult` and `appendProcessedOutput` of refresh_material.go, with
-- `attachYouTubeTimeMarkers` of service.go.
use second_brain.Prelude.{
  Dict, List, Option, Text, [], codes, contains, fallback, false, if◌then◌else◌, insert, is_nil,
  keep, map, none, not, some, true, ◌&&◌, ◌++◌, ◌==◌, ◌||◌, ◌∷◌,
}
use second_brain.Models.{
  ImportantTimeMarker, ProcessedSource, ProcessingEvent, Result, Slice, SourceArtifact, Summary,
  XBookmark, YouTubeItem, items, source_type_x, source_type_youtube,
}
use mathlib.Core.Option
use second_brain.Material.Keys.{source_material_identity, text_at, x_content_type}
use second_brain.Material.Selection.{
  action_identity, content_type_for_summary, insight_identity, summary_identity,
}

-- The zero value of `SourceArtifact`.
abbrev pub no_artifact : SourceArtifact
no_artifact = record {
  source = [];
  source_id = [];
  kind = [];
  bucket = [];
  path = [];
  checksum = [];
  content_type = [];
  byte_size = 0;
  stored = false;
  error = [];
}

-- The map `contentTypes`.
unfoldable pub bookmark_types : Dict Text → List XBookmark → Dict Text
bookmark_types types [] = types
bookmark_types types (b ∷ bs) =
    bookmark_types (insert (source_material_identity source_type_x b.id) (x_content_type b) types)
      bs

unfoldable pub video_types : Dict Text → List YouTubeItem → Dict Text
video_types types [] = types
video_types types (v ∷ vs) =
    video_types
      (insert (source_material_identity source_type_youtube v.video_id) (codes "video") types) vs

unfoldable pub source_of_summary : Result → Summary → ProcessedSource
source_of_summary result summary =
    let types =
      video_types (bookmark_types [] (items result.x_bookmarks)) (items result.youtube_items) in
    let key = summary_identity summary in
    record {
      owner_id = [];
      source_type = summary.source;
      content_type = fallback (text_at key types) (content_type_for_summary summary.source);
      external_id = summary.id;
      source_url = summary.source_url;
      title = summary.title;
      author_name = [];
      username = [];
      published_at = [];
      capture_hash = summary.capture_hash;
      artifact = no_artifact;
      summary_artifact = no_artifact;
      synthesis = record {
        source_type = summary.source;
        external_id = summary.id;
        capture_hash = summary.capture_hash;
        prompt_version = summary.prompt_version;
        model = summary.model;
        summary = summary;
        insights = keep (λ i. insight_identity i == key) (items result.insights);
        action_items = keep (λ a. action_identity a == key) (items result.action_items);
        generated_at = 0;
      };
      chunks = [];
      embeddings = [];
      entities = [];
      keywords = [];
      cached = true;
    }

-- The summaries that the loop does not skip.
unfoldable pub fresh_summaries : List Text → List Text → List Summary → List Summary
fresh_summaries exclude seen [] = []
fresh_summaries exclude seen (s ∷ ss) =
    let skipped = fresh_summaries exclude seen ss in
    let added = s ∷ fresh_summaries exclude (summary_identity s ∷ seen) ss in
    if summary_identity s == codes ":"
      || contains (summary_identity s) exclude
      || contains (summary_identity s) seen
    then skipped
    else added

unfoldable pub processed_sources_from_result : Option Result → List Text → List ProcessedSource
unfolding fresh_summaries source_of_summary
processed_sources_from_result none exclude = []
processed_sources_from_result (some result) exclude =
    map (source_of_summary result) (fresh_summaries exclude [] (items result.summaries))

-- `append(xs, ys...)`.
abbrev pub append_slice {ℓ} : {A : Type ℓ} → Slice A → List A → Slice A
append_slice none [] = none
append_slice none (y ∷ ys) = some (y ∷ ys)
append_slice (some xs) ys = some (xs ++ ys)

-- The first video with the identifier gets the markers.
unfoldable pub attach_youtube_time_markers :
    List YouTubeItem → Text → List ImportantTimeMarker → List YouTubeItem
attach_youtube_time_markers [] video_id markers = []
attach_youtube_time_markers (v ∷ vs) video_id markers =
    let rest = attach_youtube_time_markers vs video_id markers in
    if v.video_id == video_id then record v { important_time_markers = markers } ∷ vs else v ∷ rest

abbrev pub stored_artifacts : ProcessedSource → List SourceArtifact
stored_artifacts item = keep (λ a. not (is_nil a.path)) (item.artifact ∷ item.summary_artifact ∷ [])

abbrev pub error_detail : Text → Text
error_detail error = if is_nil error then [] else codes " " ++ error

unfoldable pub processing_event : ProcessedSource → ProcessingEvent
processing_event item =
    let detail =
      if item.cached
      then codes "Skipped synthesis because this source capture was already processed."
      else codes "Generated synthesis for current source capture." in
    record {
      source = item.source_type;
      source_id = item.external_id;
      title = item.title;
      capture_hash = item.capture_hash;
      prompt_version = item.synthesis.prompt_version;
      model = item.synthesis.model;
      status = if item.cached then codes "cached" else codes "generated";
      detail =
          detail ++ (error_detail item.artifact.error ++ error_detail item.summary_artifact.error);
    }

unfoldable pub append_processed_item : Result → ProcessedSource → Result
unfolding attach_youtube_time_markers processing_event
append_processed_item result item =
    let markers = item.synthesis.summary.important_time_markers in
    let marked =
      if item.source_type == source_type_youtube && not (is_nil markers)
      then Option.map (λ vs. attach_youtube_time_markers vs item.external_id markers)
          result.youtube_items
      else result.youtube_items in
    record result {
      summaries = append_slice result.summaries (item.synthesis.summary ∷ []);
      insights = append_slice result.insights item.synthesis.insights;
      action_items = append_slice result.action_items item.synthesis.action_items;
      youtube_items = marked;
      artifacts = append_slice result.artifacts (stored_artifacts item);
      processing = append_slice result.processing (processing_event item ∷ []);
    }

unfoldable pub append_processed_output : Result → List ProcessedSource → Result
unfolding append_processed_item
append_processed_output result [] = result
append_processed_output result (item ∷ processed) =
    append_processed_output (append_processed_item result item) processed
