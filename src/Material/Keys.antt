-- ===== src/Material/Keys.antt =====
-- source_material.go: the keys of the states, and the states that a result stands for.
use second_brain.Prelude.{
  Bool, Dict, List, Option, Text, [], codes, fallback, false, if◌then◌else◌, insert, is_nil, join,
  lookup, none, not, or_else, some, trim, true, values, ◌++◌, ◌==◌, ◌||◌, ◌∷◌,
}
use second_brain.Models.{
  Result, SourceCandidate, SourceMaterialKey, SourceMaterialState, SourceType, Summary, Time,
  XBookmark, YouTubeItem, items, source_type_x, source_type_youtube,
}

unfoldable pub key_text : SourceMaterialKey → Text
key_text key =
    join (key.source_type ∷ key.external_id ∷ key.prompt_version ∷ key.model ∷ []) (codes ":")

unfoldable pub source_material_identity : SourceType → Text → Text
source_material_identity source_type external_id = source_type ++ b':' ∷ trim external_id

unfoldable pub identity : SourceMaterialKey → Text
identity key = source_material_identity key.source_type key.external_id

unfoldable pub state_key : SourceMaterialState → SourceMaterialKey
state_key state = record {
  source_type = state.source_type;
  external_id = state.external_id;
  prompt_version = state.prompt_version;
  model = state.model;
}

-- `strings.EqualFold` folds cases by Unicode's tables: it is a parameter.
unfoldable pub has_processed_transcript : (Text → Text → Bool) → SourceMaterialState → Bool
has_processed_transcript equal_fold state =
    if not state.processed || not (state.source_type == source_type_youtube)
    then false
    else equal_fold (trim state.artifact_kind) (codes "transcript")

unfoldable pub source_material_key_for_candidate : SourceCandidate → Text → Text → SourceMaterialKey
source_material_key_for_candidate candidate prompt_version model = record {
  source_type = candidate.source_type;
  external_id = candidate.external_id;
  prompt_version = prompt_version;
  model = model;
}

abbrev pub x_content_type : XBookmark → Text
x_content_type bookmark =
    if bookmark.content_type == codes "article" then codes "article" else codes "post"

unfoldable pub x_content_types : Dict Text → List XBookmark → Dict Text
x_content_types kinds [] = kinds
x_content_types kinds (b ∷ bs) = x_content_types (insert b.id (x_content_type b) kinds) bs

abbrev pub youtube_artifact_kind : YouTubeItem → Text
youtube_artifact_kind item =
    if item.transcript_status == codes "available"
      || not (is_nil (trim item.transcript_preview))
      || not (is_nil (trim item.transcript_text))
    then codes "transcript"
    else codes "metadata"

unfoldable pub youtube_artifact_kinds : Dict Text → List YouTubeItem → Dict Text
youtube_artifact_kinds kinds [] = kinds
youtube_artifact_kinds kinds (v ∷ vs) =
    youtube_artifact_kinds (insert v.video_id (youtube_artifact_kind v) kinds) vs

-- A summary that stands for processed material: it names its source, prompt and model.
unfoldable pub is_attributed : Summary → Bool
is_attributed s = not (
    is_nil (trim s.source)
    || is_nil (trim s.id)
    || is_nil (trim s.prompt_version)
    || is_nil (trim s.model))

-- `m[key]`, which is blank where the key is missing.
abbrev pub text_at : Text → Dict Text → Text
text_at key m = or_else (lookup key m) []

-- The `switch` on the source type: the content type and the kind of artifact.
unfoldable pub material_kinds : Dict Text → Dict Text → SourceType → Text → Text × Text
material_kinds x_kinds youtube_kinds source_type id =
    let post = fallback (text_at id x_kinds) (codes "post") in
    if source_type == source_type_x
    then (post, post)
    else if source_type == source_type_youtube
    then (codes "video", fallback (text_at id youtube_kinds) (codes "metadata"))
    else (codes "document", codes "source")

unfoldable pub state_of_summary : Dict Text → Dict Text → Time → Summary → SourceMaterialState
state_of_summary x_kinds youtube_kinds run_at s =
    let source_type = trim s.source in
    let (content_type, artifact_kind) = material_kinds x_kinds youtube_kinds source_type s.id in
    record {
      source_type = source_type;
      external_id = s.id;
      latest_capture_hash = s.capture_hash;
      prompt_version = s.prompt_version;
      model = s.model;
      content_type = content_type;
      artifact_kind = artifact_kind;
      processed = true;
      last_seen_at = or_else s.generated_at run_at;
    }

unfoldable pub states_by_key :
    (Summary → SourceMaterialState)
    → Dict SourceMaterialState
    → List Summary
    → Dict SourceMaterialState
states_by_key state states [] = states
states_by_key state states (s ∷ ss) =
    states_by_key state
      (if is_attributed s then insert (key_text (state_key (state s))) (state s) states else states)
      ss

unfoldable pub result_states : Result → Dict SourceMaterialState
result_states result =
    states_by_key
      (state_of_summary (x_content_types [] (items result.x_bookmarks))
        (youtube_artifact_kinds [] (items result.youtube_items)) result.generated_at)
      [] (items result.summaries)

-- The values of the map; Go promises no order among them.
unfoldable pub source_material_states_from_result : Option Result → List SourceMaterialState
source_material_states_from_result none = []
source_material_states_from_result (some result) = values (result_states result)
