-- ===== src/Material/Skipping.antt =====
-- The filter of the next refresh skips a candidate whose content a run has summarised.
use second_brain.Prelude.{
  List, Option, Text, [], arith, eq_iff, false, if◌then◌else◌, insert, is_nil, keep, lookup,
  lookup-insert, not, refl, some, trim, true, ◌&&◌, ◌++◌, ◌==◌, ◌∷◌, ◌≡◌, ap, Dict, ◌∙◌, Within,
  ◌≢◌, keep-Within,
}
use second_brain.Models.{Result, SourceCandidate, SourceMaterialState, Summary, items, Time}
use second_brain.Storage.Upload.{Host, capture_hash}
use second_brain.Material.Keys.{
  is_attributed, key_text, result_states, source_material_key_for_candidate, state_key,
  state_of_summary, states_by_key, x_content_types, youtube_artifact_kinds,
}
use second_brain.Material.Selection.{States, filter_new_source_candidates, is_processed}

-- `new` and `skipped` part the candidates by a test.
filter_new-keep :
    (host : Host) (prompt_version : Text) (cs : List SourceCandidate) (states : States)
    (model : Text)
    → filter_new_source_candidates host prompt_version cs states model ≡ (
      keep (λ c. not (is_processed host prompt_version model states c)) cs,
      keep (is_processed host prompt_version model states) cs,
    )
unfolding filter_new_source_candidates
filter_new-keep host prompt_version [] states model = refl
filter_new-keep host prompt_version (c ∷ cs) states model =
    ground (arith, filter_new-keep host prompt_version cs states model)

-- The last summary under a key, if it is attributed to a source, a prompt and a model.
unfoldable pub last_state :
    (Summary → SourceMaterialState)
    → Text
    → Option SourceMaterialState
    → List Summary
    → Option SourceMaterialState
last_state state k found [] = found
last_state state k found (s ∷ ss) =
    last_state state k
      (if is_attributed s && key_text (state_key (state s)) == k then some (state s) else found) ss

lookup-states_by_key :
    (state : Summary → SourceMaterialState) (k : Text) (states : States) (ss : List Summary)
    → lookup k (states_by_key state states ss) ≡ last_state state k (lookup k states) ss
unfolding states_by_key last_state
lookup-states_by_key state k states [] = refl
lookup-states_by_key state k states (s ∷ ss) =
    let key = key_text (state_key (state s)) in
    ground (
      arith,
      lookup-insert key k (state s) states,
      lookup-states_by_key state k (insert key (state s) states) ss,
      lookup-states_by_key state k states ss,
    )

last_state-append :
    (state : Summary → SourceMaterialState) (k : Text) (found : Option SourceMaterialState)
    (ss : List Summary) (s : Summary)
    → is_attributed s ≡ true
    → key_text (state_key (state s)) ≡ k
    → last_state state k found (ss ++ s ∷ []) ≡ some (state s)
unfolding last_state
last_state-append state k found [] s h e = ground (arith, eq_iff (key_text (state_key (state s))) k)
last_state-append state k found (t ∷ ss) s h e =
    let found' =
      if is_attributed t && key_text (state_key (state t)) == k then some (state t) else found in
    last_state-append state k found' ss s h e

state_key-candidate :
    (x_kinds youtube_kinds : Dict Text) (run_at : Time) (s : Summary) (c : SourceCandidate)
    → trim s.source ≡ c.source_type
    → s.id ≡ c.external_id
    → state_key (state_of_summary x_kinds youtube_kinds run_at s)
      ≡ source_material_key_for_candidate c s.prompt_version s.model
unfolding state_key state_of_summary source_material_key_for_candidate
state_key-candidate x_kinds youtube_kinds run_at s c source id = λ i. record {
  source_type = source i;
  external_id = id i;
  prompt_version = s.prompt_version;
  model = s.model;
}

lookup-result_states :
    (result : Result) (before : List Summary) (s : Summary) (c : SourceCandidate)
    → result.summaries ≡ some (before ++ s ∷ [])
    → is_attributed s ≡ true
    → trim s.source ≡ c.source_type
    → s.id ≡ c.external_id
    → (state : SourceMaterialState) × (lookup
          (key_text (source_material_key_for_candidate c s.prompt_version s.model))
          (result_states result)
        ≡ some state)
      × (state.processed ≡ true)
      × (state.latest_capture_hash ≡ s.capture_hash)
unfolding result_states
lookup-result_states result before s c last named source id =
    let x_kinds = x_content_types [] (items result.x_bookmarks) in
    let youtube_kinds = youtube_artifact_kinds [] (items result.youtube_items) in
    let state = state_of_summary x_kinds youtube_kinds result.generated_at in
    let k = key_text (source_material_key_for_candidate c s.prompt_version s.model) in
    let same : key_text (state_key (state s)) ≡ k =
      ap key_text (state_key-candidate x_kinds youtube_kinds result.generated_at s c source id) in
    (
      state s,
      ap (λ ss. lookup k (states_by_key state [] (items ss))) last
          ∙ lookup-states_by_key state k [] (before ++ s ∷ [])
          ∙ last_state-append state k _ before s named same,
      unfold state_of_summary in refl,
      unfold state_of_summary in refl,
    )

-- A summary that a run appended makes its candidate known: the candidate counts as processed as
-- long as its content has the hash that the summary recorded, and no longer when the hash differs.
pub is_processed-result_states :
    (host : Host) (result : Result) (before : List Summary) (s : Summary) (c : SourceCandidate)
    → result.summaries ≡ some (before ++ s ∷ [])
    → is_attributed s ≡ true
    → trim s.source ≡ c.source_type
    → s.id ≡ c.external_id
    → is_nil s.capture_hash ≡ false
    → is_processed host s.prompt_version s.model (result_states result) c
      ≡ (s.capture_hash == capture_hash host c)
unfolding is_processed
is_processed-result_states host result before s c last named source id hashed =
    let (state, found, done, hash) = lookup-result_states result before s c last named source id in
    ground arith

-- After a run whose last summary is attributed, has a hash, and is of a fetched candidate: the
-- filter of the next refresh skips the candidate if its content has that hash, and lists it as new
-- if it has another.
pub filter_new-result_states :
    (host : Host) (result : Result) (before : List Summary) (s : Summary) (c : SourceCandidate)
    (cs : List SourceCandidate)
    → Within c cs
    → result.summaries ≡ some (before ++ s ∷ [])
    → is_attributed s ≡ true
    → trim s.source ≡ c.source_type
    → s.id ≡ c.external_id
    → is_nil s.capture_hash ≡ false
    → let out =
        filter_new_source_candidates host s.prompt_version cs (result_states result) s.model in
      (s.capture_hash ≡ capture_hash host c → Within c out.1)
      × (s.capture_hash ≢ capture_hash host c → Within c out.0)
filter_new-result_states host result before s c cs w last named source id hashed =
    let test = is_processed host s.prompt_version s.model (result_states result) in
    let known = is_processed-result_states host result before s c last named source id hashed in
    rw (filter_new-keep host s.prompt_version cs (result_states result) s.model) (
      λ e. keep-Within test cs w (ground (arith, eq_iff s.capture_hash (capture_hash host c))),
      λ n. keep-Within _ cs w (ground (arith, eq_iff s.capture_hash (capture_hash host c))),
    )
