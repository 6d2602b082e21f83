-- ===== src/ReadModel/Publish.antt =====
-- `PublishAppState`, `PublishSourceMaterialStates` and `WriteRefreshStatus` of rediscache. A
-- method takes what the connection answers to each of its pipelines.
use second_brain.Prelude.{
  Dict, List, Option, Outcome, Text, [], codes, err, if◌then◌else◌, insert, is_blank, is_nil, none,
  ok, pos, some, trim, ◌>>=◌, ◌||◌, ◌∷◌,
}
use second_brain.Models.{
  DigestIssue, Insight, RefreshStatus, Result, Slice, SourceMaterialState, Time, XBookmark,
  YouTubeItem,
}
use second_brain.Material.Keys.{key_text, source_material_states_from_result, state_key}
use second_brain.ReadModel.State.{AppState, AppStateAskContext, AppStateGraph, AppStateManifest}
use second_brain.ReadModel.Redis.{Answer, Command, Redis, exec_pipeline, expire, hset, set}
use second_brain.ReadModel.Keys.{
  app_state_key, ask_context_key, digests_key, graph_key, latest_run_key, manifest_key,
  refresh_status_key, run_meta_key, source_materials_key, view_key,
}

-- `encoding/json` on the payloads, and a time as `RFC3339Nano`.
pub record Codec : Type 0 where
  pub encode_latest : Option Result → Outcome Text Text
  pub decode_latest : Text → Outcome Text Result
  pub encode_state : AppState → Outcome Text Text
  pub decode_state : Text → Outcome Text AppState
  pub encode_digests : Slice DigestIssue → Outcome Text Text
  pub decode_digests : Text → Outcome Text (Slice DigestIssue)
  pub encode_graph : AppStateGraph → Outcome Text Text
  pub decode_graph : Text → Outcome Text AppStateGraph
  pub encode_ask_context : AppStateAskContext → Outcome Text Text
  pub encode_insights : Slice Insight → Outcome Text Text
  pub encode_newsletter : Option DigestIssue → Outcome Text Text
  pub encode_bookmarks : Slice XBookmark → Outcome Text Text
  pub encode_videos : Slice YouTubeItem → Outcome Text Text
  pub encode_material : SourceMaterialState → Outcome Text Text
  pub encode_status : RefreshStatus → Outcome Text Text
  pub decode_status : Text → Outcome Text RefreshStatus
  pub format_time : Time → Text
  pub parse_time : Text → Option Time

abbrev pub app_state_schema_version : Text
app_state_schema_version = codes "redis-read-model-v1"

-- `latestMeta`: a result with four of its fields.
abbrev pub empty_result : Result
empty_result = record {
  generated_at = 0;
  source_status = record { x = []; youtube = []; one_cli = [] };
  source_counts = record { x_bookmarks = pos 0; youtube_items = pos 0 };
  x_bookmarks = none;
  youtube_items = none;
  summaries = none;
  insights = none;
  action_items = none;
  artifacts = none;
  processing = none;
  themes = none;
  insight_clusters = none;
  connections = none;
  digest = none;
  validation = none;
  blockers = none;
}

unfoldable pub latest_meta : Option Result → Result
latest_meta none = empty_result
latest_meta (some latest) = record empty_result {
  generated_at = latest.generated_at;
  source_status = latest.source_status;
  validation = latest.validation;
  blockers = latest.blockers;
}

pub record Payloads : Type 0 where
  pub latest : Text
  pub meta : Text
  pub app_state : Text
  pub digests : Text
  pub graph : Text
  pub ask_context : Text
  pub insights : Text
  pub newsletter : Text
  pub bookmarks : Text
  pub videos : Text

-- The payloads of a run, each under a key that names the run.
unfoldable pub payload_commands : Text → Text → Payloads → List Command
payload_commands owner_id run_id p =
    set (latest_run_key owner_id run_id) p.latest
    ∷ set (run_meta_key owner_id run_id) p.meta
    ∷ set (app_state_key owner_id run_id) p.app_state
    ∷ set (digests_key owner_id run_id) p.digests
    ∷ set (graph_key owner_id run_id) p.graph
    ∷ set (ask_context_key owner_id run_id) p.ask_context
    ∷ set (view_key owner_id run_id (codes "insights")) p.insights
    ∷ set (view_key owner_id run_id (codes "daily-newsletter")) p.newsletter
    ∷ set (view_key owner_id run_id (codes "original-x-bookmarks")) p.bookmarks
    ∷ set (view_key owner_id run_id (codes "original-youtube-posts")) p.videos
    ∷ []

-- What the connection answers to the three calls of a publication.
pub record Answers : Type 0 where
  pub payloads : Answer
  pub materials : Answer
  pub manifest : Answer

module _ (codec : Codec) where
  -- The map `values`, which leaves out states without an identity.
  unfoldable pub material_values : Dict Text → List SourceMaterialState → Outcome Text (Dict Text)
  material_values values [] = ok values
  material_values values (s ∷ ss) =
      let skipped = material_values values ss in
      let added = codec.encode_material s >>= λ raw.
      material_values (insert (key_text (state_key s)) raw values) ss in
      if is_blank s.external_id || is_blank s.prompt_version || is_blank s.model
      then skipped
      else added

  unfoldable pub publish_source_material_states :
      Answer → Text → List SourceMaterialState → Redis → Redis × Outcome Text (Unit {0})
  unfolding material_values
  publish_source_material_states answer owner_id states redis = elim (material_values [] states) [
    | err e ↦ (redis, err e)
    | ok values ↦
        if is_nil values
        then (redis, ok tt)
        else exec_pipeline answer
            (hset (source_materials_key owner_id) values
              ∷ expire (source_materials_key owner_id)
              ∷ [])
            redis
  ]

  -- The JSON of what is published.
  unfoldable pub marshal_payloads : AppState → Outcome Text Payloads
  unfolding latest_meta
  marshal_payloads state = do
    latest ← codec.encode_latest state.latest
    meta ← codec.encode_latest (some (latest_meta state.latest))
    app_state ← codec.encode_state state
    digests ← codec.encode_digests state.digests
    graph ← codec.encode_graph state.graph
    ask_context ← codec.encode_ask_context state.ask_context
    insights ← codec.encode_insights state.views.insights
    newsletter ← codec.encode_newsletter state.views.daily_newsletter
    bookmarks ← codec.encode_bookmarks state.views.original_x_bookmarks
    videos ← codec.encode_videos state.views.original_youtube_posts
    ok (record {
      latest = latest;
      meta = meta;
      app_state = app_state;
      digests = digests;
      graph = graph;
      ask_context = ask_context;
      insights = insights;
      newsletter = newsletter;
      bookmarks = bookmarks;
      videos = videos;
    })

  unfoldable pub manifest_fields : Text → AppStateManifest → Dict Text
  manifest_fields run_id manifest =
      (codes "schema_version", app_state_schema_version)
      ∷ (codes "current_run_id", run_id)
      ∷ (codes "generated_at", codec.format_time manifest.generated_at)
      ∷ (codes "published_at", codec.format_time manifest.published_at)
      ∷ (codes "etag", manifest.etag)
      ∷ (codes "graph_status", manifest.graph_status)
      ∷ (codes "digest_status", manifest.digest_status)
      ∷ []

  unfoldable pub switch_manifest :
      Answer → Text → Text → AppState → Redis → Redis × Outcome Text (Unit {0})
  unfolding manifest_fields
  switch_manifest answer owner_id run_id state redis =
      exec_pipeline answer
        (hset (manifest_key owner_id) (manifest_fields run_id state.manifest) ∷ []) redis

  unfoldable pub publish_app_state :
      Answers → Text → AppState → Redis → Redis × Outcome Text (Unit {0})
  unfolding marshal_payloads payload_commands publish_source_material_states switch_manifest
  publish_app_state answers owner_id state redis =
      let run_id = trim state.manifest.run_id in
      if is_nil run_id
      then (redis, err (codes "app state manifest run ID is required"))
      else elim (marshal_payloads state) [
        | err e ↦ (redis, err e)
        | ok payloads ↦
            let (stored, sent) =
              exec_pipeline answers.payloads (payload_commands owner_id run_id payloads) redis in
            elim sent [
              | err e ↦ (stored, err e)
              | ok _ ↦
                  let (known, told) =
                    publish_source_material_states answers.materials owner_id
                      (source_material_states_from_result state.latest) stored in
                  elim told [
                    | err e ↦ (known, err e)
                    | ok _ ↦ switch_manifest answers.manifest owner_id run_id state known
                  ]
            ]
      ]

  unfoldable pub write_refresh_status :
      Answer → Text → RefreshStatus → Redis → Redis × Outcome Text (Unit {0})
  write_refresh_status answer owner_id status redis = elim (codec.encode_status status) [
    | err e ↦ (redis, err e)
    | ok raw ↦ exec_pipeline answer (set (refresh_status_key owner_id) raw ∷ []) redis
  ]
