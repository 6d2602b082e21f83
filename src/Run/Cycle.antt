-- ===== src/Run/Cycle.antt =====
-- `RunCycle` of service.go from the first decision on. What it asks for, beside the ledger, is
-- recorded as a list of effects.
use second_brain.Prelude.{
  Bool, List, Option, Text, [], codes, false, if◌then◌else◌, is_nil, join, length, map, ltb, none,
  not, pos, some, ◌&&◌, ◌++◌, ◌||◌, ◌∷◌,
}
use second_brain.Models.{
  Config, ProcessedSource, Result, Slice, SourceCandidate, SourceMaterialState, XBookmark,
  YouTubeItem, items,
}
use second_brain.Storage.Upload.{Host}
use second_brain.Material.Selection.{
  action_items_excluding, insights_excluding, processed_source_ids, summaries_excluding,
}
use second_brain.Material.Cache.{StatesRead}
use second_brain.Material.Merge.{merge_x_bookmarks, merge_youtube_items}
use second_brain.Run.Output.{append_processed_output, append_slice, processed_sources_from_result}
use second_brain.Run.Transcripts.{Ledger, Provider}
use second_brain.Run.Validation.{Formats, validation_of}
use second_brain.Run.Prepare.{Answers, Prepared, prepare}

-- What a cycle asks for: a transcript of the paid provider, the synthesis of candidates, a save of
-- the run, a publication, and material states for the cache.
pub data Effect : Type 0 where
  called_provider : Text → Effect
  processed_candidates : List SourceCandidate → Effect
  saved : Result → List ProcessedSource → Effect
  published : Result → Text → Effect
  refreshed_cache : List SourceMaterialState → Effect

-- `RunOutcome`, with the error beside it.
pub record RunOutcome : Type 0 where
  pub result : Result
  pub new_content : Bool
  pub skipped_reason : Text
  pub error : Option Text

unfoldable pub result_has_content : Option Result → Bool
result_has_content none = false
result_has_content (some result) =
    ltb 0 (length (items result.x_bookmarks))
    || ltb 0 (length (items result.youtube_items))
    || ltb 0 (length (items result.summaries))
    || ltb 0 (length (items result.insights))

-- The result at the start of a cycle.
unfoldable pub fresh_result : Answers → Result
fresh_result a = record {
  generated_at = a.now;
  source_status = record {
    x = codes "needs_secrets";
    youtube = codes "needs_secrets";
    one_cli = a.one_cli_status;
  };
  source_counts = record { x_bookmarks = pos 0; youtube_items = pos 0 };
  x_bookmarks = some [];
  youtube_items = some [];
  summaries = some [];
  insights = some [];
  action_items = some [];
  artifacts = some [];
  processing = some [];
  themes = none;
  insight_clusters = none;
  connections = none;
  digest = none;
  validation = some [];
  blockers = some [];
}

-- A merge returns what was fetched where nothing was there before.
abbrev pub merge_slices {ℓ} :
    {A : Type ℓ} → (List A → List A → List A) → Slice A → Slice A → Slice A
merge_slices merge previous fetched =
    if is_nil (items previous) then fetched else some (merge (items previous) (items fetched))

-- What the last run keeps beside the sources that were processed anew.
unfoldable pub merge_latest : Option Result → List Text → Result → Result
merge_latest none exclude result = result
merge_latest (some latest) exclude result = record result {
  x_bookmarks = merge_slices merge_x_bookmarks latest.x_bookmarks result.x_bookmarks;
  youtube_items = merge_slices merge_youtube_items latest.youtube_items result.youtube_items;
  summaries = append_slice result.summaries (summaries_excluding (items latest.summaries) exclude);
  insights = append_slice result.insights (insights_excluding (items latest.insights) exclude);
  action_items =
      append_slice result.action_items (action_items_excluding (items latest.action_items) exclude);
}

abbrev pub save_sources : Option Result → List ProcessedSource → List ProcessedSource
save_sources none processed = processed
save_sources (some latest) processed =
    processed_sources_from_result (some latest) (processed_source_ids processed) ++ processed

-- The two `switch`es on the state of a source.
abbrev pub youtube_status : Bool → List YouTubeItem → Text → Text
youtube_status blocked videos playlist_id =
    if blocked
    then codes "blocked"
    else if not (is_nil videos)
    then codes "ready"
    else if not (is_nil playlist_id)
    then codes "partial"
    else codes "needs_secrets"

-- The save, and the publication behind one that succeeded.
abbrev pub save_effects : Option Text → Result → List ProcessedSource → List Effect
save_effects (some e) result sources = saved result sources ∷ []
save_effects none result sources =
    saved result sources ∷ published result (codes "refresh_publish") ∷ []

module _ (formats : Formats) (cfg : Config) (a : Answers) where
  -- The result after synthesis: merged, extended, ranked and validated.
  unfoldable pub assemble :
      List Text → Bool → Text → Slice XBookmark → Slice YouTubeItem → List ProcessedSource → Result
  unfolding fresh_result merge_latest append_processed_output processed_sources_from_result
      validation_of
  assemble blockers youtube_blocked playlist_id bookmarks videos processed =
      let fetched = record (fresh_result a) { x_bookmarks = bookmarks; youtube_items = videos } in
      let merged = merge_latest a.latest (processed_source_ids processed) fetched in
      let extended = append_processed_output merged processed in
      let graph_sources = a.enrich (processed_sources_from_result (some extended) []) in
      let clusters = a.build_insight_clusters graph_sources in
      let ranked = record extended {
        themes = a.build_theme_clusters graph_sources;
        insight_clusters = clusters;
        insights = a.rank_insights extended.insights clusters;
        connections = a.build_source_connections graph_sources;
        source_status = record (extended.source_status) {
          x = if is_nil (items bookmarks) then codes "needs_secrets" else codes "ready";
          youtube = youtube_status youtube_blocked (items videos) playlist_id;
        };
      } in
      record ranked {
        validation = some (
            validation_of formats cfg.x_bookmark_limit (items bookmarks) (items videos) ranked
              (length processed));
        blockers = some blockers;
      }

  -- `RunCycle` once the candidates are synthesised.
  unfoldable pub save_cycle :
      Result → List ProcessedSource → List ProcessedSource → List Effect × RunOutcome
  save_cycle result sources processed = (
    save_effects a.save_error result sources,
    record {
      result = result;
      new_content = ltb 0 (length processed);
      skipped_reason = [];
      error = a.save_error;
    },
  )

  unfoldable pub process_cycle :
      List Text
      → Bool
      → Text
      → Slice XBookmark
      → Slice YouTubeItem
      → List SourceCandidate
      → List Effect × RunOutcome
  unfolding assemble save_cycle
  process_cycle blockers youtube_blocked playlist_id bookmarks videos new =
      let (sources, failures) = a.process new in
      let processed = a.enrich sources in
      let result =
        assemble (blockers ++ failures) youtube_blocked playlist_id bookmarks videos processed in
      let (effects, outcome) = save_cycle result (save_sources a.latest processed) processed in
      (processed_candidates new ∷ effects, outcome)

  unfoldable pub skipped : Result → Text → RunOutcome
  skipped result reason = record {
    result = result;
    new_content = false;
    skipped_reason = reason;
    error = none;
  }

  -- The synthesis of what was prepared.
  unfoldable pub process_prepared : {W : Type 0} → Prepared W → List Effect × RunOutcome
  unfolding process_cycle
  process_prepared p =
      process_cycle p.blockers p.youtube_blocked p.playlist_id p.bookmarks p.videos p.new_candidates

  -- The decisions of `RunCycle`, in their order, by the latest run.
  unfoldable pub decide : {W : Type 0} → Prepared W → Option Result → List Effect × RunOutcome
  unfolding skipped process_prepared fresh_result result_has_content
  decide p none =
      if not (is_nil p.read.warnings)
      then (
        [],
        record (skipped
            (record (fresh_result a) { x_bookmarks = p.bookmarks; youtube_items = p.videos })
            (codes "source_material_lookup_failed")) {
              error = some (join p.read.warnings (codes "; "));
            },
      )
      else process_prepared p
  decide p (some latest) =
      let seen =
        not (is_nil p.candidates && is_nil (items p.videos) && is_nil (items p.bookmarks)) in
      if not (is_nil p.read.warnings)
      then ([], skipped latest (codes "source_material_lookup_failed"))
      else if is_nil p.new_candidates && is_nil p.blockers && seen
      then (
        published latest (codes "refresh_noop_publish") ∷ [],
        skipped latest (codes "no_new_source_materials"),
      )
      else if is_nil p.new_candidates && not (is_nil p.blockers) && result_has_content (some latest)
      then ([], skipped latest (codes "source_fetch_blocked"))
      else process_prepared p

abbrev pub cached_by : StatesRead → List Effect
cached_by read = elim read.published [ none ↦ [] | some states ↦ refreshed_cache states ∷ [] ]

unfoldable pub run_cycle :
    {W : Type 0}
    → Ledger W
    → Provider
    → (Text → Text → Bool)
    → Host
    → Formats
    → Text
    → Text
    → Config
    → Answers
    → W
    → W × List Effect × RunOutcome
unfolding prepare decide
run_cycle ledger provider equal_fold host formats prompt_version model cfg a w =
    let p = prepare ledger provider equal_fold host prompt_version model cfg a w in
    let (effects, outcome) = decide formats cfg a p a.latest in
    (p.ledger, cached_by p.read ++ (map called_provider p.called ++ effects), outcome)
