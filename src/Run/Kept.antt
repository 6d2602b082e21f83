-- ===== src/Run/Kept.antt =====
-- What the result of a cycle, and the sources saved with it, keep of the latest run.
use second_brain.Prelude.{
  Bool, All, All-of_Within, List, Text, Within, Within-append_left, Within-append_right, [], arith,
  codes, contains, false, inl, inr, is_blank, is_some, refl, some, sym, subst, true, ◌==◌, ◌∷◌, ◌≡◌,
  ◌⊎◌, All-Within,
}
use second_brain.Models.{
  ActionItem, Config, ProcessedSource, Result, Slice, Summary, XBookmark, YouTubeItem, items,
}
use second_brain.Material.Selection.{
  action_identity, processed_source_ids, summary_identity, summaries_excluding,
  action_items_excluding,
}
use second_brain.Material.Union.{find_id, find_id-append}
use second_brain.Run.Output.{append_processed_output, processed_sources_from_result}
use second_brain.Run.Sources.{processed_sources_from_result_lem, source_identity}
use second_brain.Run.Validation.{Formats}
use second_brain.Run.Prepare.{Answers}
use second_brain.Run.Cycle.{assemble, fresh_result, merge_latest, save_sources}
use second_brain.Run.Merged.{
  HasVideo, actions-excluding, actions-output, bookmarks-merged, bookmarks-output,
  items-append_slice, new_summaries, summaries-excluding, summaries-output, videos-merged,
  videos-output,
}

-- What `result` and `sources` keep of `latest`, where `processed` are the sources synthesised anew.
pub record KeepsLatest (latest : Result) (processed : List ProcessedSource) (result : Result)
    (sources : List ProcessedSource) : Type 0 where
  pub summaries :
      All
        (λ s.
          Within s (items result.summaries)
          ⊎ (contains (summary_identity s) (processed_source_ids processed) ≡ true))
        (items latest.summaries)
  pub output : All (λ s. Within s (items result.summaries)) (new_summaries processed)
  pub actions :
      All
        (λ x.
          Within x (items result.action_items)
          ⊎ (contains (action_identity x) (processed_source_ids processed) ≡ true))
        (items latest.action_items)
  pub bookmarks :
      (k : Text)
      → is_blank k ≡ false
      → is_some (find_id (λ b. b.id) k (items latest.x_bookmarks)) ≡ true
      → is_some (find_id (λ b. b.id) k (items result.x_bookmarks)) ≡ true
  pub videos :
      (k : Text)
      → is_blank k ≡ false
      → HasVideo k (items latest.youtube_items)
      → HasVideo k (items result.youtube_items)
  pub known_sources :
      (k : Text)
      → (k == codes ":") ≡ false
      → is_some (find_id summary_identity k (items latest.summaries)) ≡ true
      → is_some (find_id source_identity k sources) ≡ true

contains-ids :
    (k : Text) (ps : List ProcessedSource)
    → contains k (processed_source_ids ps) ≡ is_some (find_id source_identity k ps)
unfolding contains processed_source_ids find_id
contains-ids k [] = refl
contains-ids k (p ∷ ps) = ground (arith, contains-ids k ps)

sources-known :
    (latest : Result) (processed : List ProcessedSource) (k : Text)
    → (k == codes ":") ≡ false
    → is_some (find_id summary_identity k (items latest.summaries)) ≡ true
    → is_some (find_id source_identity k (save_sources (some latest) processed)) ≡ true
sources-known latest processed k named h =
    let exclude = processed_source_ids processed in
    let old = processed_sources_from_result (some latest) exclude in
    let (_, found) = processed_sources_from_result_lem latest exclude in
    ground
      (arith, found k, find_id-append source_identity k old processed, contains-ids k processed)

module _ (latest fetched : Result) (processed : List ProcessedSource) where
  abbrev merged : Result
  merged = merge_latest (some latest) (processed_source_ids processed) fetched

  abbrev extended : Result
  extended = append_processed_output merged processed

  merged_summaries :
      (s : Summary)
      → Within s (summaries_excluding (items latest.summaries) (processed_source_ids processed))
      → Within s (items merged.summaries)
  unfolding merge_latest
  merged_summaries s w = rw (items-append_slice fetched.summaries _) (Within-append_right _ _ w)

  merged_actions :
      (x : ActionItem)
      → Within x
          (action_items_excluding (items latest.action_items) (processed_source_ids processed))
      → Within x (items merged.action_items)
  unfolding merge_latest
  merged_actions x w = rw (items-append_slice fetched.action_items _) (Within-append_right _ _ w)

  extended-KeepsLatest :
      KeepsLatest latest processed extended (save_sources (some latest) processed)
  unfolding merge_latest
  extended-KeepsLatest =
      let ids = processed_source_ids processed in
      record {
        summaries = All-of_Within _ (items latest.summaries) (λ s w.
            elim (All-Within _ (items latest.summaries)
              (summaries-excluding (items latest.summaries) ids) w) [
                | inl kept ↦ inl (
                    rw (summaries-output merged processed)
                      (Within-append_left _ (new_summaries processed) (merged_summaries s kept)))
                | inr again ↦ inr again
              ]);
        output = All-of_Within _ (new_summaries processed) (λ s w.
            rw (summaries-output merged processed)
              (Within-append_right (items merged.summaries) (new_summaries processed) w));
        actions = All-of_Within _ (items latest.action_items) (λ x w.
            elim (All-Within _ (items latest.action_items)
              (actions-excluding (items latest.action_items) ids) w) [
                | inl kept ↦ inl (actions-output merged processed x (merged_actions x kept))
                | inr again ↦ inr again
              ]);
        bookmarks = λ k named h.
            rw (bookmarks-output merged processed)
              (bookmarks-merged k latest.x_bookmarks fetched.x_bookmarks named h);
        videos = λ k named h.
            videos-output k merged processed
              (videos-merged k latest.youtube_items fetched.youtube_items named h);
        known_sources = sources-known latest processed;
      }

module _ (formats : Formats) (cfg : Config) (a : Answers) (latest : Result)
    (known : a.latest ≡ some latest) where
  pub assemble-KeepsLatest :
      (blockers : List Text) (blocked : Bool) (playlist : Text) (bookmarks : Slice XBookmark)
      (videos : Slice YouTubeItem) (processed : List ProcessedSource)
      → KeepsLatest latest processed
          (assemble formats cfg a blockers blocked playlist bookmarks videos processed)
          (save_sources a.latest processed)
  unfolding assemble merge_latest fresh_result
  assemble-KeepsLatest blockers blocked playlist bookmarks videos processed =
      let fetched = record (fresh_result a) { x_bookmarks = bookmarks; youtube_items = videos } in
      let kept =
        subst
          (λ last.
            KeepsLatest latest processed
              (append_processed_output (merge_latest last (processed_source_ids processed) fetched)
                processed)
              (save_sources last processed))
          (sym known) (extended-KeepsLatest latest fetched processed) in
      record {
        summaries = kept.summaries;
        output = kept.output;
        actions = kept.actions;
        bookmarks = kept.bookmarks;
        videos = kept.videos;
        known_sources = kept.known_sources;
      }
