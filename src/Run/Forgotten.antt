-- ===== src/Run/Forgotten.antt =====
-- A refresh forgets the digest: the result of a cycle starts without one, and the latest run's is
-- not carried over. The Postgres store keeps digests beside the runs; the local store keeps them in
-- the run.
use second_brain.Prelude.{
  Bool, All, List, Option, Text, [], arith, none, ok, refl, some, ◌++◌, ◌∙◌, ◌∷◌, ◌≡◌,
}
use second_brain.Models.{Config, ProcessedSource, Result, persisted}
use second_brain.Storage.Upload.{Host}
use second_brain.LocalStore.Files.{Files, Io, Json}
use second_brain.LocalStore.Latest.{read_digests, save_run}
use second_brain.LocalStore.Replacement.{IsQuiet, RoundTrips, read_latest-save_run}
use second_brain.Run.Output.{append_processed_item, append_processed_output}
use second_brain.Run.Transcripts.{Ledger, Provider}
use second_brain.Run.Validation.{Formats}
use second_brain.Run.Prepare.{Answers, Prepared, prepare}
use second_brain.Run.Cycle.{
  assemble, fresh_result, merge_latest, process_cycle, process_prepared, run_cycle, save_cycle,
  save_sources,
}
use second_brain.Run.Saves.{IfSaved, save_effects-IfSaved, decide-IfSaved, run_cycle-IfSaved}
use second_brain.Material.Selection.{processed_source_ids}

digest-output :
    (result : Result) (ps : List ProcessedSource)
    → (append_processed_output result ps).digest ≡ result.digest
unfolding append_processed_output append_processed_item
digest-output result [] = refl
digest-output result (p ∷ ps) = digest-output (append_processed_item result p) ps

digest-merged :
    (latest : Option Result) (exclude : List Text) (result : Result)
    → (merge_latest latest exclude result).digest ≡ result.digest
unfolding merge_latest
digest-merged none exclude result = refl
digest-merged (some latest) exclude result = refl

module _ (formats : Formats) (cfg : Config) (a : Answers) {W : Type 0} (p : Prepared W) where
  process_prepared-HasNoDigest :
      (Q : Result → List ProcessedSource → Type 0)
      → ((r : Result) (sources : List ProcessedSource) → r.digest ≡ none → Q r sources)
      → All (IfSaved Q) (process_prepared formats cfg a p).0
  unfolding process_prepared process_cycle save_cycle assemble fresh_result
  process_prepared-HasNoDigest Q of_none =
      let processed = a.enrich (a.process p.new_candidates).0 in
      let fetched = record (fresh_result a) {
        x_bookmarks = p.bookmarks;
        youtube_items = p.videos;
      } in
      let ids = processed_source_ids processed in
      let result =
        assemble formats cfg a (p.blockers ++ (a.process p.new_candidates).1) p.youtube_blocked
          p.playlist_id p.bookmarks p.videos processed in
      let missing =
        digest-output (merge_latest a.latest ids fetched) processed
        ∙ digest-merged a.latest ids fetched in
      let sources = save_sources a.latest processed in
      (tt, save_effects-IfSaved Q a.save_error result sources (of_none result sources missing))

module _ {Raw : Type 0} (json : Json Raw) (path : Text) where
  -- The result is saved, and read without an error.
  abbrev pub ReadsNoDigest : Result → List ProcessedSource → Type 0
  ReadsNoDigest r sources =
      (io io' : Io) (files : Files Raw)
      → IsQuiet io'
      → (save_run json path io r files).1 ≡ ok tt
      → read_digests json path io' (save_run json path io r files).0 ≡ ok []

  digestless-ReadsNoDigest :
      RoundTrips json
      → (r : Result) (sources : List ProcessedSource) → r.digest ≡ none
      → ReadsNoDigest r sources
  unfolding read_digests persisted
  digestless-ReadsNoDigest laws r sources missing io io' files quiet done =
      ground (arith, read_latest-save_run json path laws io io' r files quiet)

-- Given that the documents round-trip through JSON: once a cycle has saved its result to the local
-- store, a read of the digests that meets no error finds none, whatever digest the latest run had.
pub run_cycle-forgets_digest :
    {W Raw : Type 0} (ledger : Ledger W) (provider : Provider) (equal_fold : Text → Text → Bool)
    (host : Host) (formats : Formats) (prompt_version model : Text) (cfg : Config) (a : Answers)
    (w : W) (json : Json Raw) (path : Text)
    → RoundTrips json
    → All
        (IfSaved (ReadsNoDigest json path))
        (run_cycle ledger provider equal_fold host formats prompt_version model cfg a w).1
run_cycle-forgets_digest ledger provider equal_fold host formats prompt_version model cfg a w json
      path laws =
    let p = prepare ledger provider equal_fold host prompt_version model cfg a w in
    run_cycle-IfSaved ledger provider equal_fold host formats prompt_version model cfg a w _ (
      decide-IfSaved formats cfg a p (λ outcome. ReadsNoDigest json path) a.latest
        (process_prepared-HasNoDigest formats cfg a p _ (digestless-ReadsNoDigest json path laws)))
