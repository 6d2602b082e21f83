-- ===== src/Run/Preserved.antt =====
-- A save loses nothing of the latest run.
use second_brain.Prelude.{Bool, All, List, Text, refl, some, ◌++◌, ◌≡◌}
use second_brain.Models.{Config, ProcessedSource, Result}
use second_brain.Storage.Upload.{Host}
use second_brain.Run.Transcripts.{Ledger, Provider}
use second_brain.Run.Validation.{Formats}
use second_brain.Run.Prepare.{Answers, Prepared, prepare}
use second_brain.Run.Cycle.{
  Effect, RunOutcome, assemble, process_cycle, process_prepared, run_cycle, save_cycle,
  save_sources,
}
use second_brain.Run.Saves.{IfSaved, save_effects-IfSaved, decide-IfSaved, run_cycle-IfSaved}
use second_brain.Run.Kept.{KeepsLatest, assemble-KeepsLatest}

-- What is saved keeps the latest run, and is what the cycle returns.
abbrev pub SavesLatest : Result → List ProcessedSource → List Effect → RunOutcome → Type 0
SavesLatest latest processed effects outcome =
    All (IfSaved (λ r sources. KeepsLatest latest processed r sources × (outcome.result ≡ r)))
      effects

module _ (formats : Formats) (cfg : Config) (a : Answers) (latest : Result)
    (known : a.latest ≡ some latest) {W : Type 0} (p : Prepared W) where
  abbrev processed_of : List ProcessedSource
  processed_of = a.enrich (a.process p.new_candidates).0

  abbrev Saves : List Effect × RunOutcome → Type 0
  Saves out = SavesLatest latest processed_of out.0 out.1

  saved_once :
      (result : Result) (sources processed : List ProcessedSource)
      → KeepsLatest latest processed_of result sources
      → Saves (save_cycle formats cfg a result sources processed)
  unfolding save_cycle
  saved_once result sources processed keeps =
      save_effects-IfSaved _ a.save_error result sources (keeps, refl)

  process_prepared-Saves : Saves (process_prepared formats cfg a p)
  unfolding process_prepared process_cycle
  process_prepared-Saves =
      let result =
        assemble formats cfg a (p.blockers ++ (a.process p.new_candidates).1) p.youtube_blocked
          p.playlist_id p.bookmarks p.videos processed_of in
      (
        tt,
        saved_once result (save_sources a.latest processed_of) processed_of
            (assemble-KeepsLatest formats cfg a latest known _ _ _ _ _ _),
      )

-- If there is a latest run: whatever a cycle saves is what it returns, and keeps of the latest run
-- each summary and each action item that is not of a source synthesised anew, each bookmark and each
-- video by its identifier unless that is blank, and a source for each identity of its summaries
-- except `:`; and it has the summary of each source synthesised anew.
pub run_cycle-SavesLatest :
    {W : Type 0} (ledger : Ledger W) (provider : Provider) (equal_fold : Text → Text → Bool)
    (host : Host) (formats : Formats) (prompt_version model : Text) (cfg : Config) (a : Answers)
    (w : W) (latest : Result)
    → a.latest ≡ some latest
    → let p = prepare ledger provider equal_fold host prompt_version model cfg a w in
      let out = run_cycle ledger provider equal_fold host formats prompt_version model cfg a w in
      SavesLatest latest (a.enrich (a.process p.new_candidates).0) out.1 out.2
unfolding run_cycle
run_cycle-SavesLatest ledger provider equal_fold host formats prompt_version model cfg a w latest
      known =
    let p = prepare ledger provider equal_fold host prompt_version model cfg a w in
    run_cycle-IfSaved ledger provider equal_fold host formats prompt_version model cfg a w _ (
      decide-IfSaved formats cfg a p
        (λ outcome r sources.
          KeepsLatest latest (a.enrich (a.process p.new_candidates).0) r sources
          × (outcome.result ≡ r))
        a.latest (process_prepared-Saves formats cfg a latest known p))
