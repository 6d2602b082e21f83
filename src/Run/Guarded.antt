-- ===== src/Run/Guarded.antt =====
-- What a cycle does not do after a failed lookup.
use second_brain.Prelude.{
  Bool, Outcome, List, Option, Text, [], arith, false, is_nil, is_some, none, ◌&&◌, refl, some,
  true, ◌≡◌,
}
use second_brain.Models.{Config, Result, Slice, SourceMaterialKey, YouTubeItem}
use second_brain.Storage.Upload.{Host}
use second_brain.Material.Selection.{States}
use second_brain.Material.Cache.{CacheAnswer, read_missing, read_source_material_states}
use second_brain.Run.Transcripts.{Ledger, Provider}
use second_brain.Run.Validation.{Formats}
use second_brain.Run.Prepare.{Answers, Prepared, prepare, transcribe}
use second_brain.Run.Cycle.{Effect, cached_by, decide, run_cycle, RunOutcome}

-- A read that warns has nothing for the cache.
warned-published :
    (store : List SourceMaterialKey → Outcome Text States) (cache : CacheAnswer)
    (keys : List SourceMaterialKey)
    → is_nil (read_source_material_states store cache keys).warnings ≡ false
    → (read_source_material_states store cache keys).published ≡ none
unfolding read_source_material_states read_missing
warned-published store cache keys h = ground arith

-- Without a latest run a failure is an error, and with one it is the result.
abbrev pub IsLast : Option Result → RunOutcome → Type 0
IsLast none out = is_some out.error ≡ true
IsLast (some latest) out = (out.result ≡ latest) × (out.error ≡ none)

module _ {W : Type 0} (formats : Formats) (cfg : Config) (a : Answers) (p : Prepared W) where
  warned-decided :
      (latest : Option Result)
      → is_nil p.read.warnings ≡ false
      → let out = decide formats cfg a p latest in (out.0 ≡ []) × IsLast latest out.1
  unfolding decide
  warned-decided none h = rw h (refl, refl)
  warned-decided (some latest) h = rw h (refl, (refl, refl))

module _ {W : Type 0} (ledger : Ledger W) (provider : Provider) (equal_fold : Text → Text → Bool)
    (host : Host) (formats : Formats) (prompt_version model : Text) (cfg : Config) (a : Answers)
    (w : W) where
  abbrev pub prepared : Prepared W
  prepared = prepare ledger provider equal_fold host prompt_version model cfg a w

  abbrev pub cycle : W × List Effect × RunOutcome
  cycle = run_cycle ledger provider equal_fold host formats prompt_version model cfg a w

  unwanted :
      (fetched read : Bool) (states : States) (videos : Slice YouTubeItem)
      → read ≡ false
      → let out =
          transcribe ledger provider equal_fold host prompt_version model cfg a
            (fetched && read)
            states
            videos
            w in
        (out.0 ≡ w) × (out.2 ≡ [])
  unwanted fetched read states none e = (refl, refl)
  unwanted fetched read states (some videos) e =
      let off : (fetched && read) ≡ false = ground arith in rw off (refl, refl)

  -- A failed lookup asks no provider and claims nothing.
  warned-unpaid :
      is_nil prepared.read.warnings ≡ false → (prepared.ledger ≡ w) × (prepared.called ≡ [])
  unfolding prepare
  warned-unpaid h = unwanted _ _ _ _ h

  warned-uncached : is_nil prepared.read.warnings ≡ false → cached_by prepared.read ≡ []
  unfolding prepare
  warned-uncached h = rw (warned-published _ _ _ h) refl

-- When the lookup of what is known of the sources fails, a cycle leaves the ledger as it is and asks
-- for nothing, neither a transcript nor a synthesis nor a save; it returns the latest run, or an
-- error if there is none.
pub run_cycle-unpaid :
    {W : Type 0} (ledger : Ledger W) (provider : Provider) (equal_fold : Text → Text → Bool)
    (host : Host) (formats : Formats) (prompt_version model : Text) (cfg : Config) (a : Answers)
    (w : W)
    → is_nil (prepare ledger provider equal_fold host prompt_version model cfg a w).read.warnings
      ≡ false
    → let out = run_cycle ledger provider equal_fold host formats prompt_version model cfg a w in
      (out.0 ≡ w) × (out.1 ≡ []) × IsLast a.latest out.2
unfolding run_cycle
run_cycle-unpaid ledger provider equal_fold host formats prompt_version model cfg a w h =
    let p = prepare ledger provider equal_fold host prompt_version model cfg a w in
    let (same, called) =
      warned-unpaid ledger provider equal_fold host formats prompt_version model cfg a w h in
    let cached =
      warned-uncached ledger provider equal_fold host formats prompt_version model cfg a w h in
    let (effects, last) = warned-decided formats cfg a p a.latest h in
    (same, rw (cached, called, effects) refl, last)
