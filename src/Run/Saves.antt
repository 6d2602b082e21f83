-- ===== src/Run/Saves.antt =====
-- What a property of the saved result and sources says of the effects of a cycle.
use second_brain.Prelude.{
  Bool, Bool-cases, Option-cases, subst, sym, ◌⊎◌, ◌++◌, ◌&&◌, not, Bool-cases, not, ◌&&◌, is_nil,
  Bool, All, All-append, List, Option, Option-cases, Text, [], inl, inr, map, none, refl, some,
  ◌++◌, ◌∷◌, ◌≡◌,
}
use second_brain.Models.{Config, ProcessedSource, Result, items}
use second_brain.Storage.Upload.{Host}
use second_brain.Material.Cache.{StatesRead}
use second_brain.Run.Transcripts.{Ledger, Provider}
use second_brain.Run.Validation.{Formats}
use second_brain.Run.Prepare.{Answers, Prepared, prepare}
use second_brain.Run.Cycle.{
  Effect, RunOutcome, cached_by, called_provider, decide, process_prepared, processed_candidates,
  published, refreshed_cache, result_has_content, run_cycle, save_effects, saved,
}

abbrev pub IfSaved : (Result → List ProcessedSource → Type 0) → Effect → Type 0
IfSaved Q (called_provider v) = Unit
IfSaved Q (processed_candidates cs) = Unit
IfSaved Q (saved r sources) = Q r sources
IfSaved Q (published r reason) = Unit
IfSaved Q (refreshed_cache states) = Unit

pub called-IfSaved :
    (Q : Result → List ProcessedSource → Type 0) (vs : List Text)
    → All (IfSaved Q) (map called_provider vs)
called-IfSaved Q [] = tt
called-IfSaved Q (v ∷ vs) = (tt, called-IfSaved Q vs)

pub cached-IfSaved :
    (Q : Result → List ProcessedSource → Type 0) (read : StatesRead)
    → All (IfSaved Q) (cached_by read)
cached-IfSaved Q read = elim (Option-cases read.published) [
  | inl e ↦ rw e tt
  | inr (states, e) ↦ rw e (tt, tt)
]

pub save_effects-IfSaved :
    (Q : Result → List ProcessedSource → Type 0) (error : Option Text) (result : Result)
    (sources : List ProcessedSource)
    → Q result sources
    → All (IfSaved Q) (save_effects error result sources)
save_effects-IfSaved Q (some e) result sources q = (q, tt)
save_effects-IfSaved Q none result sources q = (q, (tt, tt))

module _ (formats : Formats) (cfg : Config) (a : Answers) {W : Type 0} (p : Prepared W) where
  -- A cycle goes on to synthesis, or it saves nothing.
  pub decide-cases :
      (last : Option Result)
      → (decide formats cfg a p last ≡ process_prepared formats cfg a p)
        ⊎ ((Q : Result → List ProcessedSource → Type 0)
            → All (IfSaved Q) (decide formats cfg a p last).0)
  unfolding decide
  decide-cases none = elim (Bool-cases (not (is_nil p.read.warnings))) [
    | inl e ↦ rw e (inr (λ Q. tt))
    | inr e ↦ rw e (inl refl)
  ]
  decide-cases (some last) =
      let seen =
        not (is_nil p.candidates && is_nil (items p.videos) && is_nil (items p.bookmarks)) in
      let noop = is_nil p.new_candidates && is_nil p.blockers && seen in
      let kept =
        is_nil p.new_candidates && not (is_nil p.blockers) && result_has_content (some last) in
      elim (Bool-cases (not (is_nil p.read.warnings))) [
        | inl e ↦ rw e (inr (λ Q. tt))
        | inr e ↦ elim (Bool-cases noop) [
          | inl e' ↦ rw (e, e') (inr (λ Q. (tt, tt)))
          | inr e' ↦ elim (Bool-cases kept) [
            | inl e'' ↦ rw (e, e', e'') (inr (λ Q. tt))
            | inr e'' ↦ rw (e, e', e'') (inl refl)
          ]
        ]
      ]

  -- What holds of a save that follows synthesis holds of every save.
  pub decide-IfSaved :
      (Q : RunOutcome → Result → List ProcessedSource → Type 0) (last : Option Result)
      → All (IfSaved (Q (process_prepared formats cfg a p).1)) (process_prepared formats cfg a p).0
      → All (IfSaved (Q (decide formats cfg a p last).1)) (decide formats cfg a p last).0
  decide-IfSaved Q last h = elim (decide-cases last) [
    | inl e ↦ subst (λ (o : List Effect × RunOutcome). All (IfSaved (Q o.1)) o.0) (sym e) h
    | inr f ↦ f (Q (decide formats cfg a p last).1)
  ]

-- The ledger and the cache aside, the effects of a cycle are those of its decision.
pub run_cycle-IfSaved :
    {W : Type 0} (ledger : Ledger W) (provider : Provider) (equal_fold : Text → Text → Bool)
    (host : Host) (formats : Formats) (prompt_version model : Text) (cfg : Config) (a : Answers)
    (w : W) (Q : Result → List ProcessedSource → Type 0)
    → All
        (IfSaved Q)
        (decide formats cfg a
          (prepare ledger provider equal_fold host prompt_version model cfg a w)
          a.latest).0
    → All
        (IfSaved Q)
        (run_cycle ledger provider equal_fold host formats prompt_version model cfg a w).1
unfolding run_cycle
run_cycle-IfSaved ledger provider equal_fold host formats prompt_version model cfg a w Q h =
    let p = prepare ledger provider equal_fold host prompt_version model cfg a w in
    let (effects, outcome) = decide formats cfg a p a.latest in
    All-append _ (cached_by p.read) (map called_provider p.called ++ effects)
      (cached-IfSaved _ p.read)
      (All-append _ (map called_provider p.called) effects (called-IfSaved _ p.called) h)
