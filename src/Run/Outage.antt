-- ===== src/Run/Outage.antt =====
-- What a cycle does when its sources return nothing and one of them failed.
use second_brain.Prelude.{
  Bool, Bool-cases, List, Option, Text, [], ap, arith, false, inl, inr, is_nil, is_some, negsuc,
  none, pos, refl, some, true, ℤ, ◌++◌, ◌||◌, ◌∙◌, ◌∷◌, ◌≡◌, if◌then◌else◌, map,
}
use second_brain.Models.{Config, Result, Slice, XBookmark, YouTubeItem, items}
use second_brain.Storage.Upload.{Host}
use second_brain.Material.Candidates.{candidates_from_bookmarks, candidates_from_videos}
use second_brain.Material.Selection.{
  States, add_keys, filter_new_source_candidates, source_material_keys_from_fetched,
}
use second_brain.Material.Cache.{StatesRead, read_source_material_states}
use second_brain.Run.Transcripts.{Ledger, Provider, fetch_transcripts}
use second_brain.Run.Validation.{Formats}
use second_brain.Run.Prepare.{
  Answers, Prepared, error_texts, limit_candidates, owner_youtube_playlist_id, prepare, transcribe,
}
use second_brain.Run.Cycle.{
  Effect, cached_by, called_provider, decide, result_has_content, run_cycle,
}

-- The fetches return nothing.
abbrev pub IsEmpty : Answers → Type 0
IsEmpty a = (items a.x_items ≡ []) × (items a.playlist_items ≡ [])

-- A fetch failed, or there is no playlist to fetch.
abbrev pub is_blocked : Config → Answers → Bool
is_blocked cfg a =
    is_some a.x_error
    || is_some a.playlist_error
    || is_nil (owner_youtube_playlist_id cfg a.connections)

some_blocker :
    (missing : Bool) (text : Text) (x playlist : Option Text) (rest : List Text)
    → (is_some x || is_some playlist || missing) ≡ true
    → is_nil (error_texts x ++ (error_texts (if missing then some text else playlist) ++ rest))
      ≡ false
some_blocker missing text (some e) playlist rest h = refl
some_blocker true text none playlist rest h = refl
some_blocker false text none (some e) rest h = refl
some_blocker false text none none rest h = absurd (ground arith)

limit_candidates-nil : (limit : ℤ) → limit_candidates limit [] ≡ []
unfolding limit_candidates
limit_candidates-nil (pos n) = ground arith
limit_candidates-nil (negsuc n) = refl

module _ {W : Type 0} (ledger : Ledger W) (provider : Provider) (equal_fold : Text → Text → Bool)
    (host : Host) (prompt_version model : Text) (cfg : Config) (a : Answers) (w : W) where
  -- Nothing is transcribed.
  transcribe-empty :
      (wanted : Bool) (states : States) (videos : Slice YouTubeItem)
      → items videos ≡ []
      → let out =
          transcribe ledger provider equal_fold host prompt_version model cfg a wanted states videos
            w in
        (out.0 ≡ w) × (items out.1 ≡ []) × (out.2 ≡ [])
  unfolding fetch_transcripts
  transcribe-empty wanted states none e = (refl, refl, refl)
  transcribe-empty true states (some []) e = (refl, refl, refl)
  transcribe-empty false states (some []) e = (refl, refl, refl)
  transcribe-empty wanted states (some (v ∷ vs)) e = absurd (ground arith)

  new-empty :
      (states : States) (posts : List XBookmark) (videos : List YouTubeItem)
      → posts ≡ []
      → videos ≡ []
      → (filter_new_source_candidates host prompt_version
          (limit_candidates cfg.x_bookmark_process_limit (candidates_from_bookmarks posts)
            ++ candidates_from_videos videos)
          states
          model).0
        ≡ []
  unfolding filter_new_source_candidates candidates_from_bookmarks candidates_from_videos
  new-empty states [] [] e e' = rw (limit_candidates-nil cfg.x_bookmark_process_limit) refl
  new-empty states [] (v ∷ vs) e e' = absurd (ground arith)
  new-empty states (b ∷ bs) videos e e' = absurd (ground arith)

  -- What is prepared from nothing.
  prepare-empty :
      IsEmpty a
      → is_blocked cfg a ≡ true
      → let p = prepare ledger provider equal_fold host prompt_version model cfg a w in
        (p.ledger ≡ w)
        × (p.called ≡ [])
        × (p.read.published ≡ none)
        × (p.new_candidates ≡ [])
        × (is_nil p.blockers ≡ false)
  unfolding prepare
  prepare-empty (no_posts, no_videos) blocked =
      let playlist_id = owner_youtube_playlist_id cfg a.connections in
      let fetched = if is_nil playlist_id then none else a.playlist_items in
      let none_fetched : items fetched ≡ [] = elim (Bool-cases (is_nil playlist_id)) [
        | inl e ↦ rw e refl
        | inr e ↦ rw e no_videos
      ] in
      let no_keys : source_material_keys_from_fetched (items a.x_items) (items fetched)
            prompt_version model
          ≡ [] =
        rw (no_posts, none_fetched) (unfold source_material_keys_from_fetched add_keys in refl) in
      let (same, no_items, uncalled) = transcribe-empty _ _ fetched none_fetched in
      (
        same,
        uncalled,
        rw no_keys (unfold read_source_material_states in refl),
        new-empty _ _ _ no_posts no_items,
        some_blocker (is_nil playlist_id) _ a.x_error a.playlist_error _ blocked,
      )

module _ {W : Type 0} (formats : Formats) (cfg : Config) (a : Answers) (p : Prepared W) where
  blocked-decided :
      (latest : Result)
      → result_has_content (some latest) ≡ true
      → p.new_candidates ≡ []
      → is_nil p.blockers ≡ false
      → let out = decide formats cfg a p (some latest) in
        (out.0 ≡ []) × (out.1.result ≡ latest) × (out.1.error ≡ none)
  unfolding decide
  blocked-decided latest content new blocked = elim (Bool-cases (is_nil p.read.warnings)) [
    | inl e ↦ rw (e, new, blocked, content) (refl, refl, refl)
    | inr e ↦ rw e (refl, refl, refl)
  ]

no_effects :
    (read : StatesRead) (called : List Text) (effects : List Effect)
    → read.published ≡ none
    → called ≡ []
    → effects ≡ []
    → cached_by read ++ (map called_provider called ++ effects) ≡ []
no_effects read called effects unpublished uncalled nothing =
    rw (unpublished, uncalled, nothing) refl

-- If the latest run has content, the fetches of a cycle return nothing, and one of them failed or
-- there is no playlist to fetch, then the cycle leaves the ledger as it is and asks for nothing,
-- neither a transcript nor a synthesis nor a save nor a publication, whatever else it is
-- answered, and returns the latest run without an error.
pub run_cycle-keeps_inbox :
    {W : Type 0} (ledger : Ledger W) (provider : Provider) (equal_fold : Text → Text → Bool)
    (host : Host) (formats : Formats) (prompt_version model : Text) (cfg : Config) (a : Answers)
    (w : W) (latest : Result)
    → a.latest ≡ some latest
    → result_has_content (some latest) ≡ true
    → IsEmpty a
    → is_blocked cfg a ≡ true
    → let out = run_cycle ledger provider equal_fold host formats prompt_version model cfg a w in
      (out.0 ≡ w) × (out.1 ≡ []) × (out.2.result ≡ latest) × (out.2.error ≡ none)
unfolding run_cycle
run_cycle-keeps_inbox ledger provider equal_fold host formats prompt_version model cfg a w latest
      known content empty blocked =
    let p = prepare ledger provider equal_fold host prompt_version model cfg a w in
    let (same, uncalled, unpublished, new, blockers) =
      prepare-empty ledger provider equal_fold host prompt_version model cfg a w empty blocked in
    let decided : decide formats cfg a p a.latest ≡ decide formats cfg a p (some latest) =
      ap (decide formats cfg a p) known in
    let (effects, result, error) = blocked-decided formats cfg a p latest content new blockers in
    let nothing : (decide formats cfg a p a.latest).0 ≡ [] = ap (λ d. d.0) decided ∙ effects in
    (
      same,
      no_effects p.read p.called (decide formats cfg a p a.latest).0 unpublished uncalled nothing,
      ap (λ d. d.1.result) decided ∙ result,
      ap (λ d. d.1.error) decided ∙ error,
    )
