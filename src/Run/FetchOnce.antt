-- ===== src/Run/FetchOnce.antt =====
-- The paid provider is called at most once for a video, over any sequence of refreshes, if the
-- store grants a claim at most once.
use second_brain.Prelude.{
  Bool, List, Text, [], arith, err, false, inl, inr, Option-cases, ◌⊎◌, sym, none, ok, refl, trim,
  true, ℤ, ◌++◌, ◌==◌, ◌∷◌, ◌≡◌, ◌≢◌, Bool-cases, not, is_nil, ◌&&◌, Outcome, is_some, eq_iff,
  subst,
}
use second_brain.Models.{YouTubeItem}
use second_brain.Material.Selection.{States}
use second_brain.Material.Union.{IsDistinct, append-IsDistinct, find_id, find_id-append}
use second_brain.Run.Transcripts.{
  Ledger, Provider, TranscriptSettings, fetch_claimed, fetch_transcript, fetch_transcripts,
  is_ingested,
}

-- What a ledger promises: a claim that was granted for a video is held from then on, and is not
-- granted again.
pub record ClaimsOnce {W : Type 0} (ledger : Ledger W) (owner : Text) : Type 1 where
  pub Held : Text → W → Type 0
  pub claim-Held :
      (v : Text) (limit : ℤ) (w : W)
      → (ledger.claim owner v limit w).1 ≡ ok true
      → Held v (ledger.claim owner v limit w).0
  pub refused :
      (v : Text) (limit : ℤ) (w : W) → Held v w → (ledger.claim owner v limit w).1 ≢ ok true
  pub claim_keeps :
      (u v : Text) (limit : ℤ) (w : W) → Held u w → Held u (ledger.claim owner v limit w).0
  pub complete_keeps :
      (u v status detail : Text) (w : W)
      → Held u w
      → Held u (ledger.complete owner v status detail w)

module _ {W : Type 0} (ledger : Ledger W) (provider : Provider) (equal_fold : Text → Text → Bool)
    (settings : TranscriptSettings) where
  -- Refreshes, one after the other, each with what it knows of the materials and what it fetched.
  unfoldable pub refreshes : List (States × List YouTubeItem) → W → W × List Text
  unfolding fetch_transcripts
  refreshes [] w = (w, [])
  refreshes ((states, fetched) ∷ later) w =
      let (w', items, called) =
        fetch_transcripts ledger provider equal_fold settings states fetched w in
      let (w'', called') = refreshes later w' in (w'', called ++ called')

  module _ (once : ClaimsOnce ledger settings.owner_id) where
    -- The calls of a step: distinct, for videos that were not held and are held behind it; and what
    -- was held is still held.
    record Calls (w w' : W) (called : List Text) : Type 0 where
      distinct : IsDistinct trim called
      fresh : (v : Text) → is_some (find_id trim v called) ≡ true → ¬ once.Held v w
      held : (v : Text) → is_some (find_id trim v called) ≡ true → once.Held v w'
      kept : (v : Text) → once.Held v w → once.Held v w'

    Calls-nil : (w : W) → Calls w w []
    unfolding find_id
    Calls-nil w = record {
      distinct = tt;
      fresh = λ v h. absurd (ground arith);
      held = λ v h. absurd (ground arith);
      kept = λ v h. h;
    }

    Calls-append :
        (w w' w'' : W) (c c' : List Text) → Calls w w' c → Calls w' w'' c' → Calls w w'' (c ++ c')
    Calls-append w w' w'' c c' one two =
        let found : (v : Text)
            → is_some (find_id trim v (c ++ c')) ≡ true
            → (is_some (find_id trim v c) ≡ true) ⊎ (is_some (find_id trim v c') ≡ true) =
          λ v h. elim (Option-cases (find_id trim v c)) [
            | inl e ↦ inr (ground (arith, find_id-append trim v c c'))
            | inr (x, e) ↦ inl (ground arith)
          ] in
        record {
          distinct = append-IsDistinct trim c c' one.distinct two.distinct (λ v h.
              elim (Option-cases (find_id trim v c')) [
                | inl e ↦ e
                | inr (x, e) ↦ absurd (two.fresh v (rw e refl) (one.held v h))
              ]);
          fresh = λ v h held. elim (found v h) [
            | inl e ↦ one.fresh v e held
            | inr e ↦ two.fresh v e (one.kept v held)
          ];
          held =
              λ v h. elim (found v h) [ inl e ↦ two.kept v (one.held v e) | inr e ↦ two.held v e ];
          kept = λ v held. two.kept v (one.kept v held);
        }

    -- The call for a video whose claim was granted.
    granted-Calls :
        (v : Text) (status detail : Text) (w : W)
        → (ledger.claim settings.owner_id (trim v) settings.monthly_limit w).1 ≡ ok true
        → let asked = ledger.claim settings.owner_id (trim v) settings.monthly_limit w in
          Calls w (ledger.complete settings.owner_id (trim v) status detail asked.0) (v ∷ [])
    unfolding find_id
    granted-Calls v status detail w granted =
        let limit = settings.monthly_limit in
        let asked = ledger.claim settings.owner_id (trim v) limit w in
        let same : (u : Text) → is_some (find_id trim u (v ∷ [])) ≡ true → trim v ≡ u =
          λ u h. ground (arith, eq_iff (trim v) u) in
        record {
          distinct = (refl, tt);
          fresh = λ u h held.
              once.refused (trim v) limit w (subst (λ t. once.Held t w) (sym (same u h)) held)
                granted;
          held = λ u h. once.complete_keeps u (trim v) status detail asked.0 (
              subst (λ t. once.Held t asked.0) (same u h)
                (once.claim-Held (trim v) limit w granted));
          kept = λ u held.
              once.complete_keeps u (trim v) status detail asked.0
                (once.claim_keeps u (trim v) limit w held);
        }

    -- What a claim that is not granted leaves.
    asked-Calls :
        (v : Text) (w : W)
        → Calls w (ledger.claim settings.owner_id v settings.monthly_limit w).0 []
    unfolding find_id
    asked-Calls v w = record {
      distinct = tt;
      fresh = λ u h. absurd (ground arith);
      held = λ u h. absurd (ground arith);
      kept = λ u held. once.claim_keeps u v settings.monthly_limit w held;
    }

    claimed-Calls :
        (item : YouTubeItem) (w : W) (answer : Outcome Text Bool)
        → let asked =
            ledger.claim settings.owner_id (trim item.video_id) settings.monthly_limit w in
          asked.1 ≡ answer
          → let out = fetch_claimed ledger provider equal_fold settings item (asked.0, answer) in
            Calls w out.0 out.2
    unfolding fetch_claimed
    claimed-Calls item w (err e) h = asked-Calls (trim item.video_id) w
    claimed-Calls item w (ok false) h = asked-Calls (trim item.video_id) w
    claimed-Calls item w (ok true) h = granted-Calls item.video_id _ _ w h

    fetch_transcript-Calls :
        (states : States) (item : YouTubeItem) (w : W)
        → let out = fetch_transcript ledger provider equal_fold settings states item w in
          Calls w out.0 out.2
    unfolding fetch_transcript
    fetch_transcript-Calls states item w =
        let v = item.video_id in
        let asked = ledger.claim settings.owner_id (trim v) settings.monthly_limit w in
        let untested = not (is_nil settings.test_video_id) && not (v == settings.test_video_id) in
        elim (Bool-cases untested) [
          | inl e ↦ rw e (Calls-nil w)
          | inr e ↦
              elim (Bool-cases (is_ingested ledger provider equal_fold settings states item)) [
                | inl e' ↦ rw (e, e') (Calls-nil w)
                | inr e' ↦ elim (Bool-cases provider.configured) [
                  | inr e'' ↦ simp (e, e', e'') (Calls-nil w)
                  | inl e'' ↦ simp (e, e', e'') (claimed-Calls item w asked.1 refl)
                ]
              ]
        ]

    fetch_transcripts-Calls :
        (states : States) (fetched : List YouTubeItem) (w : W)
        → let out = fetch_transcripts ledger provider equal_fold settings states fetched w in
          Calls w out.0 out.2
    unfolding fetch_transcripts
    fetch_transcripts-Calls states [] w = Calls-nil w
    fetch_transcripts-Calls states (item ∷ rest) w =
        let out = fetch_transcript ledger provider equal_fold settings states item w in
        Calls-append w out.0 _ _ _ (fetch_transcript-Calls states item w)
          (fetch_transcripts-Calls states rest out.0)

    refreshes-Calls :
        (rs : List (States × List YouTubeItem)) (w : W)
        → Calls w (refreshes rs w).0 (refreshes rs w).1
    unfolding refreshes
    refreshes-Calls [] w = Calls-nil w
    refreshes-Calls ((states, fetched) ∷ later) w =
        let out = fetch_transcripts ledger provider equal_fold settings states fetched w in
        Calls-append w out.0 _ _ _ (fetch_transcripts-Calls states fetched w)
          (refreshes-Calls later out.0)

-- If the ledger grants a claim for a video at most once: in any sequence of refreshes the provider
-- is called at most once for a video, spaces around its identifier aside, and never for one whose
-- claim was granted before.
pub refreshes_once :
    {W : Type 0} (ledger : Ledger W) (provider : Provider) (equal_fold : Text → Text → Bool)
    (settings : TranscriptSettings) (once : ClaimsOnce ledger settings.owner_id)
    (rs : List (States × List YouTubeItem)) (w : W)
    → let called = (refreshes ledger provider equal_fold settings rs w).1 in
      IsDistinct trim called × ((v : Text) → once.Held v w → find_id trim v called ≡ none)
refreshes_once ledger provider equal_fold settings once rs w =
    let calls = refreshes-Calls ledger provider equal_fold settings once rs w in
    let called = (refreshes ledger provider equal_fold settings rs w).1 in
    (
      calls.distinct,
      λ v held. elim (Option-cases (find_id trim v called)) [
        | inl e ↦ e
        | inr (x, e) ↦ absurd (calls.fresh v (rw e refl) held)
      ],
    )
