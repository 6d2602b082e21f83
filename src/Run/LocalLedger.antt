-- ===== src/Run/LocalLedger.antt =====
-- The local store is a ledger that grants a claim at most once.
use second_brain.Prelude.{Outcome, Text, [], ok, suc, ℕ, ℤ, ◌∷◌, ◌≡◌, Bool}
use second_brain.Models.{Time}
use second_brain.LocalStore.Files.{Files, Io, Json}
use second_brain.LocalStore.Requests.{
  claim_youtube_transcript_request, complete_youtube_transcript_request, transcript_request_key,
}
use second_brain.LocalStore.Replacement.{RoundTrips}
use second_brain.LocalStore.Calls.{Holds, claim, complete, perform, perform_all, perform_all-Holds}
use second_brain.LocalStore.Claims.{All-Keeps, HasKey, claim-HasKey, claim_ok-HasKey}
use second_brain.Run.Transcripts.{Ledger}
use second_brain.Run.FetchOnce.{ClaimsOnce}

-- What the system and the clock answer to the call with a number: the start of the month, the time.
pub record Answered : Type 0 where
  pub io : Io
  pub month_start : Time
  pub now : Time

module _ {Raw : Type 0} (json : Json Raw) (path : Text) (answered : ℕ → Answered) where
  -- The number of calls so far, and the files.
  abbrev pub Counted : Type 0
  Counted = ℕ × Files Raw

  unfoldable pub local_claim : Text → Text → ℤ → Counted → Counted × Outcome Text Bool
  local_claim owner video limit (n, files) =
      let a = answered n in
      let (files', granted) =
        claim_youtube_transcript_request json path a.io a.month_start a.now owner video limit
          files in
      ((suc n, files'), granted)

  unfoldable pub local_complete : Text → Text → Text → Text → Counted → Counted
  local_complete owner video status detail (n, files) =
      let a = answered n in
      (
        suc n,
        (complete_youtube_transcript_request json path a.io a.now owner video status detail
            files).0,
      )

  abbrev pub local_ledger : Ledger Counted
  unfolding local_claim local_complete
  local_ledger = record { claim = local_claim; complete = local_complete }

  abbrev pub HeldAt : Text → Text → Counted → Type 0
  HeldAt owner video w =
      (key : Text) × (transcript_request_key owner video ≡ ok key)
      × Holds json path (HasKey key) w.1

  pub local_ledger-ClaimsOnce : RoundTrips json → (owner : Text) → ClaimsOnce local_ledger owner
  unfolding local_claim local_complete
  local_ledger-ClaimsOnce laws owner = record {
    Held = HeldAt owner;
    claim-Held = λ v limit w h.
        let a = answered w.0 in
        claim_ok-HasKey json path laws a.io a.month_start a.now owner v limit w.1 h;
    refused = λ v limit w (key, known, held).
        let a = answered w.0 in
        claim-HasKey json path laws a.io a.month_start a.now owner v key limit w.1 held known;
    claim_keeps = λ u v limit w (key, known, held).
        let a = answered w.0 in
        let calls = claim a.io a.month_start a.now owner v limit ∷ [] in
        (
          key,
          known,
          unfold perform_all perform in
              perform_all-Holds json path laws (HasKey key) calls w.1 (All-Keeps key calls) held,
        );
    complete_keeps = λ u v status detail w (key, known, held).
        let a = answered w.0 in
        let calls = complete a.io a.now owner v status detail ∷ [] in
        (
          key,
          known,
          unfold perform_all perform in
              perform_all-Holds json path laws (HasKey key) calls w.1 (All-Keeps key calls) held,
        );
  }
