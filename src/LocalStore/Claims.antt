-- ===== src/LocalStore/Claims.antt =====
-- A claim is made at most once: whatever is done to the store after it, no claim of the same
-- video succeeds again.
use second_brain.Prelude.{
  All, List, Option-cases, Outcome-cases, Text, [], arith, false, has_key, inl, inr, insert,
  lookup-insert, lookup-insert_self, ok, refl, some, subst, sym, true, ℤ, ◌∙◌, ◌∷◌, ◌≡◌, ◌≢◌,
}
use second_brain.Models.{Time}
use second_brain.LocalStore.Files.{Files, Io, Json, TranscriptRequestRecord}
use second_brain.LocalStore.Latest.{}
use second_brain.LocalStore.Requests.{
  Requests, claim_records, claim_youtube_transcript_request, claimed_record, completed_record,
  open_requests, transcript_request_key, write_transcript_requests,
}
use second_brain.LocalStore.Replacement.{RoundTrips}
use second_brain.LocalStore.Calls.{
  Call, Holds, Keeps, claim, complete, feedback, open_requests_ok, opened-Holds, perform_all,
  perform_all-Holds, save, write_ok-Holds,
}

abbrev pub HasKey : Text → Requests → Type 0
HasKey key m = has_key key m ≡ true

insert-HasKey :
    (key j : Text) (r : TranscriptRequestRecord) (m : Requests)
    → HasKey key m
    → HasKey key (insert j r m)
insert-HasKey key j r m h = ground (arith, lookup-insert j key r m)

claim_records-some :
    (start now : Time) (limit : ℤ) (key : Text) (m m' : Requests)
    → claim_records start now limit key m ≡ some m'
    → (m' ≡ insert key (claimed_record now) m) × (has_key key m ≡ false)
unfolding claim_records
claim_records-some start now limit key m m' h = (ground arith, ground arith)

pub Keeps-HasKey : (key : Text) (c : Call) → Keeps (HasKey key) c
Keeps-HasKey key (claim io start now owner video limit) = λ j m m' h e.
    let (same, fresh) = claim_records-some start now limit j m m' e in
    rw same (insert-HasKey key j (claimed_record now) m h)
Keeps-HasKey key (complete io now owner video status detail) =
    λ j r m h e. insert-HasKey key j (completed_record now status detail r) m h
Keeps-HasKey key (save io result) = tt
Keeps-HasKey key (feedback io event) = tt

pub All-Keeps : (key : Text) (cs : List Call) → All (Keeps (HasKey key)) cs
All-Keeps key [] = tt
All-Keeps key (c ∷ cs) = (Keeps-HasKey key c, All-Keeps key cs)

module _ {Raw : Type 0} (json : Json Raw) (path : Text) (laws : RoundTrips json) where
  pub claim_ok-HasKey :
      (io : Io) (start now : Time) (owner video : Text) (limit : ℤ) (files : Files Raw)
      → (claim_youtube_transcript_request json path io start now owner video limit files).1
        ≡ ok true
      → (key : Text) × (transcript_request_key owner video ≡ ok key)
        × Holds json path
            (HasKey key)
            (claim_youtube_transcript_request json path io start now owner video limit files).0
  unfolding claim_youtube_transcript_request
  claim_ok-HasKey io start now owner video limit files h =
      let out = claim_youtube_transcript_request json path io start now owner video limit files in
      elim (Outcome-cases (open_requests json path io owner video files)) [
        | inr (e, ho) ↦ absurd (ground arith)
        | inl ((key, m), ho) ↦ elim (Option-cases (claim_records start now limit key m)) [
          | inl hn ↦ absurd (ground arith)
          | inr (m', hm) ↦
              let same : out.0 ≡ (write_transcript_requests json path io m' files).0 =
                ground arith in
              let (known, _, _) = open_requests_ok json path laws io owner video key m files ho in
              let (inserted, _) = claim_records-some start now limit key m m' hm in
              let there : HasKey key m' =
                rw (inserted, lookup-insert_self key (claimed_record now) m) refl in
              (
                key,
                known,
                subst (λ fs. Holds json path (HasKey key) fs) (sym same)
                    (write_ok-Holds json path laws (HasKey key) io m' files there (ground arith)),
              )
        ]
      ]

  pub claim-HasKey :
      (io : Io) (start now : Time) (owner video key : Text) (limit : ℤ) (files : Files Raw)
      → Holds json path (HasKey key) files
      → transcript_request_key owner video ≡ ok key
      → (claim_youtube_transcript_request json path io start now owner video limit files).1
        ≢ ok true
  unfolding claim_youtube_transcript_request
  claim-HasKey io start now owner video key limit files held known h =
      elim (Outcome-cases (open_requests json path io owner video files)) [
        | inr (e, ho) ↦ ground arith
        | inl ((j, m), ho) ↦ elim (Option-cases (claim_records start now limit j m)) [
          | inl hn ↦ ground arith
          | inr (m', hm) ↦
              let (known', _, _) = open_requests_ok json path laws io owner video j m files ho in
              let same : j ≡ key = ground arith in
              let (_, fresh) = claim_records-some start now limit j m m' hm in
              let there : HasKey key m =
                opened-Holds json path laws (HasKey key) io owner video j m files held ho in
              let fresh' : has_key key m ≡ false = rw same at fresh in cc
        ]
      ]

  -- Given that the documents round-trip through JSON: once a claim has succeeded, and whatever
  -- calls follow and whatever the operating system answers them, no claim with the same key
  -- succeeds again.
  pub claim_once :
      (io io' : Io) (start now start' now' : Time) (owner video owner' video' : Text)
      (limit limit' : ℤ) (cs : List Call) (files : Files Raw)
      → (claim_youtube_transcript_request json path io start now owner video limit files).1
        ≡ ok true
      → transcript_request_key owner' video' ≡ transcript_request_key owner video
      → (claim_youtube_transcript_request json path io' start' now' owner' video' limit' (
          perform_all json path cs
            (claim_youtube_transcript_request json path io start now owner video limit files).0)).1
        ≢ ok true
  claim_once io io' start now start' now' owner video owner' video' limit limit' cs files h same =
      let (key, known, held) = claim_ok-HasKey io start now owner video limit files h in
      claim-HasKey io' start' now' owner' video' key limit' _
        (perform_all-Holds json path laws (HasKey key) cs _ (All-Keeps key cs) held) (same ∙ known)
