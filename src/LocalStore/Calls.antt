-- ===== src/LocalStore/Calls.antt =====
-- Sequences of calls of the local store, and what they keep of the transcript requests.
use second_brain.Prelude.{
  append-ne_self, append-ne, List, Text, [], ok, ℤ, ◌∷◌, ◌≡◌, codes, ◌++◌, ◌≢◌, some, lookup, sym,
  ◌∙◌, arith, insert, Outcome-cases, subst, inr, inl, Bool-cases, is_ok, ==_refl, Option-cases,
  eq_iff, All, lookup-insert,
}
use second_brain.Models.{FeedbackEvent, Result, Time}
use second_brain.LocalStore.Files.{
  Files, Io, Json, read_file, TranscriptRequestRecord, replace_file,
}
use second_brain.LocalStore.Latest.{save_feedback, save_run}
use second_brain.LocalStore.Requests.{
  Requests, claim_youtube_transcript_request, complete_youtube_transcript_request,
  read_transcript_requests, claim_records, write_transcript_requests, open_requests, requests_path,
  transcript_request_key, completed_record,
}
use second_brain.LocalStore.Replacement.{IsQuiet, RoundTrips, replace_file-Replaces, ne_temporary}

-- The method calls that write, with what the clock and the system answer.
pub data Call : Type 0 where
  claim : Io → Time → Time → Text → Text → ℤ → Call
  complete : Io → Time → Text → Text → Text → Text → Call
  save : Io → Result → Call
  feedback : Io → FeedbackEvent → Call

module _ {Raw : Type 0} (json : Json Raw) (path : Text) where
  unfoldable pub perform : Call → Files Raw → Files Raw
  perform (claim io start now owner video limit) files =
      (claim_youtube_transcript_request json path io start now owner video limit files).0
  perform (complete io now owner video status detail) files =
      (complete_youtube_transcript_request json path io now owner video status detail files).0
  perform (save io result) files = (save_run json path io result files).0
  perform (feedback io event) files = (save_feedback json path io event files).0

  unfoldable pub perform_all : List Call → Files Raw → Files Raw
  perform_all [] files = files
  perform_all (c ∷ cs) files = perform_all cs (perform c files)

  -- Every undisturbed read of the request file returns records that satisfy `P`.
  abbrev pub Holds {ℓ} : (Requests → Type ℓ) → Files Raw → Type ℓ
  Holds P files =
      (m : Requests) × ((io : Io) → IsQuiet io → read_transcript_requests json path io files ≡ ok m)
      × P m

-- A call keeps `P` if the records that it writes satisfy `P` whenever those that it reads do.
abbrev pub Keeps {ℓ} : (Requests → Type ℓ) → Call → Type ℓ
Keeps P (claim io start now owner video limit) =
    (key : Text) (m m' : Requests) → P m → claim_records start now limit key m ≡ some m' → P m'
Keeps P (complete io now owner video status detail) =
    (key : Text) (r : TranscriptRequestRecord) (m : Requests)
    → P m
    → lookup key m ≡ some r
    → P (insert key (completed_record now status detail r) m)
Keeps P (save io result) = Unit
Keeps P (feedback io event) = Unit

requests_path-ne : (path : Text) → path ++ codes ".youtube-transcript-requests.json" ≢ path
unfolding codes
requests_path-ne path e = append-ne_self path _ _ (sym e)

requests_path-ne_temporary :
    (path : Text) → path ++ codes ".youtube-transcript-requests.json" ≢ path ++ codes ".tmp"
requests_path-ne_temporary path = append-ne path _ _ (unfold codes in λ e. ground arith)

requests_path-ne_feedback :
    (path : Text)
    → path ++ codes ".youtube-transcript-requests.json" ≢ path ++ codes ".feedback.jsonl"
requests_path-ne_feedback path = append-ne path _ _ (unfold codes in λ e. ground arith)

module _ {Raw : Type 0} (json : Json Raw) (path : Text) (laws : RoundTrips json) where
  pub read-of_lookup :
      (io : Io) (files files' : Files Raw)
      → lookup (requests_path json path) files ≡ lookup (requests_path json path) files'
      → read_transcript_requests json path io files ≡ read_transcript_requests json path io files'
  unfolding read_transcript_requests read_file
  read-of_lookup io files files' h = ground arith

  pub open_requests_ok :
      (io : Io) (owner video key : Text) (m : Requests) (files : Files Raw)
      → open_requests json path io owner video files ≡ ok (key, m)
      → (transcript_request_key owner video ≡ ok key)
        × IsQuiet io
        × (read_transcript_requests json path io files ≡ ok m)
  unfolding open_requests read_transcript_requests read_file
  open_requests_ok io owner video key m files h =
      (ground arith, (ground arith, ground arith), ground arith)

  pub read_stored :
      (io : Io) (m : Requests) (raw : Raw) (files : Files Raw)
      → IsQuiet io
      → json.encode_requests m ≡ ok raw
      → lookup (requests_path json path) files ≡ some raw
      → read_transcript_requests json path io files ≡ ok m
  unfolding read_transcript_requests read_file
  read_stored io m raw files quiet e h = ground (arith, laws.requests_back m raw e)

  save_run_frame :
      (io : Io) (result : Result) (files : Files Raw)
      → lookup (requests_path json path) (save_run json path io result files).0
        ≡ lookup (requests_path json path) files
  unfolding save_run
  save_run_frame io result files =
      let file = requests_path json path in
      elim (Outcome-cases (json.encode_result result)) [
        | inr (e, h) ↦ ground arith
        | inl (raw, h) ↦
            let seen =
              replace_file-Replaces json io path raw files file (requests_path-ne_temporary path) in
            ground (arith, eq_iff path file, requests_path-ne path)
      ]

  save_feedback_frame :
      (io : Io) (event : FeedbackEvent) (files : Files Raw)
      → lookup (requests_path json path) (save_feedback json path io event files).0
        ≡ lookup (requests_path json path) files
  unfolding save_feedback
  save_feedback_frame io event files =
      let file = requests_path json path in
      let log = path ++ codes ".feedback.jsonl" in
      elim (Outcome-cases (json.encode_event event)) [
        | inr (e, h) ↦ ground arith
        | inl (raw, h) ↦ ground (
          arith,
          eq_iff log file,
          requests_path-ne_feedback path,
          lookup-insert log file (json.append (lookup log files) raw) files,
          lookup-insert log file (json.append (lookup log files) (json.torn raw)) files,
        )
      ]

  module _ {ℓ} (P : Requests → Type ℓ) where
    moved-Holds :
        (files files' : Files Raw)
        → lookup (requests_path json path) files' ≡ lookup (requests_path json path) files
        → Holds json path P files
        → Holds json path P files'
    moved-Holds files files' e (m, back, p) =
        (m, λ io q. read-of_lookup io files' files e ∙ back io q, p)

    write-Holds :
        (io : Io) (m : Requests) (files : Files Raw)
        → P m
        → Holds json path P files
        → Holds json path P (write_transcript_requests json path io m files).0
    unfolding write_transcript_requests
    write-Holds io m files p h =
        let file = requests_path json path in
        elim (Outcome-cases (json.encode_requests m)) [
          | inr (e, he) ↦ moved-Holds files _ (ground arith) h
          | inl (raw, hr) ↦
              let out = replace_file json io file raw files in
              let seen = replace_file-Replaces json io file raw files file (ne_temporary file) in
              let same : (write_transcript_requests json path io m files).0 ≡ out.0 =
                ground arith in
              elim (Bool-cases (is_ok out.1)) [
                | inl done ↦
                    (m, λ io' q. read_stored io' m raw _ q hr (ground (arith, ==_refl file)), p)
                | inr failed ↦ moved-Holds files _ (ground arith) h
              ]
        ]

    pub write_ok-Holds :
        (io : Io) (m : Requests) (files : Files Raw)
        → P m
        → (write_transcript_requests json path io m files).1 ≡ ok tt
        → Holds json path P (write_transcript_requests json path io m files).0
    unfolding write_transcript_requests
    write_ok-Holds io m files p h =
        let file = requests_path json path in
        elim (Outcome-cases (json.encode_requests m)) [
          | inr (e, he) ↦ absurd (ground arith)
          | inl (raw, hr) ↦
              let seen = replace_file-Replaces json io file raw files file (ne_temporary file) in
              (m, λ io' q. read_stored io' m raw _ q hr (ground (arith, ==_refl file)), p)
        ]

    pub opened-Holds :
        (io : Io) (owner video key : Text) (m : Requests) (files : Files Raw)
        → Holds json path P files
        → open_requests json path io owner video files ≡ ok (key, m)
        → P m
    opened-Holds io owner video key m files (n, back, p) h =
        let (_, q, e) = open_requests_ok io owner video key m files h in
        let same : n ≡ m = ground (arith, back io q) in subst P same p

    -- One call keeps what holds of the records.
    perform-Holds :
        (c : Call) (files : Files Raw)
        → Keeps P c
        → Holds json path P files
        → Holds json path P (perform json path c files)
    unfolding perform claim_youtube_transcript_request complete_youtube_transcript_request
    perform-Holds (claim io start now owner video limit) files k h =
        let out = claim_youtube_transcript_request json path io start now owner video limit files in
        elim (Outcome-cases (open_requests json path io owner video files)) [
          | inr (e, ho) ↦ moved-Holds files _ (ground arith) h
          | inl ((key, m), ho) ↦ elim (Option-cases (claim_records start now limit key m)) [
            | inl hn ↦ moved-Holds files _ (ground arith) h
            | inr (m', hm) ↦
                let same : out.0 ≡ (write_transcript_requests json path io m' files).0 =
                  ground arith in
                subst (λ fs. Holds json path P fs) (sym same)
                  (write-Holds io m' files
                    (k key m m' (opened-Holds io owner video key m files h ho) hm) h)
          ]
        ]
    perform-Holds (complete io now owner video status detail) files k h =
        let out =
          complete_youtube_transcript_request json path io now owner video status detail files in
        elim (Outcome-cases (open_requests json path io owner video files)) [
          | inr (e, ho) ↦ moved-Holds files _ (ground arith) h
          | inl ((key, m), ho) ↦ elim (Option-cases (lookup key m)) [
            | inl hn ↦ moved-Holds files _ (ground arith) h
            | inr (r, hr) ↦
                let m' = insert key (completed_record now status detail r) m in
                let same : out.0 ≡ (write_transcript_requests json path io m' files).0 =
                  ground arith in
                subst (λ fs. Holds json path P fs) (sym same)
                  (write-Holds io m' files
                    (k key r m (opened-Holds io owner video key m files h ho) hr) h)
          ]
        ]
    perform-Holds (save io result) files k h =
        moved-Holds files _ (save_run_frame io result files) h
    perform-Holds (feedback io event) files k h =
        moved-Holds files _ (save_feedback_frame io event files) h

    -- What each call of a sequence keeps holds at its end.
    pub perform_all-Holds :
        (cs : List Call) (files : Files Raw)
        → All (Keeps P) cs
        → Holds json path P files
        → Holds json path P (perform_all json path cs files)
    unfolding perform_all
    perform_all-Holds [] files ks h = h
    perform_all-Holds (c ∷ cs) files (k, ks) h =
        perform_all-Holds cs (perform json path c files) ks (perform-Holds c files k h)
