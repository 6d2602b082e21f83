-- ===== src/LocalStore/Latest.antt =====
-- `ReadLatest`, `SaveRun`, `SaveLatest`, `ReadDigests`, `ReadDigestIllustration`, `SaveDigest`
-- and `SaveFeedback`. `path` is the field of the store; the mutex makes each method one step.
use second_brain.Prelude.{
  List, Option, Outcome, Text, [], codes, err, if◌then◌else◌, insert, is_nil, lookup, none, not, ok,
  some, ◌++◌, ◌==◌, ◌>>=◌, ◌||◌, ◌∷◌,
}
use second_brain.Models.{DigestIllustration, DigestIssue, FeedbackEvent, Result}
use second_brain.LocalStore.Files.{Files, Io, Json, check, read_file, replace_file}

unfoldable pub illustration_of : Text → DigestIssue → Option DigestIllustration
illustration_of digest_id digest =
    if not (digest.id == digest_id) || is_nil digest.illustration_base64
    then none
    else some (record {
      id = digest.id;
      alt = digest.illustration_alt;
      mime_type = digest.illustration_mime_type;
      base64 = digest.illustration_base64;
    })

module _ {Raw : Type 0} (json : Json Raw) (path : Text) where
  unfoldable pub read_latest : Io → Files Raw → Outcome Text (Option Result)
  read_latest io files = check io.cancelled >>= λ _. read_file io path files >>= λ found.
      elim found [
        | none ↦ ok none
        | some raw ↦ json.decode_result raw >>= λ result. ok (some result)
      ]

  unfoldable pub save_run : Io → Result → Files Raw → Files Raw × Outcome Text (Unit {0})
  save_run io result files = elim io.cancelled [
    | some e ↦ (files, err e)
    | none ↦ elim (json.encode_result result) [
      | err e ↦ (files, err e)
      | ok raw ↦ replace_file json io path raw files
    ]
  ]

  unfoldable pub save_latest : Io → Result → Files Raw → Files Raw × Outcome Text (Unit {0})
  save_latest io result files = save_run io result files

  -- `limit` is not read.
  unfoldable pub read_digests : Io → Files Raw → Outcome Text (List DigestIssue)
  read_digests io files = read_latest io files >>= λ latest. elim latest [
    | none ↦ ok []
    | some result ↦ elim result.digest [ none ↦ ok [] | some digest ↦ ok (digest ∷ []) ]
  ]

  unfoldable pub read_digest_illustration :
      Io → Text → Files Raw → Outcome Text (Option DigestIllustration)
  read_digest_illustration io digest_id files = read_latest io files >>= λ latest. elim latest [
    | none ↦ ok none
    | some result ↦ elim result.digest [
      | none ↦ ok none
      | some digest ↦ ok (illustration_of digest_id digest)
    ]
  ]

  -- The read and the write are two critical sections; `between` is the file system that the
  -- write finds, and `io` and `io'` are what the two calls are answered.
  unfoldable pub save_digest :
      Io
      → Io
      → (Files Raw → Files Raw)
      → DigestIssue
      → Files Raw
      → Files Raw × Outcome Text (Option DigestIssue)
  save_digest io io' between digest files = elim (read_latest io files) [
    | err e ↦ (files, err e)
    | ok none ↦ (files, ok none)
    | ok (some latest) ↦
        let (files', saved) =
          save_run io' (record latest { digest = some digest }) (between files) in
        (files', saved >>= λ _. ok (some digest))
  ]

  -- Appends a line to the feedback file.
  unfoldable pub save_feedback :
      Io → FeedbackEvent → Files Raw → Files Raw × Outcome Text (Unit {0})
  save_feedback io event files =
      let feedback_path = path ++ codes ".feedback.jsonl" in
      elim (check io.cancelled >>= λ _. json.encode_event event) [
        | err e ↦ (files, err e)
        | ok raw ↦ elim (check io.mkdir_error >>= λ _. check io.open_error) [
          | err e ↦ (files, err e)
          | ok _ ↦
              let before = lookup feedback_path files in
              elim io.write_error [
                | some e ↦ (insert feedback_path (json.append before (json.torn raw)) files, err e)
                | none ↦ (insert feedback_path (json.append before raw) files, ok tt)
              ]
        ]
      ]
