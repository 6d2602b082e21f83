-- ===== src/LocalStore/Requests.antt =====
-- `ClaimYouTubeTranscriptRequest` and `CompleteYouTubeTranscriptRequest`: a claim is written
-- before the paid provider is called, at most once for a video and `monthlyLimit` times a month.
use second_brain.Prelude.{
  Bool, Dict, Option, Outcome, Text, [], codes, err, false, has_key, if◌then◌else◌, insert, is_nil,
  leb, leb_int, lookup, none, ok, pos, some, suc, trim, true, ℕ, ℤ, ◌++◌, ◌>>=◌, ◌||◌, ◌∷◌,
}
use second_brain.Models.{Time}
use second_brain.LocalStore.Files.{
  Files, Io, Json, TranscriptRequestRecord, check, read_file, replace_file,
}

abbrev pub Requests : Type 0
Requests = Dict TranscriptRequestRecord

unfoldable pub transcript_request_key : Text → Text → Outcome Text Text
transcript_request_key owner_id video_id =
    if is_nil (trim owner_id) || is_nil (trim video_id)
    then err (codes "owner id and youtube video id are required")
    else ok (trim owner_id ++ b':' ∷ trim video_id)

-- The records attempted in the month, `!record.AttemptedAt.Before(monthStart)`.
unfoldable pub requests_since : Time → Requests → ℕ
requests_since month_start [] = 0
requests_since month_start ((k, r) ∷ m) =
    let rest = requests_since month_start m in
    if leb month_start r.attempted_at then suc rest else rest

abbrev pub claimed_record : Time → TranscriptRequestRecord
claimed_record now = record {
  status = codes "claimed";
  detail = codes "Supadata request claimed before provider call.";
  attempted_at = now;
  completed_at = 0;
}

-- What a claim decides from the records that it reads: `none` where it refuses.
unfoldable pub claim_records : Time → Time → ℤ → Text → Requests → Option Requests
claim_records month_start now monthly_limit key records =
    if has_key key records
    then none
    else if leb_int monthly_limit (pos 0)
        || leb_int monthly_limit (pos (requests_since month_start records))
    then none
    else some (insert key (claimed_record now) records)

-- The status that a completion stores.
unfoldable pub completed_record :
    Time → Text → Text → TranscriptRequestRecord → TranscriptRequestRecord
completed_record now status detail r = record r {
  status = if is_nil (trim status) then codes "completed" else trim status;
  detail = detail;
  completed_at = now;
}

module _ {Raw : Type 0} (json : Json Raw) (path : Text) where
  abbrev pub requests_path : Text
  requests_path = path ++ codes ".youtube-transcript-requests.json"

  unfoldable pub read_transcript_requests : Io → Files Raw → Outcome Text Requests
  read_transcript_requests io files = read_file io requests_path files >>= λ found. elim found [
    | none ↦ ok []
    | some raw ↦ json.decode_requests raw
  ]

  unfoldable pub write_transcript_requests :
      Io → Requests → Files Raw → Files Raw × Outcome Text (Unit {0})
  write_transcript_requests io records files = elim (json.encode_requests records) [
    | err e ↦ (files, err e)
    | ok raw ↦ replace_file json io requests_path raw files
  ]

  -- The checks of both methods before they look at the records.
  unfoldable pub open_requests : Io → Text → Text → Files Raw → Outcome Text (Text × Requests)
  open_requests io owner_id video_id files = check io.cancelled >>= λ _.
      transcript_request_key owner_id video_id >>= λ key.
      read_transcript_requests io files >>= λ records. ok (key, records)

  -- `month_start` is the first instant of the month of `now`.
  unfoldable pub claim_youtube_transcript_request :
      Io → Time → Time → Text → Text → ℤ → Files Raw → Files Raw × Outcome Text Bool
  claim_youtube_transcript_request io month_start now owner_id video_id monthly_limit files =
      elim (open_requests io owner_id video_id files) [
        | err e ↦ (files, err e)
        | ok (key, records) ↦ elim (claim_records month_start now monthly_limit key records) [
          | none ↦ (files, ok false)
          | some records' ↦
              let (files', written) = write_transcript_requests io records' files in
              (files', written >>= λ _. ok true)
        ]
      ]

  unfoldable pub complete_youtube_transcript_request :
      Io → Time → Text → Text → Text → Text → Files Raw → Files Raw × Outcome Text (Unit {0})
  complete_youtube_transcript_request io now owner_id video_id status detail files =
      elim (open_requests io owner_id video_id files) [
        | err e ↦ (files, err e)
        | ok (key, records) ↦ elim (lookup key records) [
          | none ↦ (files, err (codes "youtube transcript request was not claimed"))
          | some r ↦
              write_transcript_requests io
                (insert key (completed_record now status detail r) records) files
        ]
      ]
