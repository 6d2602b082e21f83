-- ===== src/Tests/LocalStore.antt =====
-- The local store at concrete inputs, with documents kept as they are decoded.
use second_brain.Prelude.{
  Outcome, Text, [], arith, err, if◌then◌else◌, is_ok, lookup, none, ok, pos, refl, some, trim,
  true, ◌∷◌, ◌≡◌, ◌≢◌, ◌==◌,
}
use second_brain.Models.{FeedbackEvent, Result, persisted, DigestIssue, persisted_digest}
use second_brain.LocalStore.Files.{Files, Io, Json, read_file, replace_file}
use second_brain.LocalStore.Latest.{
  read_digest_illustration, read_latest, save_run, read_digests, save_digest,
}
use second_brain.LocalStore.Requests.{
  Requests, claim_records, claim_youtube_transcript_request, open_requests,
  read_transcript_requests, requests_since, transcript_request_key, write_transcript_requests,
}
use second_brain.LocalStore.Replacement.{RoundTrips, read_latest-save_run}
use second_brain.LocalStore.Illustrations.{
  read_digest_illustration-save_run, read_digests-save_digest,
}
use second_brain.LocalStore.Calls.{perform_all, save}
use second_brain.LocalStore.Claims.{claim_once}
use second_brain.Tests.Blank.{blank_result, blank_digest_issue}

pub data Document : Type 0 where
  of_result : Result → Document
  of_requests : Requests → Document
  of_event : FeedbackEvent → Document
  damaged : Document

abbrev as_result : Document → Outcome Text Result
as_result (of_result r) = ok r
as_result (of_requests m) = err []
as_result (of_event e) = err []
as_result damaged = err []

abbrev as_requests : Document → Outcome Text Requests
as_requests (of_result r) = err []
as_requests (of_requests m) = ok m
as_requests (of_event e) = err []
as_requests damaged = err []

abbrev pub json : Json Document
json = record {
  encode_result = λ r. ok (of_result (persisted r));
  decode_result = as_result;
  encode_requests = λ m. ok (of_requests m);
  decode_requests = as_requests;
  encode_event = λ e. ok (of_event e);
  torn = λ d. damaged;
  append = λ old d. d;
}

pub laws : RoundTrips json
laws = record { result_back = λ r raw h. ground arith; requests_back = λ m raw h. ground arith }

abbrev pub quiet : Io
quiet = record {
  cancelled = none;
  read_error = none;
  mkdir_error = none;
  open_error = none;
  write_error = none;
  rename_error = none;
}

abbrev pub path : Text
path = b'p' ∷ []

abbrev owner : Text
owner = b'o' ∷ []

abbrev video : Text
video = b'v' ∷ []

abbrev claimed : Files Document
claimed = (claim_youtube_transcript_request json path quiet 100 150 owner video (pos 2) []).0

read_latest-save_run_example :
    read_latest json path quiet
      (save_run json path (record quiet { rename_error = some (b'e' ∷ []) }) blank_result []).0
    ≡ (if is_ok
          (save_run json path (record quiet { rename_error = some (b'e' ∷ []) }) blank_result []).1
        then ok (some (persisted blank_result))
        else read_latest json path quiet [])
read_latest-save_run_example =
    read_latest-save_run json path laws (record quiet { rename_error = some (b'e' ∷ []) }) quiet
      blank_result [] (refl, refl)

saved : (save_run json path quiet blank_result []).1 ≡ ok tt
unfolding save_run replace_file
saved = refl

read_digest_illustration-save_run_example :
    read_digest_illustration json path quiet
      (b'i' ∷ [])
      (save_run json path quiet blank_result []).0
    ≡ ok none
read_digest_illustration-save_run_example =
    read_digest_illustration-save_run json path laws quiet quiet (b'i' ∷ []) blank_result []
      (refl, refl) saved

granted :
    (claim_youtube_transcript_request json path quiet 100 150 owner video (pos 2) []).1 ≡ ok true
unfolding claim_youtube_transcript_request open_requests transcript_request_key
    read_transcript_requests read_file claim_records requests_since write_transcript_requests
    replace_file lookup trim
granted = ground arith

claim_once_example :
    (claim_youtube_transcript_request json path quiet 200 250 owner
      (b' ' ∷ video)
      (pos 5)
      (perform_all json path (save quiet blank_result ∷ []) claimed)).1
    ≢ ok true
claim_once_example =
    claim_once json path laws quiet quiet 100 150 200 250 owner video owner (b' ' ∷ video) (pos 2)
      (pos 5) (save quiet blank_result ∷ []) [] granted (unfold transcript_request_key trim in refl)

abbrev digest : DigestIssue
digest = blank_digest_issue

abbrev with_run : Files Document
with_run = (path, of_result blank_result) ∷ []

digest_saved : (save_digest json path quiet quiet (λ fs. fs) digest with_run).1 ≡ ok (some digest)
unfolding save_digest save_run read_latest read_file lookup replace_file ◌==◌
digest_saved = refl

read_digests-save_digest_example :
    read_digests json path quiet (save_digest json path quiet quiet (λ fs. fs) digest with_run).0
    ≡ ok (persisted_digest digest ∷ [])
read_digests-save_digest_example =
    read_digests-save_digest json path laws quiet quiet quiet (λ fs. fs) digest with_run
      (refl, refl) digest_saved
