-- ===== src/Run/Transcripts.antt =====
-- `fetchYouTubeTranscriptsForNewMaterials` and `mergeTranscript` of youtube_source.go: for which
-- videos the paid provider is called. The store behind the claims is a parameter, and so are the
-- provider and the markers that regular expressions find in a text.
use second_brain.Prelude.{
  Bool, List, Outcome, Text, [], codes, err, fallback, false, if◌then◌else◌, is_nil, lookup, none,
  not, ok, some, true, trim, ℤ, ◌&&◌, ◌++◌, ◌==◌, ◌∷◌,
}
use second_brain.Models.{ImportantTimeMarker, YouTubeItem, source_type_youtube}
use second_brain.Material.Keys.{has_processed_transcript, key_text}
use second_brain.Material.Selection.{States, fetched_key}

-- What of the store `youtubeTranscriptRequestStore` asks: claims and completions, which fail or
-- not by the state `W` of the store. An error of a completion is only logged.
pub record Ledger (W : Type 0) : Type 0 where
  pub claim : Text → Text → ℤ → W → W × Outcome Text Bool
  pub complete : Text → Text → Text → Text → W → W

-- Whether a key for the provider is there, what the provider answers for a video, and the markers
-- that `extractTimeMarkers` and `estimatedTranscriptMarkers` find.
pub record Provider : Type 0 where
  pub configured : Bool
  pub fetch : Text → YouTubeItem
  pub extract : Text → List ImportantTimeMarker
  pub estimate : Text → ℤ → List ImportantTimeMarker

abbrev pub first_markers :
    List ImportantTimeMarker → List ImportantTimeMarker → List ImportantTimeMarker
first_markers [] ys = ys
first_markers (x ∷ xs) ys = x ∷ xs

unfoldable pub merge_transcript : Provider → YouTubeItem → YouTubeItem → YouTubeItem
merge_transcript provider item transcript =
    let text = fallback (fallback transcript.transcript_text transcript.transcript_original_text) (
      fallback item.description
        (fallback transcript.transcript_preview transcript.transcript_original_preview)) in
    record item {
      transcript_status = transcript.transcript_status;
      transcript_lang = transcript.transcript_lang;
      transcript_source_lang = transcript.transcript_source_lang;
      transcript_available_langs = transcript.transcript_available_langs;
      transcript_translation_status = transcript.transcript_translation_status;
      transcript_preview = transcript.transcript_preview;
      transcript_original_preview = transcript.transcript_original_preview;
      transcript_text = transcript.transcript_text;
      transcript_original_text = transcript.transcript_original_text;
      transcript_timed_text = transcript.transcript_timed_text;
      transcript_error = transcript.transcript_error;
      important_time_markers = first_markers transcript.important_time_markers (
          first_markers (provider.extract item.description)
            (provider.estimate text item.duration_seconds));
    }

abbrev pub with_status : Text → Text → YouTubeItem → YouTubeItem
with_status status error item = record item { transcript_status = status; transcript_error = error }

unfoldable pub credential_hint : Text → Text
credential_hint name =
    name
    ++ codes
        " is not present in process env. Store it in OneCLI and run the backend through onecli run, or export it only for a local validation session."

-- The settings that a pass reads: `OwnerID`, `SupadataMonthlyRequestLimit`, the video to test
-- with, the prompt's version and the model.
pub record TranscriptSettings : Type 0 where
  pub owner_id : Text
  pub monthly_limit : ℤ
  pub test_video_id : Text
  pub prompt_version : Text
  pub model : Text

module _ {W : Type 0} (ledger : Ledger W) (provider : Provider) (equal_fold : Text → Text → Bool)
    (settings : TranscriptSettings) where
  -- Once the claim is answered: the item, and the videos for which the provider was called.
  unfoldable pub fetch_claimed : YouTubeItem → W × Outcome Text Bool → W × YouTubeItem × List Text
  unfolding merge_transcript
  fetch_claimed item (w, err e) = (
    w,
    with_status (codes "blocked")
        (codes
            "Supadata request skipped because the durable per-video request ledger is unavailable: "
          ++ e)
        item,
    [],
  )
  fetch_claimed item (w, ok false) = (
    w,
    with_status (codes "cached")
        (codes
          "Supadata request already recorded for this video or the monthly request budget is exhausted; skipped provider call.")
        item,
    [],
  )
  fetch_claimed item (w, ok true) =
      let transcript = provider.fetch item.video_id in
      (
        ledger.complete settings.owner_id (trim item.video_id) transcript.transcript_status
            transcript.transcript_error w,
        merge_transcript provider item transcript,
        item.video_id ∷ [],
      )

  unfoldable pub is_ingested : States → YouTubeItem → Bool
  is_ingested states item =
      let key =
        fetched_key source_type_youtube settings.prompt_version settings.model item.video_id in
      elim (lookup (key_text key) states) [
        | none ↦ false
        | some state ↦ has_processed_transcript equal_fold state
      ]

  -- One turn of the loop.
  unfoldable pub fetch_transcript : States → YouTubeItem → W → W × YouTubeItem × List Text
  unfolding fetch_claimed is_ingested credential_hint
  fetch_transcript states item w =
      let asked = ledger.claim settings.owner_id (trim item.video_id) settings.monthly_limit w in
      if not (is_nil settings.test_video_id) && not (item.video_id == settings.test_video_id)
      then (w, item, [])
      else if is_ingested states item
      then (
        w,
        with_status (codes "cached")
            (codes "Transcript already ingested and processed; skipped provider refetch.") item,
        [],
      )
      else if not provider.configured
      then (w, with_status (codes "blocked") (credential_hint (codes "SUPADATA_API_KEY")) item, [])
      else fetch_claimed item asked

  -- `fetchYouTubeTranscriptsForNewMaterials`, with the videos for which the provider was called.
  unfoldable pub fetch_transcripts :
      States → List YouTubeItem → W → W × List YouTubeItem × List Text
  unfolding fetch_transcript
  fetch_transcripts states [] w = (w, [], [])
  fetch_transcripts states (item ∷ rest) w =
      let (w', item', called) = fetch_transcript states item w in
      let (w'', rest', called') = fetch_transcripts states rest w' in
      (w'', item' ∷ rest', called ++ called')
