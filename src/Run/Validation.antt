-- ===== src/Run/Validation.antt =====
-- The validation of a run: service.go from `validation` to `anyCachedProcessing`, and the list
-- that RunCycle makes of it.
use second_brain.Prelude.{
  Bool, List, Text, [], byte_length, codes, false, if◌then◌else◌, is_nil, leb, length, ltb, negsuc,
  none, not, pos, some, ℕ, ℤ, ◌&&◌, ◌++◌, ◌==◌, ◌||◌, ◌∷◌, Option, String,
}
use second_brain.Models.{
  Float, Insight, ProcessingEvent, QualityScore, Result, Summary, ValidationItem, XBookmark,
  YouTubeItem, items, source_type_youtube,
}

-- The `%d` of `fmt`, and the test `> 0` of floating-point numbers.
pub record Formats : Type 0 where
  pub digits : ℕ → Text
  pub is_positive : Float → Bool

unfoldable pub validation : Text → Bool → Text → Text → ValidationItem
validation label passed pass_detail fail_detail =
    if passed
    then record { label = label; status = codes "pass"; detail = pass_detail }
    else record { label = label; status = codes "blocked"; detail = fail_detail }

-- `for ... { if test { return true } }; return false`.
abbrev pub any {ℓ} : {A : Type ℓ} → (A → Bool) → List A → Bool
any test [] = false
any test (x ∷ xs) = test x || any test xs

unfoldable pub all_x_bookmarks_have_source_urls : List XBookmark → Bool
all_x_bookmarks_have_source_urls bookmarks =
    not (is_nil bookmarks) && not (any (λ b. is_nil b.source_url) bookmarks)

unfoldable pub any_x_article_body : List XBookmark → Bool
any_x_article_body =
    any (λ b. b.content_type == codes "article" && ltb (byte_length b.text) (byte_length b.body))

unfoldable pub all_youtube_transcripts_tested : List YouTubeItem → Bool
all_youtube_transcripts_tested videos =
    not (is_nil videos) && not (any (λ v. v.transcript_status == codes "untested") videos)

unfoldable pub any_youtube_transcript_available : List YouTubeItem → Bool
any_youtube_transcript_available = any (λ v. v.transcript_status == codes "available")

unfoldable pub any_hindi_transcript_translated : List YouTubeItem → Bool
any_hindi_transcript_translated = any (λ v.
    v.transcript_translation_status == codes "translated"
    && v.transcript_source_lang == codes "hi"
    && v.transcript_lang == codes "en")

unfoldable pub any_youtube_time_markers : List Summary → Bool
any_youtube_time_markers =
    any (λ s. s.source == source_type_youtube && not (is_nil s.important_time_markers))

unfoldable pub any_cached_processing : List ProcessingEvent → Bool
any_cached_processing = any (λ e. e.status == codes "cached")

unfoldable pub x_bookmark_coverage_ok : ℕ → ℤ → Bool
x_bookmark_coverage_ok count (pos n) = if ltb 0 n then leb n count else ltb 0 count
x_bookmark_coverage_ok count (negsuc n) = ltb 0 count

module _ (formats : Formats) where
  abbrev judged : Option QualityScore → Bool
  judged none = false
  judged (some q) = formats.is_positive q.overall

  unfoldable pub any_judged_content : List Summary → List Insight → Bool
  any_judged_content summaries insights =
      any (λ s. judged s.quality) summaries || any (λ i. judged i.quality) insights

  abbrev pub counted : String → ℕ → String → Text
  counted before n after = codes before ++ (formats.digits n ++ codes after)

  abbrev all_coverage_detail : ℕ → Text
  all_coverage_detail count =
      counted "Fetched all available X bookmark page(s); " count " bookmark(s) returned."

  abbrev no_coverage_detail : ℕ → Text
  no_coverage_detail count =
      counted "Fetched " count
        " X bookmark(s); expected at least one bookmark from the full pagination run."

  unfoldable pub x_bookmark_coverage_label : ℤ → Text
  x_bookmark_coverage_label (pos n) =
      if ltb 0 n then counted "" n " X bookmarks" else codes "All X bookmarks"
  x_bookmark_coverage_label (negsuc n) = codes "All X bookmarks"

  unfoldable pub x_bookmark_coverage_pass_detail : ℕ → ℤ → Text
  x_bookmark_coverage_pass_detail count (pos n) =
      if ltb 0 n
      then counted "Fetched " count " configured X bookmark(s)."
      else all_coverage_detail count
  x_bookmark_coverage_pass_detail count (negsuc n) = all_coverage_detail count

  unfoldable pub x_bookmark_coverage_blocker_detail : ℕ → ℤ → Text
  x_bookmark_coverage_blocker_detail count (pos n) =
      if ltb 0 n
      then counted "Fetched " count " of " ++ counted "" n " configured X bookmark(s)."
      else no_coverage_detail count
  x_bookmark_coverage_blocker_detail count (negsuc n) = no_coverage_detail count

  -- `result.Validation`, from what was fetched, the result so far and the number of processed
  -- sources.
  unfoldable pub validation_of :
      ℤ → List XBookmark → List YouTubeItem → Result → ℕ → List ValidationItem
  unfolding validation all_x_bookmarks_have_source_urls any_x_article_body
      all_youtube_transcripts_tested any_youtube_transcript_available
      any_hindi_transcript_translated any_youtube_time_markers any_cached_processing
      x_bookmark_coverage_ok any_judged_content x_bookmark_coverage_label
      x_bookmark_coverage_pass_detail x_bookmark_coverage_blocker_detail
  validation_of limit bookmarks videos result processed =
      let fetched = length bookmarks in
      let watched = length videos in
      let summaries = items result.summaries in
      let insights = items result.insights in
      let clusters = length (items result.insight_clusters) in
      let actions = length (items result.action_items) in
      validation (codes "X bookmark request") (ltb 0 fetched)
        (counted "" fetched " bookmark(s) fetched.") (codes "No X bookmarks fetched.")
      ∷ validation (x_bookmark_coverage_label limit) (x_bookmark_coverage_ok fetched limit)
          (x_bookmark_coverage_pass_detail fetched limit)
          (x_bookmark_coverage_blocker_detail fetched limit)
      ∷ validation (codes "X source links") (all_x_bookmarks_have_source_urls bookmarks)
          (codes "Every bookmark has a source URL.")
          (codes "One or more bookmarks are missing source URLs.")
      ∷ validation (codes "X article bodies") (any_x_article_body bookmarks)
          (codes "At least one X Article body was extracted.")
          (codes "No expanded X Article body was extracted.")
      ∷ validation (codes "YouTube playlist check") (ltb 0 watched)
          (counted "" watched " YouTube item(s) fetched.")
          (codes "No YouTube playlist items fetched.")
      ∷ validation (codes "YouTube transcript checks") (all_youtube_transcripts_tested videos)
          (counted "Checked transcripts for " watched " playlist video(s).")
          (codes "One or more playlist videos were not transcript-tested.")
      ∷ validation (codes "Transcript path") (any_youtube_transcript_available videos)
          (codes "At least one transcript was extracted.") (codes "No transcript extracted yet.")
      ∷ validation (codes "Hindi transcript translation") (any_hindi_transcript_translated videos)
          (codes "Hindi transcript translated to English locally.")
          (codes "No Hindi transcript was translated to English.")
      ∷ validation (codes "Source-grounded summaries") (ltb 0 (length summaries))
          (counted "" (length summaries) " summary item(s) generated.")
          (codes "No summaries generated.")
      ∷ validation (codes "Insight extraction") (ltb 0 (length insights))
          (counted "" (length insights) " insight(s) available.") (codes "No insights generated.")
      ∷ validation (codes "LLM quality judge") (any_judged_content summaries insights)
          (codes "Synthesis carries LLM quality scores for summaries and insights.")
          (codes "No LLM quality scores are present yet.")
      ∷ validation (codes "YouTube time markers") (any_youtube_time_markers summaries)
          (codes "At least one YouTube synthesis includes important timestamp markers.")
          (codes "No YouTube timestamp markers extracted yet.")
      ∷ validation (codes "Insight grouping") (ltb 0 clusters || ltb 0 (length insights))
          (counted "" clusters " insight cluster(s) available.")
          (codes "No insights reached grouping.")
      ∷ validation (codes "Action item extraction") (ltb 0 actions)
          (counted "" actions " action item(s) available.") (codes "No action items generated.")
      ∷ validation (codes "Recompute control")
          (any_cached_processing (items result.processing) || ltb 0 processed)
          (codes "Source captures use prompt-versioned cache keys.")
          (codes "No source captures reached the synthesis cache.")
      ∷ []
