-- ===== src/ReadModel/Views.antt =====
-- `CompactAppStateForView` of read_model_cache.go: what of a state one view is served.
use second_brain.Prelude.{
  List, Option, Text, [], codes, contains, if◌then◌else◌, is_blank, is_nil, is_zero_int, keep,
  length, ltb, map, none, not, or_else, pos, some, sort_stable, trim, ℕ, ℤ, ◌&&◌, ◌==◌, ◌||◌, ◌∷◌,
}
use mathlib.Core.Option
use second_brain.Models.{
  AppStateSourceCounts, DigestIssue, Result, Slice, Summary, Time, XBookmark, YouTubeItem, after,
  items, source_type_x, source_type_youtube,
}
use second_brain.Graph.Response.{limit_insight_graph_response_pointer, max_insight_graph_limit}
use second_brain.ReadModel.State.{AppState}
use second_brain.ReadModel.Limits.{
  first_n, is_x_view, is_youtube_view, normalize_app_state_view_limit,
}

-- A count that is zero is taken from the slice.
abbrev pub count_of {ℓ} : {A : Type ℓ} → ℤ → Slice A → ℤ
count_of n xs = if is_zero_int n && ltb 0 (length (items xs)) then pos (length (items xs)) else n

unfoldable pub source_counts_from_result : Option Result → AppStateSourceCounts
source_counts_from_result none = record { x_bookmarks = pos 0; youtube_items = pos 0 }
source_counts_from_result (some latest) = record {
  x_bookmarks = count_of latest.source_counts.x_bookmarks latest.x_bookmarks;
  youtube_items = count_of latest.source_counts.youtube_items latest.youtube_items;
}

unfoldable pub result_shell : Result → Result
unfolding source_counts_from_result
result_shell latest = record {
  generated_at = latest.generated_at;
  source_status = latest.source_status;
  source_counts = source_counts_from_result (some latest);
  x_bookmarks = some [];
  youtube_items = some [];
  summaries = some [];
  insights = some [];
  action_items = some [];
  artifacts = none;
  processing = some [];
  themes = some [];
  insight_clusters = some [];
  connections = some [];
  digest = none;
  validation = some (items latest.validation);
  blockers = some (items latest.blockers);
}

unfoldable pub compact_digest_issue : DigestIssue → DigestIssue
compact_digest_issue digest = record digest {
  deliveries = [];
  source_refs = [];
  illustration_prompt = [];
  illustration_model = [];
}

-- `time.Parse` with `RFC3339Nano` is a parameter; the zero time stands for what it refuses.
unfoldable pub source_time : (Text → Option Time) → Text → Time
source_time parse value = if is_blank value then 0 else or_else (parse value) 0

unfoldable pub sort_x_bookmarks_newest_first :
    (Text → Option Time) → List XBookmark → List XBookmark
unfolding sort_stable
sort_x_bookmarks_newest_first parse =
    sort_stable (λ a b. after (source_time parse a.created_at) (source_time parse b.created_at))

unfoldable pub sort_youtube_items_newest_first :
    (Text → Option Time) → List YouTubeItem → List YouTubeItem
unfolding sort_stable
sort_youtube_items_newest_first parse =
    sort_stable (λ a b. after (source_time parse a.published_at) (source_time parse b.published_at))

-- The keys of the set of source URLs.
unfoldable pub x_bookmark_urls : List XBookmark → List Text
x_bookmark_urls bookmarks = keep (λ u. not (is_blank u)) (map (λ b. b.source_url) bookmarks)

unfoldable pub youtube_item_urls : List YouTubeItem → List Text
youtube_item_urls videos = keep (λ u. not (is_blank u)) (map (λ v. v.source_url) videos)

unfoldable pub summaries_for_source_urls : List Summary → Text → List Text → List Summary
summaries_for_source_urls summaries source urls =
    if is_nil summaries || is_nil urls
    then []
    else keep (λ s. s.source == source && contains s.source_url urls) summaries

-- What every view starts from.
unfoldable pub bare_state : AppState → AppState
bare_state state = record state {
  views = record {
    insights = some [];
    daily_newsletter = none;
    original_x_bookmarks = some [];
    original_youtube_posts = some [];
  };
  graph = record {
    status = state.graph.status;
    themes = some [];
    insight_clusters = some [];
    connections = some [];
    insight_graph = none;
  };
  ask_context = record (state.ask_context) { sources = none };
  digests = none;
}

unfoldable pub newsletter_latest : Result → Result
unfolding result_shell compact_digest_issue first_n
newsletter_latest latest = record (result_shell latest) {
  digest = Option.map compact_digest_issue latest.digest;
  summaries = some (first_n latest.summaries 8);
}

unfoldable pub newsletter_digests : ℕ → Slice DigestIssue → Result → List DigestIssue
unfolding compact_digest_issue first_n
newsletter_digests limit digests latest =
    if ltb 0 (length (items digests))
    then map compact_digest_issue (first_n digests limit)
    else elim (Option.map compact_digest_issue latest.digest) [
      | none ↦ []
      | some digest ↦ digest ∷ []
    ]

module _ (parse : Text → Option Time) (limit : ℕ) where
  -- The `latest` of each view.
  unfoldable pub x_latest : Result → Result
  unfolding result_shell sort_x_bookmarks_newest_first first_n x_bookmark_urls
      summaries_for_source_urls
  x_latest latest =
      let served =
        first_n (some (sort_x_bookmarks_newest_first parse (items latest.x_bookmarks))) limit in
      record (result_shell latest) {
        x_bookmarks = some served;
        summaries = some (
            summaries_for_source_urls (items latest.summaries) source_type_x
              (x_bookmark_urls served));
      }

  unfoldable pub youtube_latest : Result → Result
  unfolding result_shell sort_youtube_items_newest_first first_n youtube_item_urls
      summaries_for_source_urls
  youtube_latest latest =
      let served =
        first_n (some (sort_youtube_items_newest_first parse (items latest.youtube_items))) limit in
      record (result_shell latest) {
        youtube_items = some served;
        summaries = some (
            summaries_for_source_urls (items latest.summaries) source_type_youtube
              (youtube_item_urls served));
      }

  -- The `switch` on the view, for a state that has a result.
  unfoldable pub view_state : AppState → Text → Result → AppState
  unfolding bare_state x_latest youtube_latest newsletter_latest newsletter_digests result_shell
      first_n
  view_state state view latest =
      let compact = bare_state state in
      if view == codes "insights"
      then record compact {
        latest =
            some (record (result_shell latest) { insights = some (first_n latest.insights limit) });
        digests = some [];
      }
      else if view == codes "daily-newsletter"
      then record compact {
        latest = some (newsletter_latest latest);
        digests = some (newsletter_digests limit state.digests latest);
      }
      else if is_x_view view
      then record compact { latest = some (x_latest latest); digests = some [] }
      else if is_youtube_view view
      then record compact { latest = some (youtube_latest latest); digests = some [] }
      else if view == codes "knowledge-graph"
      then record compact {
        graph = record {
          status = state.graph.status;
          themes = none;
          insight_clusters = none;
          connections = none;
          insight_graph =
              limit_insight_graph_response_pointer state.graph.insight_graph
                (pos max_insight_graph_limit);
        };
        latest = some (result_shell latest);
        digests = some [];
      }
      else state

unfoldable pub compact_app_state_for_view :
    (Text → Option Time) → Option AppState → Text → ℤ → Option AppState
unfolding view_state bare_state normalize_app_state_view_limit
compact_app_state_for_view parse none view limit = none
compact_app_state_for_view parse (some state) view limit =
    let wanted = trim view in
    let n = normalize_app_state_view_limit wanted limit in
    if is_nil wanted || wanted == codes "full" then some state else elim state.latest [
      | none ↦ some (bare_state state)
      | some latest ↦ some (view_state parse n state wanted latest)
    ]
