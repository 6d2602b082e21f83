-- ===== src/ReadModel/Limits.antt =====
-- `NormalizeAppStateViewLimit` of read_model_cache.go, and cutting a slice to a limit.
use second_brain.Prelude.{
  Bool, List, Text, codes, if◌then◌else◌, leb, ltb, negsuc, pos, take, trim, ℕ, ℤ, ◌==◌, ◌||◌,
  length,
}
use second_brain.Models.{Slice, items}
use second_brain.Graph.Response.{default_insight_graph_limit, max_insight_graph_limit}

abbrev pub max_page_state_limit : ℕ
max_page_state_limit = 50

abbrev pub max_source_state_limit : ℕ
max_source_state_limit = 1000

abbrev pub max_newsletter_state_limit : ℕ
max_newsletter_state_limit = 100

-- The two tests that each branch makes: a limit that is not positive, and one that is too large.
unfoldable pub clamp_limit : ℕ → ℕ → ℤ → ℕ
clamp_limit default most (negsuc n) = default
clamp_limit default most (pos n) = if leb n 0 then default else if ltb most n then most else n

unfoldable pub normalize_page_state_limit : ℤ → ℕ
unfolding clamp_limit
normalize_page_state_limit limit = clamp_limit 25 max_page_state_limit limit

abbrev pub is_x_view : Text → Bool
is_x_view view = view == codes "original-x-posts" || view == codes "original-x-bookmarks"

abbrev pub is_youtube_view : Text → Bool
is_youtube_view view =
    view == codes "original-youtube-posts" || view == codes "original-youtube-videos"

unfoldable pub normalize_app_state_view_limit : Text → ℤ → ℕ
unfolding normalize_page_state_limit clamp_limit
normalize_app_state_view_limit view limit =
    if trim view == codes "knowledge-graph"
    then clamp_limit default_insight_graph_limit max_insight_graph_limit limit
    else if is_x_view (trim view) || is_youtube_view (trim view)
    then clamp_limit 25 max_source_state_limit limit
    else if trim view == codes "daily-newsletter"
    then clamp_limit 10 max_newsletter_state_limit limit
    else normalize_page_state_limit limit

-- `firstN`, whose result is never nil.
unfoldable pub first_n {ℓ} : {A : Type ℓ} → Slice A → ℕ → List A
first_n xs limit = if ltb limit (length (items xs)) then take limit (items xs) else items xs
