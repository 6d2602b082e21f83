-- ===== src/Material/Merge.antt =====
-- `mergeXBookmarks` and `mergeYouTubeItems` of refresh_material.go.
use second_brain.Prelude.{
  Dict, List, Text, [], codes, contains, if◌then◌else◌, insert, is_blank, lookup, map, none, some,
  ◌++◌, ◌==◌, ◌||◌, ◌∷◌,
}
use second_brain.Models.{XBookmark, YouTubeItem}

-- A loop that skips blank and seen identifiers: what it appends, and `seen` behind it.
unfoldable pub collect {ℓ} : {A : Type ℓ} → (A → Text) → List Text → List A → List A × List Text
collect id seen [] = ([], seen)
collect id seen (x ∷ xs) =
    let skipped = collect id seen xs in
    let (rest, seen') = collect id (id x ∷ seen) xs in
    if is_blank (id x) || contains (id x) seen then skipped else (x ∷ rest, seen')

unfoldable pub merge_x_bookmarks : List XBookmark → List XBookmark → List XBookmark
merge_x_bookmarks [] fetched = fetched
merge_x_bookmarks (p ∷ previous) fetched =
    let (first, seen) = collect (λ b. b.id) [] fetched in
    first ++ (collect (λ b. b.id) seen (p ∷ previous)).0

-- `previousByID`: the last item with an identifier.
unfoldable pub videos_by_id : Dict YouTubeItem → List YouTubeItem → Dict YouTubeItem
videos_by_id videos [] = videos
videos_by_id videos (v ∷ vs) = videos_by_id (insert v.video_id v videos) vs

-- A fetched item that only says that its transcript is cached gives way to the previous one.
unfoldable pub restore_cached : Dict YouTubeItem → YouTubeItem → YouTubeItem
restore_cached previous item = elim (lookup item.video_id previous) [
  | none ↦ item
  | some old ↦ if item.transcript_status == codes "cached" then old else item
]

unfoldable pub merge_youtube_items : List YouTubeItem → List YouTubeItem → List YouTubeItem
merge_youtube_items [] fetched = fetched
merge_youtube_items (p ∷ previous) fetched =
    let by_id = videos_by_id [] (p ∷ previous) in
    let (first, seen) = collect (λ v. v.video_id) [] fetched in
    map (restore_cached by_id) first ++ (collect (λ v. v.video_id) seen (p ∷ previous)).0
