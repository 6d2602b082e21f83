-- ===== src/Material/VideoUnion.antt =====
-- The same of merged videos, where a previous video takes the place of a cached stub.
use mathlib.Core.Option
use second_brain.Prelude.{
  codes, ◌==◌, Option, List, Dict, List, Option-cases, Text, [], arith, contains, eq_iff,
  if◌then◌else◌, inl, inr, insert, is_blank, lookup, lookup-insert, map, none, refl, some, ◌∷◌, ◌≡◌,
  ◌≢◌,
}
use second_brain.Models.{YouTubeItem}
use second_brain.Material.Merge.{collect, merge_youtube_items, restore_cached, videos_by_id}
use second_brain.Material.Union.{
  IsDistinct, append-IsDistinct, collect-IsDistinct, find_id, find_id-append, find_id-collect,
  first_some, seen-collect,
}

abbrev video_id : YouTubeItem → Text
video_id v = v.video_id

-- The last video with an identifier.
unfoldable pub last_id : Text → List YouTubeItem → Option YouTubeItem
last_id k [] = none
last_id k (v ∷ vs) =
    let rest = last_id k vs in first_some rest (if v.video_id == k then some v else none)

-- The video that an identifier keeps, by its first fetched one: a fetched one that only says that
-- its transcript is cached gives way to the last previous one.
unfoldable pub kept_video : Text → List YouTubeItem → Option YouTubeItem → Option YouTubeItem
kept_video k previous none = find_id video_id k previous
kept_video k previous (some v) =
    if v.transcript_status == codes "cached"
    then first_some (last_id k previous) (some v)
    else some v

lookup-videos_by_id :
    (k : Text) (videos : Dict YouTubeItem) (vs : List YouTubeItem)
    → lookup k (videos_by_id videos vs) ≡ first_some (last_id k vs) (lookup k videos)
unfolding videos_by_id last_id
lookup-videos_by_id k videos [] = refl
lookup-videos_by_id k videos (v ∷ vs) = ground (
  arith,
  lookup-videos_by_id k (insert v.video_id v videos) vs,
  lookup-insert v.video_id k v videos,
)

find_id-id :
    (k : Text) (v : YouTubeItem) (vs : List YouTubeItem)
    → find_id video_id k vs ≡ some v
    → v.video_id ≡ k
unfolding find_id
find_id-id k v [] h = absurd (ground arith)
find_id-id k v (w ∷ vs) h = ground (arith, eq_iff w.video_id k, find_id-id k v vs)

IsIndexed : Dict YouTubeItem → Type 0
IsIndexed videos = (k : Text) (v : YouTubeItem) → lookup k videos ≡ some v → v.video_id ≡ k

videos_by_id-IsIndexed :
    (videos : Dict YouTubeItem) (vs : List YouTubeItem)
    → IsIndexed videos
    → IsIndexed (videos_by_id videos vs)
unfolding videos_by_id IsIndexed
videos_by_id-IsIndexed videos [] h = h
videos_by_id-IsIndexed videos (v ∷ vs) h =
    videos_by_id-IsIndexed (insert v.video_id v videos) vs
      (λ k w e. ground (arith, lookup-insert v.video_id k v videos, eq_iff v.video_id k, h k w))

by_id-IsIndexed : (vs : List YouTubeItem) → IsIndexed (videos_by_id [] vs)
unfolding IsIndexed
by_id-IsIndexed vs = videos_by_id-IsIndexed [] vs (λ k v e. absurd (unfold lookup in cc))

restore_cached-id :
    (videos : Dict YouTubeItem) (v : YouTubeItem)
    → IsIndexed videos
    → (restore_cached videos v).video_id ≡ v.video_id
unfolding restore_cached IsIndexed
restore_cached-id videos v h = elim (Option-cases (lookup v.video_id videos)) [
  | inl e ↦ ground arith
  | inr (old, e) ↦ ground (arith, h v.video_id old e)
]

module _ (videos : Dict YouTubeItem) (indexed : IsIndexed videos) where
  find_id-map :
      (k : Text) (vs : List YouTubeItem)
      → find_id video_id k (map (restore_cached videos) vs)
        ≡ Option.map (restore_cached videos) (find_id video_id k vs)
  unfolding find_id
  find_id-map k [] = refl
  find_id-map k (v ∷ vs) = ground (arith, restore_cached-id videos v indexed, find_id-map k vs)

  map-IsDistinct :
      (vs : List YouTubeItem)
      → IsDistinct video_id vs
      → IsDistinct video_id (map (restore_cached videos) vs)
  map-IsDistinct [] h = tt
  map-IsDistinct (v ∷ vs) (first, h) = (
    ground (arith, restore_cached-id videos v indexed, find_id-map v.video_id vs),
    map-IsDistinct vs h,
  )

-- What an identifier keeps after the fetched videos were restored.
restored-kept :
    (k : Text) (previous fetched : List YouTubeItem)
    → first_some
        (Option.map (restore_cached (videos_by_id [] previous)) (find_id video_id k fetched))
        (find_id video_id k previous)
      ≡ kept_video k previous (find_id video_id k fetched)
unfolding restore_cached kept_video lookup
restored-kept k previous fetched = elim (Option-cases (find_id video_id k fetched)) [
  | inl e ↦ ground arith
  | inr (v, e) ↦
      ground (arith, find_id-id k v fetched e, lookup-videos_by_id v.video_id [] previous)
]

-- Unless there is no previous run, merged videos have distinct identifiers, and each non-blank
-- identifier keeps its first fetched video, or else its first previous one; but if that fetched
-- video only says that its transcript is cached, and the identifier has previous videos, it keeps
-- the last of these.
pub merge_youtube_items-union :
    (previous fetched : List YouTubeItem)
    → previous ≢ []
    → IsDistinct (λ v. v.video_id) (merge_youtube_items previous fetched)
      × ((k : Text)
          → find_id (λ v. v.video_id) k (merge_youtube_items previous fetched) ≡ (
              if is_blank k
              then none
              else kept_video k previous (find_id (λ v. v.video_id) k fetched)))
unfolding merge_youtube_items contains
merge_youtube_items-union [] fetched n = absurd (n refl)
merge_youtube_items-union (p ∷ previous) fetched n =
    let videos = videos_by_id [] (p ∷ previous) in
    let indexed = by_id-IsIndexed (p ∷ previous) in
    let first = (collect video_id [] fetched).0 in
    let seen = (collect video_id [] fetched).1 in
    let rest = (collect video_id seen (p ∷ previous)).0 in
    (
      append-IsDistinct video_id (map (restore_cached videos) first) rest
          (map-IsDistinct videos indexed first (collect-IsDistinct video_id [] fetched))
          (collect-IsDistinct video_id seen (p ∷ previous))
          (λ k h. ground (
            arith,
            find_id-map videos indexed k first,
            find_id-collect video_id k [] fetched,
            find_id-collect video_id k seen (p ∷ previous),
            seen-collect video_id k [] fetched,
          )),
      λ k. ground (
        arith,
        restored-kept k (p ∷ previous) fetched,
        find_id-append video_id k (map (restore_cached videos) first) rest,
        find_id-map videos indexed k first,
        find_id-collect video_id k [] fetched,
        find_id-collect video_id k seen (p ∷ previous),
        seen-collect video_id k [] fetched,
      ),
    )
