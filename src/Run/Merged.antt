-- ===== src/Run/Merged.antt =====
-- What the merge with the latest run and the output of synthesis keep of both.
use second_brain.Prelude.{
  All, All-of_Within, Bool-cases, List, Option-cases, Text, [], append-nil, append_assoc, ap, arith,
  contains, false, if◌then◌else◌, inl, inr, is_blank, is_some, Bool, keep, keep-Within, map, none,
  not, refl, some, sym, true, Within, Within-append_left, ◌++◌, ◌∙◌, ◌∷◌, ◌≡◌, ◌⊎◌,
}
use mathlib.Core.Option
use second_brain.Models.{
  ActionItem, ImportantTimeMarker, ProcessedSource, Result, Slice, Summary, XBookmark, YouTubeItem,
  items,
}
use second_brain.Material.Selection.{
  action_identity, action_items_excluding, summaries_excluding, summary_identity,
}
use second_brain.Material.Merge.{merge_x_bookmarks, merge_youtube_items}
use second_brain.Material.Union.{find_id, merge_x_bookmarks-union}
use second_brain.Material.VideoUnion.{kept_video, last_id, merge_youtube_items-union}
use second_brain.Run.Output.{
  append_processed_item, append_processed_output, append_slice, attach_youtube_time_markers,
}
use second_brain.Run.Cycle.{merge_slices}

pub items-append_slice {ℓ} :
    {A : Type ℓ} (xs : Slice A) (ys : List A) → items (append_slice xs ys) ≡ items xs ++ ys
items-append_slice none [] = refl
items-append_slice none (y ∷ ys) = refl
items-append_slice (some xs) ys = refl

abbrev pub new_summaries : List ProcessedSource → List Summary
new_summaries = map (λ p. p.synthesis.summary)

pub summaries-output :
    (result : Result) (ps : List ProcessedSource)
    → items (append_processed_output result ps).summaries
      ≡ items result.summaries ++ new_summaries ps
unfolding append_processed_output append_processed_item
summaries-output result [] = sym (append-nil (items result.summaries))
summaries-output result (p ∷ ps) =
    summaries-output (append_processed_item result p) ps
    ∙ ap (λ l. l ++ new_summaries ps)
        (items-append_slice result.summaries (p.synthesis.summary ∷ []))
    ∙ append_assoc (items result.summaries) (p.synthesis.summary ∷ []) (new_summaries ps)

pub actions-output :
    (result : Result) (ps : List ProcessedSource) (x : ActionItem)
    → Within x (items result.action_items)
    → Within x (items (append_processed_output result ps).action_items)
unfolding append_processed_output append_processed_item
actions-output result [] x h = h
actions-output result (p ∷ ps) x h = actions-output (append_processed_item result p) ps x (
    rw (items-append_slice result.action_items p.synthesis.action_items)
      (Within-append_left (items result.action_items) p.synthesis.action_items h))

pub bookmarks-output :
    (result : Result) (ps : List ProcessedSource)
    → (append_processed_output result ps).x_bookmarks ≡ result.x_bookmarks
unfolding append_processed_output append_processed_item
bookmarks-output result [] = refl
bookmarks-output result (p ∷ ps) = bookmarks-output (append_processed_item result p) ps

abbrev pub HasVideo : Text → List YouTubeItem → Type 0
HasVideo k vs = is_some (find_id (λ v. v.video_id) k vs) ≡ true

attach-HasVideo :
    (k id : Text) (markers : List ImportantTimeMarker) (vs : List YouTubeItem)
    → HasVideo k vs
    → HasVideo k (attach_youtube_time_markers vs id markers)
unfolding attach_youtube_time_markers find_id
attach-HasVideo k id markers [] h = h
attach-HasVideo k id markers (v ∷ vs) h = ground (arith, attach-HasVideo k id markers vs)

marked-HasVideo :
    (k id : Text) (markers : List ImportantTimeMarker) (marked : Bool) (vs : Slice YouTubeItem)
    → HasVideo k (items vs)
    → HasVideo k (
        items
          (if marked then Option.map (λ l. attach_youtube_time_markers l id markers) vs else vs))
marked-HasVideo k id markers false vs h = h
marked-HasVideo k id markers true none h = h
marked-HasVideo k id markers true (some vs) h = attach-HasVideo k id markers vs h

item-HasVideo :
    (k : Text) (result : Result) (p : ProcessedSource)
    → HasVideo k (items result.youtube_items)
    → HasVideo k (items (append_processed_item result p).youtube_items)
unfolding append_processed_item
item-HasVideo k result p h = marked-HasVideo k _ _ _ result.youtube_items h

pub videos-output :
    (k : Text) (result : Result) (ps : List ProcessedSource)
    → HasVideo k (items result.youtube_items)
    → HasVideo k (items (append_processed_output result ps).youtube_items)
unfolding append_processed_output
videos-output k result [] h = h
videos-output k result (p ∷ ps) h =
    videos-output k (append_processed_item result p) ps (item-HasVideo k result p h)

-- A filter keeps what it does not exclude.
kept_or_excluded {ℓ} :
    {A : Type ℓ} (identity : A → Text) (xs : List A) (exclude : List Text)
    → All
        (λ x.
          Within x (keep (λ y. not (contains (identity y) exclude)) xs)
          ⊎ (contains (identity x) exclude ≡ true))
        xs
kept_or_excluded identity xs exclude = All-of_Within _ xs (λ x w.
    elim (Bool-cases (contains (identity x) exclude)) [
      | inl e ↦ inr e
      | inr e ↦ inl (keep-Within (λ y. not (contains (identity y) exclude)) xs w (rw e refl))
    ])

pub summaries-excluding :
    (ss : List Summary) (exclude : List Text)
    → All
        (λ s.
          Within s (summaries_excluding ss exclude)
          ⊎ (contains (summary_identity s) exclude ≡ true))
        ss
unfolding summaries_excluding
summaries-excluding ss [] = All-of_Within _ ss (λ s w. inl w)
summaries-excluding ss (e ∷ exclude) = kept_or_excluded summary_identity ss (e ∷ exclude)

pub actions-excluding :
    (acts : List ActionItem) (exclude : List Text)
    → All
        (λ a.
          Within a (action_items_excluding acts exclude)
          ⊎ (contains (action_identity a) exclude ≡ true))
        acts
unfolding action_items_excluding
actions-excluding acts [] = All-of_Within _ acts (λ a w. inl w)
actions-excluding acts (e ∷ exclude) = kept_or_excluded action_identity acts (e ∷ exclude)

-- An identifier of the latest run is found behind the merge.
pub bookmarks-merged :
    (k : Text) (previous fetched : Slice XBookmark)
    → is_blank k ≡ false
    → is_some (find_id (λ b. b.id) k (items previous)) ≡ true
    → is_some (find_id (λ b. b.id) k (items (merge_slices merge_x_bookmarks previous fetched)))
      ≡ true
unfolding find_id
bookmarks-merged k none fetched named h = ground arith
bookmarks-merged k (some []) fetched named h = ground arith
bookmarks-merged k (some (p ∷ ps)) fetched named h =
    let (_, found) = merge_x_bookmarks-union (p ∷ ps) (items fetched) (λ e. cc) in
    ground (arith, found k)

pub videos-merged :
    (k : Text) (previous fetched : Slice YouTubeItem)
    → is_blank k ≡ false
    → HasVideo k (items previous)
    → HasVideo k (items (merge_slices merge_youtube_items previous fetched))
unfolding find_id kept_video
videos-merged k none fetched named h = ground arith
videos-merged k (some []) fetched named h = ground arith
videos-merged k (some (p ∷ ps)) fetched named h =
    let (_, found) = merge_youtube_items-union (p ∷ ps) (items fetched) (λ e. cc) in
    elim (Option-cases (find_id (λ v. v.video_id) k (items fetched))) [
      | inl e ↦ ground (arith, found k)
      | inr (v, e) ↦ ground (arith, found k, Option-cases (last_id k (p ∷ ps)))
    ]
