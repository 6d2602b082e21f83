-- ===== src/Tests/Material.antt =====
-- What a refresh fetched, at concrete inputs.
use second_brain.Prelude.{
  codes, ==_refl, List, Outcome, Text, Within, [], arith, at_head, contains, eq_iff, if◌then◌else◌,
  is_blank, lookup, map, none, ok, refl, some, trim, true, ◌∷◌, ◌≡◌, ◌≢◌,
}
use second_brain.Models.{
  Result, SourceCandidate, SourceMaterialKey, SourceMaterialState, Summary, XBookmark, YouTubeItem,
}
use second_brain.Storage.Upload.{Host, capture_hash}
use second_brain.Material.Keys.{
  is_attributed, key_text, result_states, source_material_key_for_candidate,
}
use second_brain.Material.Merge.{merge_x_bookmarks, merge_youtube_items}
use second_brain.Material.Selection.{States, filter_new_source_candidates}
use second_brain.Material.Cache.{
  cached_states, no_cache, read_missing, read_source_material_states, missing_keys, insert_all,
}
use second_brain.Material.Union.{IsDistinct, find_id, first_some, merge_x_bookmarks-union}
use second_brain.Material.VideoUnion.{kept_video, merge_youtube_items-union}
use second_brain.Material.Skipping.{filter_new-result_states}
use second_brain.Material.ReadThrough.{Answers, read_source_material_states-through}
use second_brain.Tests.Blank.{
  blank_result, blank_source_candidate, blank_summary, blank_x_bookmark, blank_youtube_item,
}

abbrev bookmark : Text → XBookmark
bookmark id = record blank_x_bookmark { id = id }

abbrev stub : YouTubeItem
stub = record blank_youtube_item { video_id = b'1' ∷ []; transcript_status = codes "cached" }

abbrev old_video : YouTubeItem
old_video = record blank_youtube_item { video_id = b'1' ∷ []; title = b't' ∷ [] }

merge_x_bookmarks-union_example :
    IsDistinct
      (λ b. b.id)
      (merge_x_bookmarks (bookmark (b'1' ∷ []) ∷ []) (bookmark [] ∷ bookmark (b'2' ∷ []) ∷ []))
    × ((k : Text)
        → find_id
            (λ b. b.id)
            k
            (merge_x_bookmarks
              (bookmark (b'1' ∷ []) ∷ [])
              (bookmark [] ∷ bookmark (b'2' ∷ []) ∷ []))
          ≡ (if is_blank k
              then none
              else first_some
                  (find_id (λ b. b.id) k (bookmark [] ∷ bookmark (b'2' ∷ []) ∷ []))
                  (find_id (λ b. b.id) k (bookmark (b'1' ∷ []) ∷ []))))
merge_x_bookmarks-union_example =
    merge_x_bookmarks-union (bookmark (b'1' ∷ []) ∷ []) (bookmark [] ∷ bookmark (b'2' ∷ []) ∷ [])
      (λ e. cc)

merge_youtube_items-union_example :
    IsDistinct (λ v. v.video_id) (merge_youtube_items (old_video ∷ []) (stub ∷ []))
    × ((k : Text)
        → find_id (λ v. v.video_id) k (merge_youtube_items (old_video ∷ []) (stub ∷ [])) ≡ (
            if is_blank k
            then none
            else kept_video k (old_video ∷ []) (find_id (λ v. v.video_id) k (stub ∷ []))))
merge_youtube_items-union_example = merge_youtube_items-union (old_video ∷ []) (stub ∷ []) (λ e. cc)

abbrev host : Host
host = record { sha256_hex = λ t. t; absolute = λ t. ok t; to_lower = λ t. t; quote = λ t. t }

abbrev summary : Summary
summary = record blank_summary {
  id = b'1' ∷ [];
  source = b'x' ∷ [];
  capture_hash = b'h' ∷ [];
  prompt_version = b'p' ∷ [];
  model = b'm' ∷ [];
}

abbrev latest : Result
latest = record blank_result { summaries = some (summary ∷ []) }

abbrev candidate : SourceCandidate
candidate = record blank_source_candidate { external_id = b'1' ∷ []; source_type = b'x' ∷ [] }

filter_new-result_states_example :
    (b'h' ∷ [] ≡ capture_hash host candidate
      → Within candidate
          (filter_new_source_candidates host
            (b'p' ∷ [])
            (candidate ∷ [])
            (result_states latest)
            (b'm' ∷ [])).1)
    × (b'h' ∷ [] ≢ capture_hash host candidate
        → Within candidate
            (filter_new_source_candidates host
              (b'p' ∷ [])
              (candidate ∷ [])
              (result_states latest)
              (b'm' ∷ [])).0)
filter_new-result_states_example =
    filter_new-result_states host latest [] summary candidate (candidate ∷ []) (at_head refl) refl
      (unfold is_attributed trim in refl) (unfold trim in refl) refl refl

abbrev wanted : SourceMaterialKey
wanted = source_material_key_for_candidate candidate (b'p' ∷ []) (b'm' ∷ [])

abbrev row : SourceMaterialState
row = record {
  source_type = b'x' ∷ [];
  external_id = b'1' ∷ [];
  latest_capture_hash = [];
  prompt_version = b'p' ∷ [];
  model = b'm' ∷ [];
  content_type = [];
  artifact_kind = [];
  processed = true;
  last_seen_at = 0;
}

abbrev table : States
table = (key_text wanted, row) ∷ []

-- A store with one row.
abbrev one_row : List SourceMaterialKey → Outcome Text States
one_row keys = ok (if contains (key_text wanted) (map key_text keys) then table else [])

one_row-Answers : Answers one_row table
unfolding lookup
one_row-Answers keys m h k = ground (arith, eq_iff (key_text wanted) k)

asked : contains (key_text wanted) (map key_text (wanted ∷ [])) ≡ true
unfolding contains
asked = rw (==_refl (key_text wanted)) refl

no_warning : (read_source_material_states one_row no_cache (wanted ∷ [])).warnings ≡ []
unfolding read_source_material_states read_missing missing_keys lookup insert_all
no_warning = refl

read_source_material_states-through_example :
    lookup (key_text wanted) (read_source_material_states one_row no_cache (wanted ∷ [])).states
    ≡ first_some
        (lookup (key_text wanted) (cached_states no_cache))
        (lookup (key_text wanted) table)
read_source_material_states-through_example =
    read_source_material_states-through one_row table no_cache (wanted ∷ []) (key_text wanted)
      one_row-Answers asked no_warning
