-- ===== src/Models/Persisted.antt =====
-- What is left of a value after `encoding/json` has written and read it by the tags of models.go:
-- a field tagged `json:"-"` is blank, and an empty slice tagged `omitempty` is nil.
use second_brain.Prelude.{[], false, map, none, some, ◌∷◌}
use mathlib.Core.Option
use second_brain.Models.Base.{Slice}
use second_brain.Models.Sources.{YouTubeItem}
use second_brain.Models.Digest.{DigestIssue}
use second_brain.Models.State.{Result}

unfoldable pub omit_empty {ℓ} : {A : Type ℓ} → Slice A → Slice A
omit_empty none = none
omit_empty (some []) = none
omit_empty (some (x ∷ xs)) = some (x ∷ xs)

unfoldable pub persisted_item : YouTubeItem → YouTubeItem
persisted_item item = record item {
  transcript_text = [];
  transcript_original_text = [];
  transcript_timed_text = [];
}

unfoldable pub persisted_digest : DigestIssue → DigestIssue
persisted_digest digest = record digest {
  owner_id = [];
  illustration_available = false;
  illustration_base64 = [];
}

unfoldable pub persisted : Result → Result
persisted result = record result {
  youtube_items = Option.map (map persisted_item) result.youtube_items;
  artifacts = omit_empty result.artifacts;
  processing = omit_empty result.processing;
  themes = omit_empty result.themes;
  insight_clusters = omit_empty result.insight_clusters;
  connections = omit_empty result.connections;
  digest = Option.map persisted_digest result.digest;
}
