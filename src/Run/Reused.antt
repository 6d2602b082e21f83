-- ===== src/Run/Reused.antt =====
-- The model is asked for exactly the candidates that have no stored synthesis.
use second_brain.Prelude.{
  Bool, List, Text, [], has_key, if◌then◌else◌, not, ◌&&◌, ◌++◌, ◌==◌, ◌||◌, ◌∷◌, ◌≡◌,
}
use second_brain.Models.{ProcessedSource, SourceCandidate, SynthesisCacheKey, source_type_youtube}
use second_brain.Storage.Upload.{Host, capture_hash}
use second_brain.Run.Process.{Syntheses, Synthesis}

-- A source by its type and its identifier there.
abbrev pub source_name : Text → Text → Text
source_name source_type external_id = source_type ++ b':' ∷ external_id

abbrev pub source_key : ProcessedSource → Text
source_key s = source_name s.source_type s.external_id

abbrev pub candidate_name : SourceCandidate → Text
candidate_name c = source_name c.source_type c.external_id

-- What a synthesis is stored under: `source:identifier:hash:prompt:model`.
abbrev pub stored_name : Text → Text → Text → SourceCandidate → Text
stored_name prompt_version model hash c =
    c.source_type
    ++ b':' ∷ (c.external_id ++ b':' ∷ (hash ++ b':' ∷ (prompt_version ++ b':' ∷ model)))

-- What the store is asked for: a synthesis of a candidate under a hash.
abbrev pub wanted : Text → Text → Text → SourceCandidate → SynthesisCacheKey
wanted prompt_version model hash c = record {
  source_type = c.source_type;
  external_id = c.external_id;
  capture_hash = hash;
  prompt_version = prompt_version;
  model = model;
}

-- A synthesis of this content is stored, or one of any content, unless it is a video.
abbrev pub is_stored : Host → Text → Text → Syntheses → Syntheses → SourceCandidate → Bool
is_stored host prompt_version model cached source_cached c =
    has_key (stored_name prompt_version model (capture_hash host c) c) cached
    || (not (c.source_type == source_type_youtube)
        && has_key (stored_name prompt_version model [] c) source_cached)

module _ (host : Host) (synthesis : Synthesis) (prompt_version model : Text) where
  -- What a candidate becomes.
  abbrev Reuses : Bool → SourceCandidate → ProcessedSource × List SourceCandidate → Type 0
  Reuses stored c out =
      (source_key out.0 ≡ candidate_name c)
      × (out.0.cached ≡ stored)
      × (out.1 ≡ (if stored then [] else c ∷ []))
