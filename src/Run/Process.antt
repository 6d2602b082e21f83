-- ===== src/Run/Process.antt =====
-- `processSourceCandidates` of service.go: which candidates are synthesised, and which have a stored
-- synthesis. The store, the synthesis by a model and the artifacts are parameters. A worker handles a
-- candidate by itself and writes its own place of the result, so their order does not matter.
use second_brain.Prelude.{
  Bool, Dict, List, Option, Outcome, Text, [], codes, err, false, if◌then◌else◌, insert, is_some,
  join, lookup, map, none, ok, some, true, ◌++◌, ◌==◌, ◌∷◌,
}
use second_brain.Models.{
  ActionItem, Insight, ProcessedSource, SourceArtifact, SourceCandidate, SynthesisCacheKey,
  SynthesisRecord, source_type_youtube,
}
use second_brain.Storage.Upload.{Host, capture_hash}
use second_brain.Material.Keys.{text_at}
use second_brain.Material.Candidates.{item_content_type}
use second_brain.Run.Output.{no_artifact}

-- `SynthesisCacheKey.String`.
unfoldable pub synthesis_key_text : SynthesisCacheKey → Text
synthesis_key_text key =
    join
      (key.source_type ∷ key.external_id ∷ key.capture_hash ∷ key.prompt_version ∷ key.model ∷ [])
      (codes ":")

abbrev pub Syntheses : Type 0
Syntheses = Dict SynthesisRecord

-- `readCachedSyntheses`, the artifact of the evidence, the synthesis, and its artifact.
pub record Synthesis : Type 0 where
  pub read_cached : List SynthesisCacheKey → Outcome Text Syntheses
  pub evidence : SourceCandidate → Text → SourceArtifact
  pub synthesize : SourceCandidate → Text → SynthesisRecord
  pub artifact : SourceCandidate → Text → SynthesisRecord → SourceArtifact

abbrev pub cached_insight : Insight → Insight
cached_insight i = record i { cache_status = codes "cached" }

abbrev pub cached_action : ActionItem → ActionItem
cached_action a = record a { cache_status = codes "cached" }

unfoldable pub with_cache_status : SynthesisRecord → SynthesisRecord
with_cache_status r = record r {
  summary = record (r.summary) { cache_status = codes "cached" };
  insights = map cached_insight r.insights;
  action_items = map cached_action r.action_items;
}

-- What a store returned, or nothing, and then a blocker.
abbrev pub found_syntheses : Outcome Text Syntheses → Syntheses
found_syntheses (err e) = []
found_syntheses (ok cached) = cached

abbrev pub lookup_blockers : Text → Outcome Text Syntheses → List Text
lookup_blockers label (err e) = (label ++ e) ∷ []
lookup_blockers label (ok cached) = []

abbrev pub candidate_key : SourceCandidate → Text
candidate_key c = c.source_type ++ b':' ∷ c.external_id

module _ (host : Host) (synthesis : Synthesis) (prompt_version model : Text) where
  -- The map `captureHashes`: of two candidates with one key the last counts.
  unfoldable pub capture_hashes : Dict Text → List SourceCandidate → Dict Text
  capture_hashes hashes [] = hashes
  capture_hashes hashes (c ∷ cs) =
      capture_hashes (insert (candidate_key c) (capture_hash host c) hashes) cs

  abbrev pub synthesis_key : Text → SourceCandidate → SynthesisCacheKey
  synthesis_key hash c = record {
    source_type = c.source_type;
    external_id = c.external_id;
    capture_hash = hash;
    prompt_version = prompt_version;
    model = model;
  }

  -- The stored synthesis of a candidate: of this content, or, unless it is a video, of any.
  unfoldable pub stored_synthesis :
      Syntheses → Syntheses → SourceCandidate → Text → Option SynthesisRecord
  unfolding synthesis_key_text
  stored_synthesis cached source_cached c hash =
      elim (lookup (synthesis_key_text (synthesis_key hash c)) cached) [
        | some r ↦ some r
        | none ↦
            if c.source_type == source_type_youtube
            then none
            else lookup (synthesis_key_text (synthesis_key [] c)) source_cached
      ]

  abbrev pub stored_hash : Syntheses → SourceCandidate → Text → SynthesisRecord → Text
  stored_hash cached c hash r =
      if is_some (lookup (synthesis_key_text (synthesis_key hash c)) cached)
      then hash
      else r.capture_hash

  abbrev pub processed_source :
      SourceCandidate
      → Text
      → SourceArtifact
      → SourceArtifact
      → SynthesisRecord
      → Bool
      → ProcessedSource
  processed_source c hash artifact summary_artifact r is_cached = record {
    owner_id = [];
    source_type = c.source_type;
    content_type = item_content_type c;
    external_id = c.external_id;
    source_url = c.source_url;
    title = c.title;
    author_name = c.author_name;
    username = c.username;
    published_at = c.published_at;
    capture_hash = hash;
    artifact = artifact;
    summary_artifact = summary_artifact;
    synthesis = r;
    chunks = [];
    embeddings = [];
    entities = [];
    keywords = [];
    cached = is_cached;
  }

  -- What follows the lookup: the source, and the candidates that were handed to the model for it.
  unfoldable pub process_found :
      Syntheses
      → SourceCandidate
      → Text
      → Option SynthesisRecord
      → ProcessedSource × List SourceCandidate
  unfolding with_cache_status
  process_found cached c hash (some r) = (
    processed_source c (stored_hash cached c hash r) no_artifact no_artifact (with_cache_status r)
        true,
    [],
  )
  process_found cached c hash none =
      let r = synthesis.synthesize c hash in
      (
        processed_source c hash (synthesis.evidence c hash) (synthesis.artifact c hash r) r false,
        c ∷ [],
      )

  unfoldable pub process_source_candidate :
      Syntheses → Syntheses → SourceCandidate → Text → ProcessedSource × List SourceCandidate
  unfolding stored_synthesis process_found
  process_source_candidate cached source_cached c hash =
      process_found cached c hash (stored_synthesis cached source_cached c hash)

  unfoldable pub process_all :
      Syntheses
      → Syntheses
      → Dict Text
      → List SourceCandidate
      → List ProcessedSource × List SourceCandidate
  unfolding process_source_candidate
  process_all cached source_cached hashes [] = ([], [])
  process_all cached source_cached hashes (c ∷ cs) =
      let (source, asked) =
        process_source_candidate cached source_cached c (text_at (candidate_key c) hashes) in
      let (sources, asked') = process_all cached source_cached hashes cs in
      (source ∷ sources, asked ++ asked')

  -- The processed sources, the blockers, and the candidates that were handed to the model.
  unfoldable pub process_source_candidates :
      List SourceCandidate → List ProcessedSource × List Text × List SourceCandidate
  unfolding capture_hashes process_all
  process_source_candidates [] = ([], [], [])
  process_source_candidates (first ∷ rest) =
      let cs = first ∷ rest in
      let hashes = capture_hashes [] cs in
      let read = synthesis.read_cached (map (λ c. synthesis_key (capture_hash host c) c) cs) in
      let source_read = synthesis.read_cached (map (synthesis_key []) cs) in
      let (sources, asked) =
        process_all (found_syntheses read) (found_syntheses source_read) hashes cs in
      (
        sources,
        lookup_blockers (codes "synthesis cache lookup failed: ") read
            ++ lookup_blockers (codes "source cache lookup failed: ") source_read,
        asked,
      )
