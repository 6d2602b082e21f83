-- ===== src/Models/Knowledge.antt =====
-- What synthesis makes of the sources: summaries, insights, actions, clusters, connections.
use second_brain.Prelude.{ℕ, Bool, Text, List, Option, ℤ}
use second_brain.Models.Base.{Time, Float, SourceType}
use second_brain.Models.Sources.{ImportantTimeMarker}

pub record QualityScore : Type 0 where
  pub overall : Float
  pub conciseness : Float
  pub efficacy : Float
  pub grounding : Float
  pub novelty : Float
  pub verdict : Text
  pub rationale : Text

pub record Summary : Type 0 where
  pub id : Text
  pub source : Text
  pub title : Text
  pub source_url : Text
  pub decision : Text
  pub summary : Text
  pub quote : Text
  pub confidence : Text
  pub notes : List Text
  pub quality : Option QualityScore
  pub important_time_markers : List ImportantTimeMarker
  pub cache_status : Text
  pub capture_hash : Text
  pub prompt_version : Text
  pub model : Text
  pub generated_at : Option Time

pub record InsightEvidenceRef : Type 0 where
  pub chunk_id : Text
  pub chunk_index : Option ℤ
  pub quote : Text

pub record Insight : Type 0 where
  pub id : Text
  pub source : Text
  pub source_id : Text
  pub title : Text
  pub insight : Text
  pub raw_insight : Text
  pub canonical_insight : Text
  pub abstract_insight : Text
  pub practical_text : Text
  pub mechanism : Text
  pub insight_type : Text
  pub domain : Text
  pub topics : List Text
  pub entities : List Text
  pub evidence : Text
  pub evidence_refs : List InsightEvidenceRef
  pub source_url : Text
  pub confidence : Text
  pub explicit_or_inferred : Text
  pub importance_score : Float
  pub novelty_score : Float
  pub actionability_score : Float
  pub quality : Option QualityScore
  pub embedding_text : Text
  pub cache_status : Text
  pub generated_at : Option Time

pub record InsightCluster : Type 0 where
  pub id : Text
  pub label : Text
  pub canonical_insight : Text
  pub summary : Text
  pub layer : Text
  pub score : Float
  pub representative_insight_ids : List Text
  pub insight_ids : List Text

pub record ActionItem : Type 0 where
  pub id : Text
  pub source : Text
  pub source_id : Text
  pub title : Text
  pub action : Text
  pub rationale : Text
  pub source_url : Text
  pub priority : Text
  pub cache_status : Text
  pub generated_at : Option Time

pub record SourceArtifact : Type 0 where
  pub source : Text
  pub source_id : Text
  pub kind : Text
  pub bucket : Text
  pub path : Text
  pub checksum : Text
  pub content_type : Text
  pub byte_size : ℕ
  pub stored : Bool
  pub error : Text

pub record ProcessingEvent : Type 0 where
  pub source : Text
  pub source_id : Text
  pub title : Text
  pub capture_hash : Text
  pub prompt_version : Text
  pub model : Text
  pub status : Text
  pub detail : Text

pub record ThemeCluster : Type 0 where
  pub id : Text
  pub label : Text
  pub evidence : Text
  pub score : Float
  pub sources : List Text

pub record SourceConnection : Type 0 where
  pub id : Text
  pub left_source_id : Text
  pub right_source_id : Text
  pub relationship : Text
  pub evidence : Text
  pub confidence : Text
  pub shared_signals : List Text

pub record SourceProviderConnection : Type 0 where
  pub id : Text
  pub provider : Text
  pub provider_account_id : Text
  pub scopes : List Text
  pub token_status : Text
  pub last_validated_at : Option Time
  pub updated_at : Time

pub record SynthesisCacheKey : Type 0 where
  pub source_type : SourceType
  pub external_id : Text
  pub capture_hash : Text
  pub prompt_version : Text
  pub model : Text

pub record SynthesisRecord : Type 0 where
  pub source_type : SourceType
  pub external_id : Text
  pub capture_hash : Text
  pub prompt_version : Text
  pub model : Text
  pub summary : Summary
  pub insights : List Insight
  pub action_items : List ActionItem
  pub generated_at : Time

pub record SourceChunk : Type 0 where
  pub index : ℕ
  pub content : Text
  pub token_estimate : ℕ
  pub checksum : Text

pub record EmbeddingRecord : Type 0 where
  pub kind : Text
  pub label : Text
  pub model : Text
  pub dimensions : ℕ
  pub vector : Text
  pub chunk_index : Option ℕ

pub record EntityRecord : Type 0 where
  pub label : Text
  pub kind : Text
  pub confidence : Text
  pub evidence : Text

pub record ProcessedSource : Type 0 where
  pub owner_id : Text
  pub source_type : SourceType
  pub content_type : Text
  pub external_id : Text
  pub source_url : Text
  pub title : Text
  pub author_name : Text
  pub username : Text
  pub published_at : Text
  pub capture_hash : Text
  pub artifact : SourceArtifact
  pub summary_artifact : SourceArtifact
  pub synthesis : SynthesisRecord
  pub chunks : List SourceChunk
  pub embeddings : List EmbeddingRecord
  pub entities : List EntityRecord
  pub keywords : List Text
  pub cached : Bool
