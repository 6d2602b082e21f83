-- ===== src/Models/Sources.antt =====
-- What is fetched from X and from YouTube, and the identity of a source's material.
use second_brain.Prelude.{Bool, Text, List, ℤ, Dict}
use second_brain.Models.Base.{Time, SourceType}

pub record ValidationItem : Type 0 where
  pub label : Text
  pub status : Text
  pub detail : Text

pub record XBookmark : Type 0 where
  pub id : Text
  pub content_type : Text
  pub text : Text
  pub title : Text
  pub body : Text
  pub preview_text : Text
  pub expanded_url : Text
  pub author_id : Text
  pub author_name : Text
  pub username : Text
  pub created_at : Text
  pub public_metrics : Dict ℤ
  pub source_url : Text

pub record ImportantTimeMarker : Type 0 where
  pub label : Text
  pub timestamp : Text
  pub seconds : ℤ
  pub why_it_matters : Text
  pub quote : Text

pub record YouTubeItem : Type 0 where
  pub video_id : Text
  pub title : Text
  pub description : Text
  pub channel_title : Text
  pub published_at : Text
  pub duration_seconds : ℤ
  pub source_url : Text
  pub transcript_status : Text
  pub transcript_lang : Text
  pub transcript_source_lang : Text
  pub transcript_available_langs : List Text
  pub transcript_translation_status : Text
  pub transcript_preview : Text
  pub transcript_original_preview : Text
  pub transcript_error : Text
  pub important_time_markers : List ImportantTimeMarker
  pub transcript_text : Text
  pub transcript_original_text : Text
  pub transcript_timed_text : Text

-- source_material.go.
pub record SourceMaterialKey : Type 0 where
  pub source_type : SourceType
  pub external_id : Text
  pub prompt_version : Text
  pub model : Text

pub record SourceMaterialState : Type 0 where
  pub source_type : SourceType
  pub external_id : Text
  pub latest_capture_hash : Text
  pub prompt_version : Text
  pub model : Text
  pub content_type : Text
  pub artifact_kind : Text
  pub processed : Bool
  pub last_seen_at : Time

-- source_candidate.go.
pub record SourceCandidate : Type 0 where
  pub source_type : SourceType
  pub external_id : Text
  pub source_url : Text
  pub title : Text
  pub author_name : Text
  pub username : Text
  pub published_at : Text
  pub body : Text
  pub artifact_kind : Text
  pub content_type : Text
