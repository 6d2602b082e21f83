-- ===== src/Models/State.antt =====
-- The result of a knowledge run, and the status of a refresh.
use second_brain.Prelude.{ℕ, Text, Option, ℤ}
use second_brain.Models.Base.{Time, Slice}
use second_brain.Models.Sources.{ValidationItem, XBookmark, YouTubeItem}
use second_brain.Models.Knowledge.{
  Summary, Insight, ActionItem, SourceArtifact, ProcessingEvent, ThemeCluster, InsightCluster,
  SourceConnection,
}
use second_brain.Models.Digest.{DigestIssue}

pub record AppStateSourceCounts : Type 0 where
  pub x_bookmarks : ℤ
  pub youtube_items : ℤ

-- The anonymous struct of `Result.SourceStatus`; a `SourceStatus` is a string.
pub record SourceStatuses : Type 0 where
  pub x : Text
  pub youtube : Text
  pub one_cli : Text

pub record Result : Type 0 where
  pub generated_at : Time
  pub source_status : SourceStatuses
  pub source_counts : AppStateSourceCounts
  pub x_bookmarks : Slice XBookmark
  pub youtube_items : Slice YouTubeItem
  pub summaries : Slice Summary
  pub insights : Slice Insight
  pub action_items : Slice ActionItem
  pub artifacts : Slice SourceArtifact
  pub processing : Slice ProcessingEvent
  pub themes : Slice ThemeCluster
  pub insight_clusters : Slice InsightCluster
  pub connections : Slice SourceConnection
  pub digest : Option DigestIssue
  pub validation : Slice ValidationItem
  pub blockers : Slice Text

pub record RefreshStatus : Type 0 where
  pub id : Text
  pub status : Text
  pub started_at : Time
  pub finished_at : Option Time
  pub error : Text
  pub phase : Text
  pub message : Text
  pub elapsed_seconds : ℕ
