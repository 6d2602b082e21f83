-- ===== src/ReadModel/State.antt =====
-- The views of models.go that readers are served, and the cut-down records of a view.
use second_brain.Prelude.{Option, Text, [], map}
use mathlib.Core.Option
use second_brain.Models.{
  AppStateSourceCounts, DigestIssue, Float, Insight, InsightCluster, RefreshStatus, Result, Slice,
  SourceConnection, ThemeCluster, Time, XBookmark, YouTubeItem, persisted, persisted_digest,
  persisted_item,
}
use second_brain.Graph.Response.{InsightGraphNode, InsightGraphResponse}

pub record AskSecondBrainSource : Type 0 where
  pub id : Text
  pub title : Text
  pub source : Text
  pub source_url : Text
  pub excerpt : Text
  pub score : Float

pub record AppStateManifest : Type 0 where
  pub schema_version : Text
  pub run_id : Text
  pub generated_at : Time
  pub published_at : Time
  pub etag : Text
  pub graph_status : Text
  pub digest_status : Text

pub record AppStateViews : Type 0 where
  pub insights : Slice Insight
  pub daily_newsletter : Option DigestIssue
  pub original_x_bookmarks : Slice XBookmark
  pub original_youtube_posts : Slice YouTubeItem

pub record AppStateGraph : Type 0 where
  pub status : Text
  pub themes : Slice ThemeCluster
  pub insight_clusters : Slice InsightCluster
  pub connections : Slice SourceConnection
  pub insight_graph : Option InsightGraphResponse

pub record AppStateAskContext : Type 0 where
  pub run_id : Text
  pub sources : Slice AskSecondBrainSource
  pub updated_at : Time

pub record AppState : Type 0 where
  pub manifest : AppStateManifest
  pub latest : Option Result
  pub views : AppStateViews
  pub source_counts : AppStateSourceCounts
  pub digests : Slice DigestIssue
  pub refresh_status : RefreshStatus
  pub graph : AppStateGraph
  pub ask_context : AppStateAskContext

-- What encoding/json keeps of a graph: `CaptureIDs` is tagged `json:"-"`.
unfoldable pub persisted_node : InsightGraphNode → InsightGraphNode
persisted_node node = record node { capture_ids = [] }

unfoldable pub persisted_graph : InsightGraphResponse → InsightGraphResponse
persisted_graph graph = record graph { nodes = Option.map (map persisted_node) graph.nodes }

-- What encoding/json keeps of a state, by the tags of its fields.
unfoldable pub persisted_state : AppState → AppState
persisted_state state = record state {
  latest = Option.map persisted state.latest;
  views = record (state.views) {
    daily_newsletter = Option.map persisted_digest state.views.daily_newsletter;
    original_youtube_posts = Option.map (map persisted_item) state.views.original_youtube_posts;
  };
  digests = Option.map (map persisted_digest) state.digests;
  graph = record (state.graph) {
    insight_graph = Option.map persisted_graph state.graph.insight_graph;
  };
}
