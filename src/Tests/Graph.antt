-- ===== src/Tests/Graph.antt =====
-- The graph of insights at a concrete input.
use second_brain.Prelude.{All, Text, [], keep, length, pos, some, true, ◌==◌, ◌∷◌, ◌≡◌, ◌≤◌}
use second_brain.Graph.Response.{InsightGraphNode, InsightGraphResponse, joins_ids, node_ids}
use second_brain.Graph.Edges.{
  Casing, build_insight_graph_edges, max_insight_graph_edges, max_insight_graph_node_degree,
}
use second_brain.Graph.Degrees.{build_insight_graph_edges_bounds, touches}

abbrev node : Text → InsightGraphNode
node id = record {
  id = id;
  label = [];
  canonical_insight = [];
  mechanism = [];
  domain = [];
  kind = [];
  topics = (b't' ∷ []) ∷ [];
  confidence = [];
  source_url = [];
  score = 0;
  capture_ids = [];
}

abbrev graph : InsightGraphResponse
graph = record {
  nodes = some (node (b'1' ∷ []) ∷ node (b'2' ∷ []) ∷ []);
  edges = some [];
  stats = record { total_insights = pos 2; returned_insights = 2; returned_edges = 0 };
}

abbrev casing : Casing
casing = record { to_lower = λ t. t; equal_fold = λ s t. s == t }

build_insight_graph_edges_bounds_example :
    (length (build_insight_graph_edges casing (node (b'1' ∷ []) ∷ node (b'2' ∷ []) ∷ []))
      ≤ max_insight_graph_edges)
    × ((v : Text)
        → length (
            keep
              (touches v)
              (build_insight_graph_edges casing (node (b'1' ∷ []) ∷ node (b'2' ∷ []) ∷ [])))
          ≤ max_insight_graph_node_degree)
    × All
        (λ e. joins_ids (node_ids (node (b'1' ∷ []) ∷ node (b'2' ∷ []) ∷ [])) e ≡ true)
        (build_insight_graph_edges casing (node (b'1' ∷ []) ∷ node (b'2' ∷ []) ∷ []))
build_insight_graph_edges_bounds_example =
    build_insight_graph_edges_bounds casing (node (b'1' ∷ []) ∷ node (b'2' ∷ []) ∷ [])
