-- ===== src/Graph/Response.antt =====
-- The graph that is served, and `LimitInsightGraphResponse`. A weight counts tenths.
use second_brain.Prelude.{
  Bool, List, Option, Outcome, Text, codes, contains, err, if◌then◌else◌, is_nil, is_zero_int, keep,
  leb, leb_int, length, ltb, ltb_int, map, negsuc, none, ok, pos, some, take, trim, ℕ, ℤ, ◌&&◌,
}
use second_brain.Models.{Float, Slice, items}

pub record InsightGraphNode : Type 0 where
  pub id : Text
  pub label : Text
  pub canonical_insight : Text
  pub mechanism : Text
  pub domain : Text
  pub kind : Text
  pub topics : List Text
  pub confidence : Text
  pub source_url : Text
  pub score : Float
  pub capture_ids : List Text

pub record InsightGraphEdge : Type 0 where
  pub id : Text
  pub source : Text
  pub target : Text
  pub reason : Text
  pub label : Text
  pub weight : ℕ

pub record InsightGraphStats : Type 0 where
  pub total_insights : ℤ
  pub returned_insights : ℕ
  pub returned_edges : ℕ

pub record InsightGraphResponse : Type 0 where
  pub nodes : Slice InsightGraphNode
  pub edges : Slice InsightGraphEdge
  pub stats : InsightGraphStats

abbrev pub default_insight_graph_limit : ℕ
default_insight_graph_limit = 180

abbrev pub max_insight_graph_limit : ℕ
max_insight_graph_limit = 500

-- `strconv.Atoi` is a parameter: `none` is its error.
unfoldable pub normalize_insight_graph_limit : (Text → Option ℤ) → Text → Outcome Text ℤ
normalize_insight_graph_limit atoi raw =
    let trimmed = trim raw in
    if is_nil trimmed then ok (pos default_insight_graph_limit) else elim (atoi trimmed) [
      | none ↦ err (codes "limit must be a positive integer")
      | some limit ↦
          if leb_int limit (pos 0)
          then err (codes "limit must be a positive integer")
          else if ltb_int (pos max_insight_graph_limit) limit
          then ok (pos max_insight_graph_limit)
          else ok limit
    ]

-- The two tests at the head of the functions that take a limit.
unfoldable pub graph_limit : ℤ → ℕ
graph_limit (negsuc n) = default_insight_graph_limit
graph_limit (pos n) =
    if leb n 0
    then default_insight_graph_limit
    else if ltb max_insight_graph_limit n
    then max_insight_graph_limit
    else n

abbrev pub node_ids : List InsightGraphNode → List Text
node_ids = map (λ n. n.id)

-- Both ends of the edge are among the identifiers.
abbrev pub joins_ids : List Text → InsightGraphEdge → Bool
joins_ids ids e = contains e.source ids && contains e.target ids

unfoldable pub graph_response :
    List InsightGraphNode → List InsightGraphEdge → ℤ → InsightGraphResponse
graph_response nodes edges total = record {
  nodes = some nodes;
  edges = some edges;
  stats = record {
    total_insights = total;
    returned_insights = length nodes;
    returned_edges = length edges;
  };
}

unfoldable pub limit_insight_graph_response : InsightGraphResponse → ℤ → InsightGraphResponse
limit_insight_graph_response graph limit =
    let n = graph_limit limit in
    let nodes = items graph.nodes in
    let edges = items graph.edges in
    let total =
      if is_zero_int graph.stats.total_insights
      then pos (length nodes)
      else graph.stats.total_insights in
    if ltb n (length nodes)
    then graph_response (take n nodes) (keep (joins_ids (node_ids (take n nodes))) edges) total
    else graph_response nodes edges total

unfoldable pub limit_insight_graph_response_pointer :
    Option InsightGraphResponse → ℤ → Option InsightGraphResponse
limit_insight_graph_response_pointer none limit = none
limit_insight_graph_response_pointer (some graph) limit =
    some (limit_insight_graph_response graph limit)
