-- ===== src/Graph/Closed.antt =====
-- What `LimitInsightGraphResponse` serves.
use second_brain.Prelude.{All, true, ◌≡◌}
use second_brain.Models.{items}
use second_brain.Graph.Response.{InsightGraphResponse, joins_ids, node_ids}

-- Every edge joins two nodes of the graph.
abbrev pub IsClosed : InsightGraphResponse → Type 0
IsClosed g = All (λ e. joins_ids (node_ids (items g.nodes)) e ≡ true) (items g.edges)
