-- ===== src/Graph.antt =====
-- backend/internal/knowledge/insight_graph.go: the graph of insights, its limits and its edges.
pub mod Response
pub mod Edges
pub mod Closed
pub mod Degrees
