-- ===== src/Graph/Degrees.antt =====
-- The edges of a built graph: their number, the degree of a node, and their ends.
use second_brain.Prelude.{
  ==_refl, All, All-append, All-sort_stable, sort_stable, Bool, Bool-cases, Dict, List,
  Option-cases, Text, [], arith, contains, eq_iff, if◌then◌else◌, inl, inr, keep, leb, length,
  lookup, lookup-insert, refl, some, suc, true, zero, ℕ, ◌+◌, ◌-◌, ◌==◌, ◌||◌, ◌∷◌, ◌≡◌, ◌≤◌,
}
use second_brain.Models.{}
use second_brain.Graph.Response.{InsightGraphEdge, InsightGraphNode, joins_ids, node_ids}
use second_brain.Graph.Edges.{
  Casing, all_edges, build_insight_graph_edges, bump, degree_of, edge_less, edges_from,
  max_insight_graph_edges, max_insight_graph_node_degree, ordered_graph_pair, pair_edge, take_edges,
  unique_edges,
}

abbrev pub touches : Text → InsightGraphEdge → Bool
touches v e = e.source == v || e.target == v

degree_of-bump :
    (v w : Text) (degrees : Dict ℕ)
    → degree_of v (bump w degrees)
      ≡ (if w == v then degree_of v degrees + 1 else degree_of v degrees)
degree_of-bump v w degrees =
    ground (arith, eq_iff w v, lookup-insert w v (degree_of w degrees + 1) degrees)

-- The degree that is left to a node bounds the edges at it.
touching-take_edges :
    (v : Text) (room : ℕ) (degrees : Dict ℕ) (es : List InsightGraphEdge)
    → length (keep (touches v) (take_edges room degrees es))
      ≤ max_insight_graph_node_degree - degree_of v degrees
unfolding take_edges
touching-take_edges v room degrees [] = ground arith
touching-take_edges v zero degrees (e ∷ es) = ground arith
touching-take_edges v (suc room) degrees (e ∷ es) =
    let degrees' = bump e.target (bump e.source degrees) in
    ground (
      arith,
      touching-take_edges v (suc room) degrees es,
      touching-take_edges v room degrees' es,
      eq_iff e.source v,
      eq_iff e.target v,
      degree_of-bump v e.target (bump e.source degrees),
      degree_of-bump v e.source degrees,
    )

length-take_edges :
    (room : ℕ) (degrees : Dict ℕ) (es : List InsightGraphEdge)
    → length (take_edges room degrees es) ≤ room
unfolding take_edges
length-take_edges room degrees [] = omega arith
length-take_edges zero degrees (e ∷ es) = omega arith
length-take_edges (suc room) degrees (e ∷ es) =
    let degrees' = bump e.target (bump e.source degrees) in
    ground (arith, length-take_edges (suc room) degrees es, length-take_edges room degrees' es)

module _ {κ} (P : InsightGraphEdge → Type κ) where
  All-take_edges :
      (room : ℕ) (degrees : Dict ℕ) (es : List InsightGraphEdge)
      → All P es
      → All P (take_edges room degrees es)
  unfolding take_edges
  All-take_edges room degrees [] h = tt
  All-take_edges zero degrees (e ∷ es) h = tt
  All-take_edges (suc room) degrees (e ∷ es) (he, h) =
      elim (Bool-cases (
        leb max_insight_graph_node_degree (degree_of e.source degrees)
        || leb max_insight_graph_node_degree (degree_of e.target degrees))) [
          | inl b ↦ rw b (All-take_edges (suc room) degrees es h)
          | inr b ↦ rw b (he, All-take_edges room (bump e.target (bump e.source degrees)) es h)
        ]

  All-unique_edges :
      (seen : List Text) (es : List InsightGraphEdge) → All P es → All P (unique_edges seen es)
  unfolding unique_edges
  All-unique_edges seen [] h = tt
  All-unique_edges seen (e ∷ es) (he, h) = elim (Bool-cases (contains e.id seen)) [
    | inl b ↦ rw b (All-unique_edges seen es h)
    | inr b ↦ rw b (he, All-unique_edges (e.id ∷ seen) es h)
  ]

-- Both ends of an edge are in the list.
abbrev Joins : List Text → InsightGraphEdge → Type 0
Joins ids e = joins_ids ids e ≡ true

pair_edge-Joins :
    (casing : Casing) (left right : InsightGraphNode) (ids : List Text) (e : InsightGraphEdge)
    → contains left.id ids ≡ true
    → contains right.id ids ≡ true
    → pair_edge casing left right ≡ some e
    → Joins ids e
unfolding pair_edge ordered_graph_pair
pair_edge-Joins casing left right ids e hl hr h = ground arith

edges_from-Joins :
    (casing : Casing) (left : InsightGraphNode) (rest : List InsightGraphNode) (ids : List Text)
    → contains left.id ids ≡ true
    → All (λ n. contains n.id ids ≡ true) rest
    → All (Joins ids) (edges_from casing left rest)
unfolding edges_from
edges_from-Joins casing left [] ids hl h = tt
edges_from-Joins casing left (right ∷ rest) ids hl (hr, h) =
    elim (Option-cases (pair_edge casing left right)) [
      | inl b ↦ rw b (edges_from-Joins casing left rest ids hl h)
      | inr (e, b) ↦ rw b (
        pair_edge-Joins casing left right ids e hl hr b,
        edges_from-Joins casing left rest ids hl h,
      )
    ]

all_edges-Joins :
    (casing : Casing) (nodes : List InsightGraphNode) (ids : List Text)
    → All (λ n. contains n.id ids ≡ true) nodes
    → All (Joins ids) (all_edges casing nodes)
unfolding all_edges
all_edges-Joins casing [] ids h = tt
all_edges-Joins casing (left ∷ rest) ids (hl, h) =
    All-append (Joins ids) (edges_from casing left rest) _
      (edges_from-Joins casing left rest ids hl h) (all_edges-Joins casing rest ids h)

All-contains_tail :
    (x : Text) (ids : List Text) (ns : List InsightGraphNode)
    → All (λ n. contains n.id ids ≡ true) ns
    → All (λ n. contains n.id (x ∷ ids) ≡ true) ns
unfolding contains
All-contains_tail x ids [] h = tt
All-contains_tail x ids (n ∷ ns) (hn, h) = (ground arith, All-contains_tail x ids ns h)

node_ids-contains : (ns : List InsightGraphNode) → All (λ n. contains n.id (node_ids ns) ≡ true) ns
unfolding contains
node_ids-contains [] = tt
node_ids-contains (n ∷ ns) =
    (rw (==_refl n.id) refl, All-contains_tail n.id (node_ids ns) ns (node_ids-contains ns))

-- A built graph has at most 650 edges and at most 7 at a node, and each joins two of its nodes.
pub build_insight_graph_edges_bounds :
    (casing : Casing) (nodes : List InsightGraphNode)
    → (length (build_insight_graph_edges casing nodes) ≤ max_insight_graph_edges)
      × ((v : Text)
          → length (keep (touches v) (build_insight_graph_edges casing nodes))
            ≤ max_insight_graph_node_degree)
      × All (λ e. joins_ids (node_ids nodes) e ≡ true) (build_insight_graph_edges casing nodes)
unfolding build_insight_graph_edges
build_insight_graph_edges_bounds casing nodes =
    let joins = Joins (node_ids nodes) in
    let candidates = unique_edges [] (all_edges casing nodes) in
    let sorted = sort_stable edge_less candidates in
    (
      length-take_edges max_insight_graph_edges [] sorted,
      λ v. unfold lookup in touching-take_edges v max_insight_graph_edges [] sorted,
      All-take_edges joins max_insight_graph_edges [] sorted (
          All-sort_stable edge_less joins candidates (
            All-unique_edges joins [] (all_edges casing nodes)
              (all_edges-Joins casing nodes (node_ids nodes) (node_ids-contains nodes)))),
    )
