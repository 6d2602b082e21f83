-- ===== src/Graph/Edges.antt =====
-- `buildInsightGraphEdges`: candidate edges between all pairs of nodes, the heaviest first, and a
-- cap on their number and on the degree of a node.
use second_brain.Prelude.{
  Bool, Dict, List, Option, Text, [], codes, contains, eqb, false, if◌then◌else◌, insert, is_nil,
  leb, lookup, ltb, none, not, or_else, some, sort_stable, suc, trim, true, values, zero, ℕ, ◌&&◌,
  ◌++◌, ◌+◌, ◌==◌, ◌||◌, ◌∷◌,
}
use second_brain.Models.{}
use second_brain.Graph.Response.{InsightGraphEdge, InsightGraphNode}

-- `strings.ToLower` and `strings.EqualFold` go by Unicode's tables: they are parameters.
pub record Casing : Type 0 where
  pub to_lower : Text → Text
  pub equal_fold : Text → Text → Bool

abbrev pub max_insight_graph_edges : ℕ
max_insight_graph_edges = 650

abbrev pub max_insight_graph_node_degree : ℕ
max_insight_graph_node_degree = 7

-- `s < t` on strings, which orders them as their code points.
unfoldable pub text_lt : Text → Text → Bool
text_lt s [] = false
text_lt [] (d ∷ t) = true
text_lt (c ∷ s) (d ∷ t) = ltb c d || (eqb c d && text_lt s t)

-- Trimmed values that are not blank, without repetition up to case.
unfoldable pub unique_values : Casing → List Text → List Text → List Text
unique_values casing seen [] = []
unique_values casing seen (v ∷ vs) =
    let key = casing.to_lower (trim v) in
    let skipped = unique_values casing seen vs in
    let added = unique_values casing (key ∷ seen) vs in
    if is_nil (trim v) || contains key seen then skipped else trim v ∷ added

unfoldable pub normalized_graph_topics : Casing → List Text → List Text
normalized_graph_topics casing values = sort_stable text_lt (unique_values casing [] values)

-- The map `seen`: the last spelling of each value.
unfoldable pub spellings : Casing → Dict Text → List Text → Dict Text
spellings casing seen [] = seen
spellings casing seen (v ∷ vs) =
    spellings casing
      (if is_nil (trim v) then seen else insert (casing.to_lower (trim v)) (trim v) seen) vs

unfoldable pub matching_spellings : Casing → Dict Text → List Text → List Text
matching_spellings casing seen [] = []
matching_spellings casing seen (v ∷ vs) =
    let rest = matching_spellings casing seen vs in
    if is_nil (trim v)
    then rest
    else elim (lookup (casing.to_lower (trim v)) seen) [ none ↦ rest | some shown ↦ shown ∷ rest ]

abbrev pub first_or_blank : List Text → Text
first_or_blank [] = []
first_or_blank (v ∷ vs) = v

unfoldable pub first_shared_graph_value : Casing → List Text → List Text → Text
first_shared_graph_value casing left right =
    first_or_blank
      (sort_stable text_lt (matching_spellings casing (spellings casing [] left) right))

-- Both are trimmed and not blank, and equal up to case.
abbrev pub share_value : Casing → Text → Text → Bool
share_value casing a b = not (is_nil (trim a)) && casing.equal_fold (trim a) (trim b)

-- The reason, the label and the weight; `none` is the blank reason.
unfoldable pub insight_graph_edge_reason :
    Casing → InsightGraphNode → InsightGraphNode → Option (Text × Text × ℕ)
insight_graph_edge_reason casing left right =
    let topic = first_shared_graph_value casing left.topics right.topics in
    if not (is_nil (first_shared_graph_value casing left.capture_ids right.capture_ids))
    then some (codes "same_capture", codes "Same source", 30)
    else if not (is_nil topic)
    then some (codes "shared_topic", topic, 24)
    else if share_value casing left.domain right.domain
    then some (codes "shared_domain", trim left.domain, 14)
    else if share_value casing left.kind right.kind
    then some (codes "shared_type", trim left.kind, 10)
    else none

unfoldable pub ordered_graph_pair : Text → Text → Text × Text
ordered_graph_pair left right = if text_lt right left then (right, left) else (left, right)

abbrev pub edge_between : Text × Text → Text × Text × ℕ → InsightGraphEdge
edge_between (source, target) (reason, label, weight) = record {
  id = source ++ (codes "::" ++ target);
  source = source;
  target = target;
  reason = reason;
  label = label;
  weight = weight;
}

-- The edge that a pair of nodes gives, if they have something in common.
unfoldable pub pair_edge : Casing → InsightGraphNode → InsightGraphNode → Option InsightGraphEdge
pair_edge casing left right = elim (insight_graph_edge_reason casing left right) [
  | none ↦ none
  | some why ↦ some (edge_between (ordered_graph_pair left.id right.id) why)
]

abbrev pub cons_some {ℓ} : {A : Type ℓ} → Option A → List A → List A
cons_some none xs = xs
cons_some (some x) xs = x ∷ xs

-- The inner loop, then the outer one: every pair once, in order.
unfoldable pub edges_from :
    Casing → InsightGraphNode → List InsightGraphNode → List InsightGraphEdge
edges_from casing left [] = []
edges_from casing left (right ∷ rest) =
    cons_some (pair_edge casing left right) (edges_from casing left rest)

unfoldable pub all_edges : Casing → List InsightGraphNode → List InsightGraphEdge
all_edges casing [] = []
all_edges casing (left ∷ rest) = edges_from casing left rest ++ all_edges casing rest

-- `seen` on the identifiers of the edges.
unfoldable pub unique_edges : List Text → List InsightGraphEdge → List InsightGraphEdge
unique_edges seen [] = []
unique_edges seen (e ∷ es) =
    let skipped = unique_edges seen es in
    let added = unique_edges (e.id ∷ seen) es in if contains e.id seen then skipped else e ∷ added

unfoldable pub edge_less : InsightGraphEdge → InsightGraphEdge → Bool
edge_less a b =
    if not (eqb a.weight b.weight)
    then ltb b.weight a.weight
    else if not (a.label == b.label)
    then text_lt a.label b.label
    else if not (a.source == b.source)
    then text_lt a.source b.source
    else text_lt a.target b.target

-- The map `degrees`, which is 0 at a missing key.
abbrev pub degree_of : Text → Dict ℕ → ℕ
degree_of v degrees = or_else (lookup v degrees) 0

abbrev pub bump : Text → Dict ℕ → Dict ℕ
bump v degrees = insert v (degree_of v degrees + 1) degrees

-- The last loop; `room` is how many edges may still be taken.
unfoldable pub take_edges : ℕ → Dict ℕ → List InsightGraphEdge → List InsightGraphEdge
take_edges room degrees [] = []
take_edges zero degrees (e ∷ es) = []
take_edges (suc room) degrees (e ∷ es) =
    let skipped = take_edges (suc room) degrees es in
    let taken = take_edges room (bump e.target (bump e.source degrees)) es in
    if leb max_insight_graph_node_degree (degree_of e.source degrees)
      || leb max_insight_graph_node_degree (degree_of e.target degrees)
    then skipped
    else e ∷ taken

unfoldable pub build_insight_graph_edges : Casing → List InsightGraphNode → List InsightGraphEdge
build_insight_graph_edges casing nodes =
    take_edges max_insight_graph_edges []
      (sort_stable edge_less (unique_edges [] (all_edges casing nodes)))
