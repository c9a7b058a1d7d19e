-- ===== src/Reasoning/Index.antt =====
-- reasoning.py: `GraphIndex`, its direct edges and its search graph.
pub mod Direct
pub mod Contents
pub mod Search
use nesy_reasoning_mcp.Prelude.{
  ℕ, String, Bool, true, not, Option, some, none, List, [], ◌∷◌, ◌++◌, foldl, filter, is_empty, leb,
  ltb, if◌then◌else◌,
}
use nesy_reasoning_mcp.Schemas.{RelationRecord, CanonicalImplicationEdge, ContextFilter}
use nesy_reasoning_mcp.Normalization.{normalize_relation_edges}
use nesy_reasoning_mcp.Reasoning.Networkx.{Host}
use nesy_reasoning_mcp.Reasoning.Scope.{context_compatible}

-- [edge for relation in relations for edge in normalize_relation(relation)]
unfoldable pub relation_edges : List RelationRecord → List CanonicalImplicationEdge
relation_edges [] = []
relation_edges (r ∷ rs) = normalize_relation_edges r ++ relation_edges rs

-- max(edges, key=confidence): the first of the greatest
abbrev pub best_of :
    CanonicalImplicationEdge → List CanonicalImplicationEdge → CanonicalImplicationEdge
best_of e [] = e
best_of e (d ∷ ds) = best_of (if ltb e.confidence d.confidence then d else e) ds

abbrev pub max_edge : List CanonicalImplicationEdge → Option CanonicalImplicationEdge
max_edge [] = none
max_edge (e ∷ es) = some (best_of e es)

module _ (host : Host) where
  pub record GraphIndex : Type 0 where
    pub relations : List RelationRecord
    pub edges : List CanonicalImplicationEdge
    pub graph : host.Graph

  unfoldable pub build_graph : List RelationRecord → Option ContextFilter → GraphIndex
  build_graph relations context_filter =
      let kept = filter (λ r. context_compatible host.iso r context_filter) relations in
      record {
        relations = kept;
        edges = relation_edges kept;
        graph = foldl host.add_edge host.empty (relation_edges kept);
      }

  unfoldable pub has_edge : host.Graph → String → String → Bool
  has_edge graph u v = not (is_empty (host.edges_between graph u v))

  unfoldable pub best_direct_edge :
      host.Graph → ℕ → String → String → Option CanonicalImplicationEdge
  unfolding has_edge
  best_direct_edge graph min_confidence antecedent consequent =
      if not (has_edge graph antecedent consequent)
      then none
      else max_edge (
          filter (λ e. leb min_confidence e.confidence)
            (host.edges_between graph antecedent consequent))

  -- the filter of `_search_graph`'s second loop
  abbrev add_strong_edge : ℕ → host.Graph → CanonicalImplicationEdge → host.Graph
  add_strong_edge min_confidence graph edge =
      if leb min_confidence edge.confidence then host.add_edge graph edge else graph

  unfoldable pub search_graph : host.Graph → ℕ → host.Graph
  search_graph graph min_confidence =
      if leb min_confidence 0
      then graph
      else foldl (add_strong_edge min_confidence)
          (foldl host.add_node host.empty (host.nodes graph)) (host.edges graph)
