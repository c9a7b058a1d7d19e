-- ===== src/Reasoning/Paths.antt =====
-- reasoning.py: `find_paths` and the paths that it returns. `none` is a ValueError.
pub mod Sound
pub mod Valid
use nesy_reasoning_mcp.Prelude.{
  ℕ, ◌-◌, String, Bool, true, false, not, ◌||◌, Option, some, none, List, [], ◌∷◌, ◌==◌, text_key,
  if◌then◌else◌, contains, sort_by, take, length, leb, ltb, ◌>>=◌, map_option,
}
use nesy_reasoning_mcp.Schemas.{CanonicalImplicationEdge, ConfidencePolicy, PathStrategy}
use nesy_reasoning_mcp.Reasoning.Networkx.{Host}
use nesy_reasoning_mcp.Reasoning.Confidence.{aggregate_confidence, rank_confidence}
use nesy_reasoning_mcp.Reasoning.Index.{GraphIndex, best_direct_edge, search_graph}

pub record ReasoningPath : Type 0 where
  pub nodes : List String
  pub edges : List CanonicalImplicationEdge
  pub evidence_confidence : Option ℕ
  pub confidence_policy : ConfidencePolicy

-- The keyword arguments of `find_paths`.
pub record PathQuery : Type 0 where
  pub max_depth : ℕ
  pub strategy : PathStrategy
  pub max_paths : ℕ
  pub confidence_policy : ConfidencePolicy
  pub direct_only : Bool
  pub min_confidence : ℕ

module _ (host : Host) where
  unfoldable pub best_edges_for_nodes :
      host.Graph → ℕ → List String → Option (List CanonicalImplicationEdge)
  best_edges_for_nodes graph min_confidence [] = some []
  best_edges_for_nodes graph min_confidence (left ∷ []) = some []
  best_edges_for_nodes graph min_confidence (left ∷ right ∷ rest) = do
    edge ← best_direct_edge host graph min_confidence left right
    edges ← best_edges_for_nodes graph min_confidence (right ∷ rest)
    some (edge ∷ edges)

  abbrev pub path_with : PathQuery → List String → List CanonicalImplicationEdge → ReasoningPath
  path_with q nodes edges = record {
    nodes = nodes;
    edges = edges;
    evidence_confidence = aggregate_confidence host.mul edges q.confidence_policy;
    confidence_policy = q.confidence_policy;
  }

  unfoldable pub path_of : host.Graph → PathQuery → List String → Option ReasoningPath
  path_of graph q nodes = do
    edges ← best_edges_for_nodes graph q.min_confidence nodes
    some (path_with q nodes edges)

  -- `[path] if path is not None else []`, after `_shortest_path`
  shortest_from : host.Graph → PathQuery → Option (List String) → Option (List ReasoningPath)
  shortest_from graph q none = some []
  shortest_from graph q (some nodes) =
      if ltb q.max_depth (length nodes - 1)
      then some []
      else do path ← path_of graph q nodes; some (path ∷ [])

  -- the sort key (-rank_confidence(edges), len(edges))
  abbrev stronger_first : ReasoningPath → ReasoningPath → Bool
  stronger_first a b =
      let ra = rank_confidence host.mul a.edges in
      let rb = rank_confidence host.mul b.edges in
      if ltb rb ra then true else if ltb ra rb then false else leb (length a.edges) (length b.edges)

  all_paths : host.Graph → PathQuery → List (List String) → Option (List ReasoningPath)
  all_paths graph q node_paths = do
    paths ← map_option (path_of graph q) node_paths
    some (take q.max_paths (sort_by stronger_first paths))

  direct_path :
      PathQuery → String → String → Option CanonicalImplicationEdge → Option (List ReasoningPath)
  direct_path q start end none = some []
  direct_path q start end (some edge) = some (path_with q (start ∷ end ∷ []) (edge ∷ []) ∷ [])

  by_strategy :
      GraphIndex host → PathQuery → String → String → PathStrategy → Option (List ReasoningPath)
  unfolding shortest_from all_paths
  by_strategy index q start end PathStrategy.best_confidence =
      shortest_from index.graph q
        (host.shortest_path (search_graph host index.graph q.min_confidence) start end true)
  by_strategy index q start end PathStrategy.shortest =
      shortest_from index.graph q
        (host.shortest_path (search_graph host index.graph q.min_confidence) start end false)
  by_strategy index q start end PathStrategy.all =
      all_paths index.graph q (
        host.all_simple_paths (search_graph host index.graph q.min_confidence) start end
          q.max_depth)

  unfoldable pub find_paths :
      GraphIndex host → String → String → PathQuery → Option (List ReasoningPath)
  unfolding by_strategy direct_path
  find_paths index start end q =
      let known = host.nodes (search_graph host index.graph q.min_confidence) in
      if start == end
      then some (path_with q (start ∷ []) [] ∷ [])
      else if not (contains known start) || not (contains known end)
      then some []
      else if q.direct_only
      then direct_path q start end (best_direct_edge host index.graph q.min_confidence start end)
      else by_strategy index q start end q.strategy
