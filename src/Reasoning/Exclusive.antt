-- ===== src/Reasoning/Exclusive.antt =====
-- reasoning.py: contradictions within one exclusive group. `none` is the ValueError of `find_paths`.
pub mod Sound
pub mod Groups
pub mod Siblings
use nesy_reasoning_mcp.Prelude.{
  ℕ, String, Bool, true, false, not, Option, some, none, List, [], ◌∷◌, ◌++◌, map, if◌then◌else◌,
  ◌==◌, text_key, contains, any, filter, is_empty, length, leb, ltb, dedupe, sort_by, text_le,
  insert, Dict, ◌>>=◌,
}
use nesy_reasoning_mcp.Schemas.{
  RelationRecord, ExclusiveGroupRecord, ContextFilter, ConfidencePolicy, PathStrategy,
  CanonicalImplicationEdge,
}
use nesy_reasoning_mcp.Reasoning.Networkx.{Host}
use nesy_reasoning_mcp.Reasoning.Scope.{exclusive_group_compatible, relations_for_group}
use nesy_reasoning_mcp.Reasoning.Index.{GraphIndex, build_graph}
use nesy_reasoning_mcp.Reasoning.Paths.{ReasoningPath, PathQuery, find_paths}
use nesy_reasoning_mcp.Reasoning.Temporal.{paths_temporally_compatible}

pub data ContradictionType : Type 0 where
  exclusive_targets transitive_exclusive_targets : ContradictionType

-- The entries of a hard contradiction of a group; `severity` is "hard" and `reason` a fixed text.
pub record GroupContradiction : Type 0 where
  pub type : ContradictionType
  pub source : String
  pub targets : List String
  pub exclusive_group_id : String
  pub context_id : String
  pub store_id : String
  pub fact_ids : List String

abbrev pub path_edges : List ReasoningPath → List CanonicalImplicationEdge
path_edges [] = []
path_edges (p ∷ ps) = p.edges ++ path_edges ps

abbrev pub hit_paths : Dict String ReasoningPath → List ReasoningPath
hit_paths = map (λ hit. hit.1)

abbrev pub hit_members : Dict String ReasoningPath → List String
hit_members = map (λ hit. hit.0)

-- list(dict.fromkeys(edge.relation_id for path in paths for edge in path.edges))
abbrev pub path_fact_ids : List ReasoningPath → List String
path_fact_ids paths =
    dedupe (map (λ (e : CanonicalImplicationEdge). e.relation_id) (path_edges paths))

-- max(edge_lengths) <= 1
all_direct : List ReasoningPath → Bool
all_direct paths = not (any (λ p. ltb 1 (length p.edges)) paths)

-- The query of `_reachable_group_members`.
abbrev pub member_query : ℕ → ℕ → PathQuery
member_query max_depth min_confidence = record {
  max_depth = max_depth;
  strategy = PathStrategy.shortest;
  max_paths = 1;
  confidence_policy = ConfidencePolicy.product_independent;
  direct_only = false;
  min_confidence = min_confidence;
}

-- `if paths: hits[member] = paths[0]`
abbrev pub add_hit :
    String → List ReasoningPath → Dict String ReasoningPath → Dict String ReasoningPath
add_hit member [] hits = hits
add_hit member (path ∷ _) hits = insert member path hits

module _ (host : Host) where
  -- the loop over the members, from the hits so far
  unfoldable pub reachable_members_onto :
      GraphIndex host
      → String
      → PathQuery
      → Dict String ReasoningPath
      → List String
      → Option (Dict String ReasoningPath)
  reachable_members_onto index source q hits [] = some hits
  reachable_members_onto index source q hits (member ∷ members) = do
    paths ← find_paths host index source member q
    reachable_members_onto index source q (add_hit member paths hits) members

  unfoldable pub reachable_group_members :
      GraphIndex host → String → List String → ℕ → ℕ → Option (Dict String ReasoningPath)
  unfolding reachable_members_onto
  reachable_group_members index source members max_depth min_confidence =
      reachable_members_onto index source (member_query max_depth min_confidence) [] members

  abbrev group_contradiction :
      ExclusiveGroupRecord → String → Dict String ReasoningPath → GroupContradiction
  group_contradiction group source hits = record {
    type =
        if all_direct (hit_paths hits)
        then ContradictionType.exclusive_targets
        else ContradictionType.transitive_exclusive_targets;
    source = source;
    targets = hit_members hits;
    exclusive_group_id = group.group_id;
    context_id = group.context_id;
    store_id = group.store_id;
    fact_ids = path_fact_ids (hit_paths hits);
  }

  -- the body of the loop over the sources: the contradictions that it appends
  unfoldable pub source_contradictions :
      ExclusiveGroupRecord → String → Dict String ReasoningPath → List GroupContradiction
  unfolding all_direct
  source_contradictions group source hits =
      if ltb (length hits) 2
      then []
      else if not (paths_temporally_compatible host.iso (hit_paths hits))
      then []
      else group_contradiction group source hits ∷ []

  unfoldable pub contradictions_from :
      GraphIndex host
      → ExclusiveGroupRecord
      → ℕ
      → ℕ
      → List String
      → Option (List GroupContradiction)
  contradictions_from index group max_depth min_confidence [] = some []
  contradictions_from index group max_depth min_confidence (source ∷ sources) = do
    hits ← reachable_group_members index source group.members max_depth min_confidence
    rest ← contradictions_from index group max_depth min_confidence sources
    some (source_contradictions group source hits ++ rest)

  unfoldable pub hard_group_contradictions :
      List RelationRecord → ExclusiveGroupRecord → ℕ → ℕ → Option (List GroupContradiction)
  unfolding contradictions_from
  hard_group_contradictions relations group max_depth min_confidence =
      let index = build_graph host relations none in
      if is_empty relations
      then some []
      else contradictions_from index group max_depth min_confidence
          (sort_by text_le (host.nodes index.graph))

  -- the hard part of `find_exclusive_contradictions`, over all groups
  unfoldable pub find_group_contradictions :
      List RelationRecord
      → List ExclusiveGroupRecord
      → ContextFilter
      → ℕ
      → ℕ
      → Option (List GroupContradiction)
  find_group_contradictions relations [] f max_depth min_confidence = some []
  find_group_contradictions relations (group ∷ groups) f max_depth min_confidence =
      if not (exclusive_group_compatible group f)
      then find_group_contradictions relations groups f max_depth min_confidence
      else do
        found ←
            hard_group_contradictions (relations_for_group host.iso relations group f) group
              max_depth min_confidence
        rest ← find_group_contradictions relations groups f max_depth min_confidence
        some (found ++ rest)
