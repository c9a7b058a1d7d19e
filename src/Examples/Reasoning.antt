-- ===== src/Examples/Reasoning.antt =====
-- The theorems of the reasoning code at a graph of three relations.
use nesy_reasoning_mcp.Prelude.{
  ℕ, String, ◌≡◌, refl, ◌↔◌, true, false, Option, some, none, List, [], ◌∷◌, arith, All, Memᴰ,
  Distinct, map, concat_map, lacks_iff, text_key,
}
use mathlib.Core.Bool.{false≢true}
use nesy_reasoning_mcp.Schemas.{
  RelationType, RelationRecord, ConfidencePolicy, PathStrategy, ExclusiveScope,
  ExclusiveGroupRecord, ContextFilter, end, canonical_source, canonical_target, ExpectedRelation,
}
use nesy_reasoning_mcp.Normalization.{normalize_relation_edges, edge}
use nesy_reasoning_mcp.Normalization.EdgeIds.{edge_id_of, normalize-Distinct}
use nesy_reasoning_mcp.Normalization.Meaning.{
  Valuation, Claims, Implies, Holds, EdgeHolds, normalize-Holds,
}
use nesy_reasoning_mcp.Reasoning.Confidence.{aggregate_confidence}
use nesy_reasoning_mcp.Reasoning.Scope.{
  context_compatible, context_compatible_with, exclusive_group_compatible, relations_for_group,
}
use nesy_reasoning_mcp.Reasoning.Index.{
  GraphIndex, build_graph, relation_edges, search_graph, best_direct_edge,
}
use nesy_reasoning_mcp.Reasoning.Paths.{
  ReasoningPath, PathQuery, find_paths, path_of, best_edges_for_nodes,
}
use nesy_reasoning_mcp.Reasoning.Paths.Sound.{Returns, find_paths_sound}
use nesy_reasoning_mcp.Reasoning.Paths.Valid.{HoldsUnder, find_paths_valid}
use nesy_reasoning_mcp.Reasoning.Chain.{verify_explicit_chain}
use nesy_reasoning_mcp.Reasoning.Chain.Exact.{ChainVerdict, verify_explicit_chain_exact}
use nesy_reasoning_mcp.Reasoning.Index.Direct.{Answers, best_direct_edge-Answers}
use nesy_reasoning_mcp.Reasoning.Classification.{classify_reachability, expected_relation_matches}
use nesy_reasoning_mcp.Reasoning.Classification.Valid.{Says, Expected, classification_valid}
use nesy_reasoning_mcp.Reasoning.Temporal.{
  later_start, earlier_end, edge_window, path_window, paths_temporally_compatible,
}
use nesy_reasoning_mcp.Reasoning.Temporal.Compatible.{AllInOrder, paths_temporally_compatible_iff}
use nesy_reasoning_mcp.Reasoning.Exclusive.{
  GroupContradiction, reachable_group_members, source_contradictions, hard_group_contradictions,
  find_group_contradictions,
}
use nesy_reasoning_mcp.Reasoning.Exclusive.Groups.{RefutesBySome, find_group_contradictions_sound}
use nesy_reasoning_mcp.Examples.ListGraph.{host}

abbrev pub relation : String → String → String → RelationType → ℕ → RelationRecord
relation id source target type confidence = record {
  id = id;
  fields = record {
    source = source;
    source_id = none;
    target = target;
    target_id = none;
    relation_type = type;
    confidence = confidence;
    context_id = "default";
    store_id = "default";
    temporal = none;
    assumptions = [];
    provenance = none;
    metadata = end;
  };
  created_at = "2026-01-01";
  updated_at = "2026-01-01";
}

-- a implies b, b implies c, and a is necessary for d
abbrev pub relations : List RelationRecord
relations =
    relation "r1" "a" "b" RelationType.sufficient 3
    ∷ relation "r2" "b" "c" RelationType.sufficient 2
    ∷ relation "r3" "a" "d" RelationType.necessary 4
    ∷ []

abbrev query : PathQuery
query = record {
  max_depth = 8;
  strategy = PathStrategy.shortest;
  max_paths = 5;
  confidence_policy = ConfidencePolicy.min;
  direct_only = false;
  min_confidence = 0;
}

-- Every proposition is false.
abbrev pub nothing : Valuation
nothing _ = false

nothing-Claims : (s t : String) (k : RelationType) → Claims nothing s t k
nothing-Claims s t RelationType.sufficient = λ h. h
nothing-Claims s t RelationType.necessary = λ h. h
nothing-Claims s t RelationType.equivalent = (λ h. h, λ h. h)

pub nothing-Holds : (r : RelationRecord) → Holds nothing r
nothing-Holds r =
    nothing-Claims (canonical_source r.fields) (canonical_target r.fields) r.relation_type

abbrev index : GraphIndex host
index = build_graph host relations none

abbrev nodes_of : List ReasoningPath → List (List String)
nodes_of [] = []
nodes_of (p ∷ ps) = p.nodes ∷ nodes_of ps

abbrev found : String → String → List ReasoningPath
found s t = elim (find_paths host index s t query) [ none ↦ [] | some ps ↦ ps ]

abbrev first : List ReasoningPath → ReasoningPath
first [] = record {
  nodes = [];
  edges = [];
  evidence_confidence = none;
  confidence_policy = ConfidencePolicy.min;
}
first (p ∷ ps) = p

-- d implies a, so d reaches c through a and b.
paths_run :
    (find_paths host index "d" "c" query ≡ some (found "d" "c"))
    × (nodes_of (found "d" "c") ≡ ("d" ∷ "a" ∷ "b" ∷ "c" ∷ []) ∷ [])
    × (find_paths host index "c" "d" query ≡ some [])
unfolding find_paths build_graph context_compatible relation_edges normalize_relation_edges edge
    canonical_source canonical_target search_graph path_of best_edges_for_nodes best_direct_edge
    aggregate_confidence
paths_run = (refl, refl, refl)

normalize-Holds_example :
    Holds nothing (relation "r3" "a" "d" RelationType.necessary 4)
    ↔ All
        (EdgeHolds nothing)
        (normalize_relation_edges (relation "r3" "a" "d" RelationType.necessary 4))
normalize-Holds_example = normalize-Holds nothing (relation "r3" "a" "d" RelationType.necessary 4)

abbrev both_ways : List RelationRecord
both_ways =
    relation "r1" "a" "b" RelationType.equivalent 3
    ∷ relation "r2" "b" "a" RelationType.equivalent 2
    ∷ []

normalize-Distinct_example :
    Distinct (map edge_id_of (concat_map normalize_relation_edges both_ways))
normalize-Distinct_example =
    normalize-Distinct both_ways
      ((lacks_iff ("r2" ∷ []) "r1").0 refl, ((lacks_iff [] "r2").0 refl, tt))

find_paths_sound_example :
    Returns host
      (build_graph host relations none).graph
      query
      "d"
      "c"
      (find_paths host (build_graph host relations none) "d" "c" query)
find_paths_sound_example = find_paths_sound host relations none query "d" "c" (omega arith)

nothing-HoldsUnder : (f : Option ContextFilter) → HoldsUnder nothing host relations f
nothing-HoldsUnder f r m c = nothing-Holds r

found_path : Memᴰ (first (found "d" "c")) (found "d" "c")
unfolding find_paths build_graph context_compatible relation_edges normalize_relation_edges edge
    canonical_source canonical_target search_graph path_of best_edges_for_nodes best_direct_edge
    aggregate_confidence
found_path = Memᴰ.head refl

find_paths_valid_example : Implies nothing "d" "c"
find_paths_valid_example =
    find_paths_valid nothing host relations none query "d" "c" (found "d" "c")
      (first (found "d" "c")) (omega arith) (nothing-HoldsUnder none) paths_run.0 found_path

classification_valid_example :
    Says nothing "d" "c" (classify_reachability (found "d" "c") [])
    × ((e : ExpectedRelation)
        → expected_relation_matches e (classify_reachability (found "d" "c") []) ≡ true
        → Expected nothing "d" "c" e)
classification_valid_example =
    classification_valid host nothing relations none query "d" "c" (found "d" "c") [] (omega arith)
      (nothing-HoldsUnder none) paths_run.0 paths_run.2

verify_explicit_chain_exact_example :
    ChainVerdict host index.graph 0
      ("d" ∷ "a" ∷ "c" ∷ [])
      ConfidencePolicy.min
      (verify_explicit_chain host index.graph ("d" ∷ "a" ∷ "c" ∷ []) ConfidencePolicy.min 0)
verify_explicit_chain_exact_example =
    verify_explicit_chain_exact host index.graph 0 ("d" ∷ "a" ∷ "c" ∷ []) ConfidencePolicy.min

best_direct_edge-Answers_example :
    Answers 1 (host.edges_between index.graph "a" "b") (best_direct_edge host index.graph 1 "a" "b")
best_direct_edge-Answers_example = best_direct_edge-Answers host index.graph 1 "a" "b"

paths_temporally_compatible_iff_example :
    (paths_temporally_compatible host.iso (found "d" "c") ≡ true)
    ↔ AllInOrder host.iso (found "d" "c")
paths_temporally_compatible_iff_example = paths_temporally_compatible_iff host.iso (found "d" "c")

-- c and d exclude each other, and d implies both.
abbrev pub group : ExclusiveGroupRecord
group = record {
  group_id = "g1";
  members = "c" ∷ "d" ∷ [];
  context_id = "default";
  store_id = "default";
  scope = ExclusiveScope.same_context;
  metadata = end;
  created_at = "2026-01-01";
  updated_at = "2026-01-01";
}

abbrev pub no_filter : ContextFilter
no_filter = record {
  context_id = none;
  store_id = none;
  domain = none;
  assumptions = [];
  valid_at = none;
}

abbrev conflicts : List GroupContradiction
conflicts = elim (find_group_contradictions host relations (group ∷ []) no_filter 8 0) [
  | none ↦ []
  | some cs ↦ cs
]

abbrev sources_of : List GroupContradiction → List String
sources_of [] = []
sources_of (c ∷ cs) = c.source ∷ sources_of cs

conflicts_run :
    (find_group_contradictions host relations (group ∷ []) no_filter 8 0 ≡ some conflicts)
    × (sources_of conflicts ≡ "d" ∷ [])
unfolding find_group_contradictions hard_group_contradictions reachable_group_members
    source_contradictions relations_for_group exclusive_group_compatible find_paths build_graph
    context_compatible context_compatible_with relation_edges normalize_relation_edges edge
    canonical_source canonical_target search_graph path_of best_edges_for_nodes best_direct_edge
    aggregate_confidence paths_temporally_compatible path_window edge_window later_start earlier_end
conflicts_run = (refl, refl)

find_group_contradictions_sound_example :
    All (RefutesBySome nothing host (group ∷ []) no_filter) conflicts
find_group_contradictions_sound_example =
    find_group_contradictions_sound nothing host relations (group ∷ []) no_filter 8 0 conflicts
      (omega arith) (nothing-HoldsUnder (some no_filter))
      (λ g m ok a b ma mb va vb. absurd (false≢true va)) conflicts_run.0
