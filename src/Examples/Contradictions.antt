-- ===== src/Examples/Contradictions.antt =====
-- The theorems on the contradictions of a store, at the graphs of the reasoning examples.
use nesy_reasoning_mcp.Prelude.{
  ◌-◌, ◌≡◌, refl, true, false, String, Option, some, none, List, [], ◌∷◌, arith, All,
}
use mathlib.Core.Bool.{false≢true}
use nesy_reasoning_mcp.Text.{strip}
use nesy_reasoning_mcp.Schemas.{
  full_confidence, RelationType, RelationRecord, ConfidencePolicy, canonical_source,
  canonical_target,
}
use nesy_reasoning_mcp.Normalization.{normalize_relation_edges, edge}
use nesy_reasoning_mcp.Reasoning.Confidence.{aggregate_confidence}
use nesy_reasoning_mcp.Reasoning.Scope.{
  context_compatible, context_compatible_with, exclusive_group_compatible, relations_for_group,
  relations_compatible_with_filter,
}
use nesy_reasoning_mcp.Reasoning.Index.{build_graph, relation_edges, search_graph, best_direct_edge}
use nesy_reasoning_mcp.Reasoning.Paths.{
  ReasoningPath, PathQuery, find_paths, path_of, best_edges_for_nodes,
}
use nesy_reasoning_mcp.Reasoning.Temporal.{
  later_start, earlier_end, edge_window, path_window, paths_temporally_compatible,
}
use nesy_reasoning_mcp.Reasoning.Exclusive.{
  reachable_group_members, source_contradictions, hard_group_contradictions,
}
use nesy_reasoning_mcp.Reasoning.Exclusive.Siblings.{
  ClassificationContradiction, sibling_query, sibling_step, conflicting_sibling, from_target,
  group_sibling, find_classification_contradiction,
}
use nesy_reasoning_mcp.Reasoning.Exclusive.Siblings.Sound.{
  ConflictsBySome, find_classification_contradiction_sound,
}
use nesy_reasoning_mcp.Reasoning.Negation.{
  explicit_negation_base, declared_pair, spelled_pair, negation_pairs_for_nodes,
  dedupe_contradictions, dedupe_from, scope_negations, scopes_negations,
  explicit_negation_contradictions,
}
use nesy_reasoning_mcp.Reasoning.Chain.{relation_type_value}
use nesy_reasoning_mcp.Reasoning.Tensions.{
  ConfidenceTension, one_half, half_step, spread, tension_of, confidence_tensions,
}
use nesy_reasoning_mcp.Reasoning.Tensions.Exact.{Exact, confidence_tensions-Exact}
use nesy_reasoning_mcp.Reasoning.Separated.{
  SeparatedConflict, conflict_of, hits_of_sources, hits_of_context, hits_of_contexts,
  context_separated_conflicts, dedupe_context_separated,
}
use nesy_reasoning_mcp.Reasoning.Separated.Reports.{Separated}
use nesy_reasoning_mcp.Reasoning.Separated.Sound.{context_separated_conflicts_sound}
use nesy_reasoning_mcp.Reasoning.Contradictions.{
  Contradiction, groups_contradictions, find_exclusive_contradictions,
}
use nesy_reasoning_mcp.Reasoning.Contradictions.Sound.{
  Justified, SeparatedBySome, find_exclusive_contradictions_sound,
}
use nesy_reasoning_mcp.Examples.ListGraph.{host}
use nesy_reasoning_mcp.Examples.Reasoning.{
  relation, nothing, nothing-Holds, relations, group, no_filter,
}

-- A second record of r1 with another confidence, and a conflict over two contexts.
abbrev elsewhere : RelationRecord → RelationRecord
elsewhere r = record r { fields = record r.fields { context_id = "other" } }

abbrev facts : List RelationRecord
facts =
    relation "r1" "a" "c" RelationType.sufficient full_confidence
    ∷ relation "r2" "a" "c" RelationType.sufficient 1
    ∷ elsewhere (relation "r3" "a" "d" RelationType.sufficient 4)
    ∷ []

abbrev tension_ids : List ConfidenceTension → List (List String)
tension_ids [] = []
tension_ids (t ∷ ts) = t.fact_ids ∷ tension_ids ts

confidence_tensions_test : tension_ids (confidence_tensions facts) ≡ ("r1" ∷ "r2" ∷ []) ∷ []
unfolding confidence_tensions tension_of spread one_half half_step full_confidence canonical_source
    canonical_target relation_type_value
confidence_tensions_test = refl

-- At 0.5 - 2^-55 the difference rounds to 0.5, below it does not.
spread_test :
    (spread (one_half ∷ full_confidence ∷ []) ≡ true)
    × (spread ((one_half - half_step) ∷ 0 ∷ []) ≡ true)
    × (spread ((one_half - half_step - 1) ∷ 0 ∷ []) ≡ false)
unfolding spread one_half half_step full_confidence
spread_test = (refl, refl, refl)

confidence_tensions-Exact_example : Exact facts (confidence_tensions facts)
confidence_tensions-Exact_example = confidence_tensions-Exact facts

abbrev separated : List SeparatedConflict
separated = elim (context_separated_conflicts host group 8 0 facts no_filter) [
  | none ↦ []
  | some cs ↦ cs
]

separated_run :
    (context_separated_conflicts host group 8 0 facts no_filter ≡ some separated)
    × (separated
        ≡ record {
          source = "a";
          targets = "c" ∷ "d" ∷ [];
          exclusive_group_id = "g1";
          contexts = "default" ∷ "other" ∷ [];
        }
          ∷ [])
unfolding context_separated_conflicts hits_of_contexts hits_of_context hits_of_sources conflict_of
    reachable_group_members relations_compatible_with_filter find_paths build_graph
    context_compatible context_compatible_with relation_edges normalize_relation_edges edge
    canonical_source canonical_target search_graph path_of best_edges_for_nodes best_direct_edge
    aggregate_confidence full_confidence
separated_run = (refl, refl)

context_separated_conflicts_sound_example :
    All (Separated (relations_compatible_with_filter host.iso facts no_filter) group) separated
context_separated_conflicts_sound_example =
    context_separated_conflicts_sound host group 8 0 (omega arith) facts no_filter separated
      separated_run.0

abbrev question : PathQuery
question = sibling_query 8 ConfidencePolicy.product_independent false 0

abbrev clash_found : Option ClassificationContradiction
clash_found =
    elim (find_classification_contradiction host "d" "c" question relations (group ∷ [])
      no_filter) [ none ↦ none | some found ↦ found ]

abbrev empty_path : ReasoningPath
empty_path = record {
  nodes = [];
  edges = [];
  evidence_confidence = none;
  confidence_policy = ConfidencePolicy.product_independent;
}

abbrev clash : ClassificationContradiction
clash = record {
  exclusive_group_id = "g1";
  context_id = "default";
  store_id = "default";
  target = "c";
  conflicting_target = "d";
  target_path = elim clash_found [ none ↦ empty_path | some c ↦ c.target_path ];
  conflicting_path = elim clash_found [ none ↦ empty_path | some c ↦ c.conflicting_path ];
}

clash_run :
    find_classification_contradiction host "d" "c" question relations (group ∷ []) no_filter
    ≡ some (some clash)
unfolding find_classification_contradiction group_sibling from_target conflicting_sibling
    sibling_step relations_for_group exclusive_group_compatible relations_compatible_with_filter
    find_paths build_graph context_compatible context_compatible_with relation_edges
    normalize_relation_edges edge canonical_source canonical_target search_graph path_of
    best_edges_for_nodes best_direct_edge aggregate_confidence paths_temporally_compatible
    path_window edge_window later_start earlier_end
clash_run = refl

find_classification_contradiction_sound_example :
    ConflictsBySome nothing "d" "c" (group ∷ []) no_filter clash
find_classification_contradiction_sound_example =
    find_classification_contradiction_sound nothing "d" "c" host question relations no_filter
      (omega arith) (λ r m c. nothing-Holds r) (group ∷ []) clash
      (λ g m ok a b ma mb va vb. absurd (false≢true va)) clash_run

abbrev outcome : List Contradiction × List SeparatedConflict
outcome = elim (find_exclusive_contradictions host facts (group ∷ []) no_filter 8 true 0 []) [
  | none ↦ ([], [])
  | some r ↦ r
]

outcome_run :
    find_exclusive_contradictions host facts (group ∷ []) no_filter 8 true 0 []
    ≡ some (outcome.0, outcome.1)
unfolding find_exclusive_contradictions groups_contradictions hard_group_contradictions
    context_separated_conflicts hits_of_contexts hits_of_context hits_of_sources conflict_of
    dedupe_context_separated explicit_negation_contradictions scopes_negations scope_negations
    negation_pairs_for_nodes declared_pair spelled_pair explicit_negation_base strip
    dedupe_contradictions dedupe_from reachable_group_members source_contradictions
    relations_for_group exclusive_group_compatible relations_compatible_with_filter find_paths
    build_graph context_compatible context_compatible_with relation_edges normalize_relation_edges
    edge canonical_source canonical_target search_graph path_of best_edges_for_nodes
    best_direct_edge aggregate_confidence full_confidence paths_temporally_compatible path_window
    edge_window later_start earlier_end
outcome_run = refl

find_exclusive_contradictions_sound_example :
    All (Justified host facts no_filter 8 0 nothing (group ∷ []) []) outcome.0
    × All (SeparatedBySome host facts no_filter 8 0 (group ∷ [])) outcome.1
find_exclusive_contradictions_sound_example =
    find_exclusive_contradictions_sound host facts no_filter 8 0 nothing (group ∷ []) [] true
      outcome.0 outcome.1 (omega arith) (λ r m c. nothing-Holds r)
      (λ n b o vn. absurd (false≢true vn)) (λ g m ok a b ma mb va vb. absurd (false≢true va))
      outcome_run
