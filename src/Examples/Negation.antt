-- ===== src/Examples/Negation.antt =====
-- The theorems on explicit negations at a graph with a contradiction.
use nesy_reasoning_mcp.Prelude.{◌≡◌, refl, String, some, none, List, [], ◌∷◌, arith, All}
use mathlib.Core.Bool.{false≢true}
use nesy_reasoning_mcp.Text.{strip}
use nesy_reasoning_mcp.Schemas.{
  RelationType, RelationRecord, PropositionRecord, end, canonical_source, canonical_target,
}
use nesy_reasoning_mcp.Normalization.{normalize_relation_edges, edge}
use nesy_reasoning_mcp.Reasoning.Confidence.{aggregate_confidence}
use nesy_reasoning_mcp.Reasoning.Scope.{context_compatible}
use nesy_reasoning_mcp.Reasoning.Index.{build_graph, relation_edges, search_graph, best_direct_edge}
use nesy_reasoning_mcp.Reasoning.Paths.{find_paths, path_of, best_edges_for_nodes}
use nesy_reasoning_mcp.Reasoning.Temporal.{
  later_start, earlier_end, edge_window, path_window, paths_temporally_compatible,
}
use nesy_reasoning_mcp.Reasoning.Negation.{
  NegationContradiction, explicit_negation_base, declared_pair, spelled_pair,
  negation_pairs_for_nodes, dedupe_contradictions, dedupe_from, negation_key, search_paths,
  cycle_of, cycle_to_exclusion_contradictions, opposition_of, direct_opposition_contradictions,
  negations_from, scope_negations, scopes_negations, explicit_negation_contradictions,
}
use nesy_reasoning_mcp.Reasoning.Negation.Pairs.{RefutesNegation}
use nesy_reasoning_mcp.Reasoning.Negation.Sound.{explicit_negation_contradictions_sound}
use nesy_reasoning_mcp.Examples.ListGraph.{host}
use nesy_reasoning_mcp.Examples.Reasoning.{relation, nothing, nothing-Holds}

negation_base_tests :
    (explicit_negation_base " Not: it rains " ≡ some "it rains")
    × (explicit_negation_base "NOT x" ≡ some "x")
    × (explicit_negation_base "¬ x" ≡ some "x")
    × (explicit_negation_base "not " ≡ none)
    × (explicit_negation_base "nothing" ≡ none)
unfolding explicit_negation_base strip
negation_base_tests = (refl, refl, refl, refl, refl)

abbrev relations : List RelationRecord
relations =
    relation "r1" "a" "b" RelationType.sufficient 3
    ∷ relation "r2" "a" "not b" RelationType.sufficient 2
    ∷ relation "r3" "b" "c" RelationType.sufficient 2
    ∷ relation "r4" "c" "d" RelationType.sufficient 2
    ∷ []

abbrev propositions : List PropositionRecord
propositions =
    record { id = "d"; label = "d"; aliases = []; negates = some "b"; metadata = end } ∷ []

abbrev reported : List NegationContradiction
reported = elim (explicit_negation_contradictions host relations 8 0 propositions) [
  | none ↦ []
  | some cs ↦ cs
]

abbrev summary : List NegationContradiction → List (String × List String)
summary [] = []
summary (c ∷ cs) = (c.source, c.targets) ∷ summary cs

reported_run :
    (explicit_negation_contradictions host relations 8 0 propositions ≡ some reported)
    × (summary reported
        ≡ ("a", "b" ∷ "d" ∷ []) ∷ ("a", "b" ∷ "not b" ∷ []) ∷ ("b", "b" ∷ "d" ∷ []) ∷ [])
unfolding explicit_negation_contradictions scopes_negations scope_negations negations_from
    direct_opposition_contradictions opposition_of cycle_to_exclusion_contradictions cycle_of
    search_paths dedupe_contradictions dedupe_from negation_key negation_pairs_for_nodes
    declared_pair spelled_pair explicit_negation_base strip find_paths build_graph
    context_compatible relation_edges normalize_relation_edges edge canonical_source
    canonical_target search_graph path_of best_edges_for_nodes best_direct_edge aggregate_confidence
    paths_temporally_compatible path_window edge_window later_start earlier_end
reported_run = (refl, refl)

explicit_negation_contradictions_sound_example : All (RefutesNegation nothing propositions) reported
explicit_negation_contradictions_sound_example =
    explicit_negation_contradictions_sound nothing propositions (λ n b o vn. absurd (false≢true vn))
      host 8 0 (omega arith) relations reported
      (
        nothing-Holds (relation "r1" "a" "b" RelationType.sufficient 3),
        (
          nothing-Holds (relation "r2" "a" "not b" RelationType.sufficient 2),
          (
            nothing-Holds (relation "r3" "b" "c" RelationType.sufficient 2),
            (nothing-Holds (relation "r4" "c" "d" RelationType.sufficient 2), tt),
          ),
        ),
      )
      reported_run.0
