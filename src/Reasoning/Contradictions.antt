-- ===== src/Reasoning/Contradictions.antt =====
-- reasoning.py: all contradictions of a store. `none` is the ValueError of `find_paths`.
pub mod Sound
use nesy_reasoning_mcp.Prelude.{
  ℕ, Bool, not, Option, some, none, List, [], ◌∷◌, ◌++◌, map, if◌then◌else◌, ◌>>=◌,
}
use nesy_reasoning_mcp.Schemas.{
  RelationRecord, ExclusiveGroupRecord, ContextFilter, PropositionRecord,
}
use nesy_reasoning_mcp.Reasoning.Networkx.{Host}
use nesy_reasoning_mcp.Reasoning.Scope.{
  is_same_context, exclusive_group_compatible, relations_for_group,
  relations_compatible_with_filter,
}
use nesy_reasoning_mcp.Reasoning.Exclusive.{GroupContradiction, hard_group_contradictions}
use nesy_reasoning_mcp.Reasoning.Negation.{NegationContradiction, explicit_negation_contradictions}
use nesy_reasoning_mcp.Reasoning.Tensions.{ConfidenceTension, confidence_tensions}
use nesy_reasoning_mcp.Reasoning.Separated.{
  SeparatedConflict, context_separated_conflicts, dedupe_context_separated,
}

-- The entries of the first list that is returned.
pub data Contradiction : Type 0 where
  negated : NegationContradiction → Contradiction
  tense : ConfidenceTension → Contradiction
  exclusive : GroupContradiction → Contradiction

module _ (host : Host) where
  -- the loop over the groups: what it appends to the two lists
  unfoldable pub groups_contradictions :
      List RelationRecord
      → List ExclusiveGroupRecord
      → ContextFilter
      → ℕ
      → ℕ
      → Option (List GroupContradiction × List SeparatedConflict)
  groups_contradictions relations [] f max_depth min_confidence = some ([], [])
  groups_contradictions relations (group ∷ groups) f max_depth min_confidence =
      let later = groups_contradictions relations groups f max_depth min_confidence in
      if not (exclusive_group_compatible group f) then later else do
        hard ←
            hard_group_contradictions host (relations_for_group host.iso relations group f) group
              max_depth min_confidence
        separated ←
            if is_same_context group.scope
            then context_separated_conflicts host group max_depth min_confidence relations f
            else some []
        (rest_hard, rest_separated) ← later
        some (hard ++ rest_hard, separated ++ rest_separated)

  unfoldable pub find_exclusive_contradictions :
      List RelationRecord
      → List ExclusiveGroupRecord
      → ContextFilter
      → ℕ
      → Bool
      → ℕ
      → List PropositionRecord
      → Option (List Contradiction × List SeparatedConflict)
  find_exclusive_contradictions relations groups f max_depth include_soft min_confidence props = do
    let compatible = relations_compatible_with_filter host.iso relations f
    negations ← explicit_negation_contradictions host compatible max_depth min_confidence props
    let tensions = if include_soft then confidence_tensions compatible else []
    (hard, separated) ← groups_contradictions relations groups f max_depth min_confidence
    some (
      map negated negations ++ (map tense tensions ++ map exclusive hard),
      dedupe_context_separated separated,
    )
