-- ===== src/Examples/Voting.antt =====
-- The theorem on aggregated reviews at three reviews of a candidate.
use nesy_reasoning_mcp.Prelude.{◌≡◌, ◌⊎◌, refl, String, true, Option, some, none, [], ◌∷◌, filter}
use nesy_reasoning_mcp.Schemas.{RelationType, end}
use nesy_reasoning_mcp.AutoIngest.Decisions.{
  DecisionValue, approve, reject, needs_human, risk_tiered, ReviewDecision,
}
use nesy_reasoning_mcp.AutoIngest.Voting.Policies.{
  Reviews, from_model, aggregate_risk_tiered, risk_tiered_with, single_relation_type,
  single_majority_relation_type, aggregate_review, aggregate_base, fill_positive,
  all_selected_support,
}
use nesy_reasoning_mcp.AutoIngest.Voting.Aggregation.{aggregate_candidate_reviews, by_policy}
use nesy_reasoning_mcp.AutoIngest.Voting.HighPriority.{
  Approved, aggregate_candidate_reviews_approval,
}

abbrev review : String → DecisionValue → Option RelationType → ReviewDecision
review model decision type = record {
  candidate_id = "c1";
  decision = decision;
  final_relation_type = type;
  final_confidence = some 5;
  normalized_implication_supported = some true;
  reasons = [];
  risk_flags = [];
  reviewer_model = some model;
  metadata = end;
}

abbrev reviews : Reviews
reviews =
    review "m1" approve (some RelationType.sufficient)
    ∷ review "m2" approve (some RelationType.sufficient)
    ∷ review "m3" needs_human none
    ∷ []

abbrev verdict : ReviewDecision
verdict = elim (aggregate_candidate_reviews "c1" reviews risk_tiered ("m1" ∷ [])) [
  | none ↦ review "" needs_human none
  | some r ↦ r
]

abbrev vetoed : Option ReviewDecision
vetoed =
    aggregate_candidate_reviews "c1" (review "m1" reject none ∷ reviews) risk_tiered ("m1" ∷ [])

abbrev decision_of : Option ReviewDecision → DecisionValue
decision_of none = needs_human
decision_of (some r) = r.decision

verdict_run :
    (aggregate_candidate_reviews "c1" reviews risk_tiered ("m1" ∷ []) ≡ some verdict)
    × (verdict.decision ≡ approve)
    × (verdict.final_relation_type ≡ some RelationType.sufficient)
    × (decision_of vetoed ≡ reject)
unfolding aggregate_candidate_reviews by_policy aggregate_risk_tiered risk_tiered_with
    single_relation_type single_majority_relation_type aggregate_review aggregate_base fill_positive
    all_selected_support
verdict_run = (refl, refl, refl, refl)

aggregate_candidate_reviews_approval_example :
    (reviews ≡ verdict ∷ [])
    ⊎ Approved risk_tiered reviews (filter (from_model ("m1" ∷ [])) reviews) verdict
aggregate_candidate_reviews_approval_example =
    aggregate_candidate_reviews_approval "c1" reviews risk_tiered ("m1" ∷ []) verdict verdict_run.0
      verdict_run.1
