-- ===== src/AutoIngest/Voting/Summary.antt =====
-- auto_ingest/review_voting.py: what an aggregate records of the votes.
use nesy_reasoning_mcp.Prelude.{String, Option, some, none, List, [], ◌∷◌}
use nesy_reasoning_mcp.Schemas.{
  RelationType, Value, Items, Fields, no_items, item, end, field, bool, num, text, arr, obj,
}
use nesy_reasoning_mcp.AutoIngest.Decisions.{DecisionValue, VotingPolicy, ReviewDecision}

unfoldable pub policy_value : VotingPolicy → String
policy_value VotingPolicy.risk_tiered = "risk_tiered"
policy_value VotingPolicy.unanimous = "unanimous"
policy_value VotingPolicy.majority = "majority"

unfoldable pub decision_value : DecisionValue → String
decision_value DecisionValue.approve = "approve"
decision_value DecisionValue.downgrade = "downgrade"
decision_value DecisionValue.reject = "reject"
decision_value DecisionValue.needs_human = "needs_human"

unfoldable pub type_value : RelationType → String
type_value RelationType.sufficient = "sufficient"
type_value RelationType.necessary = "necessary"
type_value RelationType.equivalent = "equivalent"

unfoldable pub texts : List String → Items
texts [] = no_items
texts (s ∷ ss) = item (text s) (texts ss)

-- A field that `exclude_none` leaves out if it is None.
unfoldable optional_field {ℓ} : {A : Type ℓ} → String → (A → Value) → Option A → Fields → Fields
optional_field name value none rest = rest
optional_field name value (some a) rest = field name (value a) rest

unfoldable pub review_vote_summary : ReviewDecision → Fields
unfolding decision_value type_value texts optional_field
review_vote_summary r = field "candidate_id" (text r.candidate_id) (
    field "decision" (text (decision_value r.decision)) (
      optional_field "final_relation_type" (λ t. text (type_value t)) r.final_relation_type
        (optional_field "final_confidence" num r.final_confidence (
          optional_field "normalized_implication_supported" bool r.normalized_implication_supported
            (field "reasons" (arr (texts r.reasons)) (
              field "risk_flags" (arr (texts r.risk_flags))
                (optional_field "reviewer_model" text r.reviewer_model end)))))))

unfoldable pub vote_summaries : List ReviewDecision → Items
unfolding review_vote_summary
vote_summaries [] = no_items
vote_summaries (r ∷ rs) = item (obj (review_vote_summary r)) (vote_summaries rs)
