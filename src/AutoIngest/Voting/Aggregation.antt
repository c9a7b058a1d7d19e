-- ===== src/AutoIngest/Voting/Aggregation.antt =====
-- auto_ingest/review_voting.py: one decision for each candidate, with votes for missing reviewers.
use Prim.Native.String.{◌++◌ as text_append}
use nesy_reasoning_mcp.Prelude.{
  String, Bool, false, not, Option, some, none, List, [], ◌∷◌, ◌++◌, map, ◌==◌, text_key,
  if◌then◌else◌, filter, any, contains,
}
use nesy_reasoning_mcp.Schemas.{field, end, text}
use nesy_reasoning_mcp.Text.{dedupe_non_empty_text}
use nesy_reasoning_mcp.AutoIngest.Decisions.{
  needs_human, VotingPolicy, risk_tiered, unanimous, majority, ReviewDecision,
}
use nesy_reasoning_mcp.AutoIngest.Voting.Policies.{
  Reviews, aggregate_unanimous, aggregate_majority, aggregate_risk_tiered,
}

abbrev is_by : String → Option String → Bool
is_by model none = false
is_by model (some m) = model == m

-- `model in present_models`
abbrev pub present : Reviews → String → Bool
present reviews model = any (λ (r : ReviewDecision). is_by model r.reviewer_model) reviews

unfoldable pub has_missing_high_priority_vote : Reviews → List String → Bool
has_missing_high_priority_vote reviews high_models = any (λ m. not (present reviews m)) high_models

unfoldable pub missing_vote : String → String → ReviewDecision
missing_vote candidate_id model = record {
  candidate_id = candidate_id;
  decision = needs_human;
  final_relation_type = none;
  final_confidence = none;
  normalized_implication_supported = none;
  reasons = text_append "missing reviewer decision from " model ∷ [];
  risk_flags = [];
  reviewer_model = some model;
  metadata = field "synthetic_vote" (text "missing_reviewer_decision") end;
}

unfoldable pub missing_reviewer_votes : String → Reviews → List String → List String → Reviews
unfolding missing_vote dedupe_non_empty_text
missing_reviewer_votes candidate_id reviews expected_models high_models =
    map (missing_vote candidate_id) (
      filter (λ m. not (present reviews m))
        (dedupe_non_empty_text (expected_models ++ high_models)))

unfoldable pub by_policy : VotingPolicy → String → Reviews → List String → ReviewDecision
by_policy unanimous candidate_id reviews high_models =
    aggregate_unanimous candidate_id reviews unanimous
by_policy majority candidate_id reviews high_models =
    aggregate_majority candidate_id reviews majority
by_policy risk_tiered candidate_id reviews high_models =
    aggregate_risk_tiered candidate_id reviews risk_tiered high_models

unfoldable pub aggregate_candidate_reviews :
    String → Reviews → VotingPolicy → List String → Option ReviewDecision
aggregate_candidate_reviews candidate_id [] policy high_models = none
aggregate_candidate_reviews candidate_id (r ∷ []) policy high_models =
    if not (has_missing_high_priority_vote (r ∷ []) high_models)
    then some r
    else some (by_policy policy candidate_id (r ∷ []) high_models)
aggregate_candidate_reviews candidate_id (r ∷ s ∷ rs) policy high_models =
    some (by_policy policy candidate_id (r ∷ s ∷ rs) high_models)

-- The candidates enter by their ids only. The audit metadata is left out; `unknown` has the ids of
-- the warnings on reviews of unknown candidates.
pub record ReviewAggregationResult : Type 0 where
  pub gate_reviews : Reviews
  pub audit_reviews : Reviews
  pub unknown : List String

-- The votes on a candidate: those given, and one for each missing reviewer.
unfoldable pub candidate_votes : String → Reviews → List String → List String → Reviews
unfolding missing_reviewer_votes
candidate_votes id reviews expected_models high_models =
    let given = filter (λ (r : ReviewDecision). r.candidate_id == id) reviews in
    given ++ missing_reviewer_votes id given expected_models high_models

abbrev and_more : Option ReviewDecision → Reviews → Reviews
and_more none rs = rs
and_more (some r) rs = r ∷ rs

unfoldable pub aggregate_candidates :
    List String → Reviews → VotingPolicy → List String → List String → Reviews × Reviews
unfolding candidate_votes aggregate_candidate_reviews
aggregate_candidates [] reviews policy expected_models high_models = ([], [])
aggregate_candidates (id ∷ ids) reviews policy expected_models high_models =
    let votes = candidate_votes id reviews expected_models high_models in
    let (gate, audit) = aggregate_candidates ids reviews policy expected_models high_models in
    (and_more (aggregate_candidate_reviews id votes policy high_models) gate, votes ++ audit)

unfoldable pub aggregate_review_decisions :
    List String → Reviews → VotingPolicy → List String → List String → ReviewAggregationResult
unfolding aggregate_candidates dedupe_non_empty_text
aggregate_review_decisions candidate_ids reviews policy high_models expected_models =
    let (gate, audit) =
      aggregate_candidates candidate_ids reviews policy (dedupe_non_empty_text expected_models)
        (dedupe_non_empty_text high_models) in
    record {
      gate_reviews = gate;
      audit_reviews = audit;
      unknown =
          map (λ (r : ReviewDecision). r.candidate_id)
            (filter (λ (r : ReviewDecision). not (contains candidate_ids r.candidate_id)) reviews);
    }
