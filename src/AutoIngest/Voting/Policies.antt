-- ===== src/AutoIngest/Voting/Policies.antt =====
-- auto_ingest/review_voting.py: the three policies and the choice among them.
use Prim.Native.String.{◌++◌ as text_append}
use nesy_reasoning_mcp.Prelude.{
  ℕ, suc, ◌+◌, ◌/◌, eqb, String, Bool, true, false, not, ◌&&◌, ◌||◌, Option, some, none, List, [],
  ◌∷◌, ◌++◌, map, ltb, ◌==◌, text_key, option_key, if◌then◌else◌, filter, any, all, count_if,
  contains, dedupe, length, is_empty,
}
use nesy_reasoning_mcp.Schemas.{
  RelationType, relation_type_key, Fields, field, end, text, num, arr, obj,
}
use nesy_reasoning_mcp.Text.{dedupe_non_empty_text}
use nesy_reasoning_mcp.AutoIngest.Decisions.{
  DecisionValue, approve, downgrade, reject, needs_human, decision_key, VotingPolicy,
  ReviewDecision,
}
use nesy_reasoning_mcp.AutoIngest.Voting.Summary.{policy_value, texts, vote_summaries}

abbrev pub Reviews : Type 0
Reviews = List ReviewDecision

abbrev pub decides : DecisionValue → ReviewDecision → Bool
decides d r = r.decision == d

abbrev pub approvals_of : Reviews → Reviews
approvals_of = filter (decides approve)

abbrev pub has_type : Option RelationType → ReviewDecision → Bool
has_type t r = r.final_relation_type == t

-- `Counter.most_common(1)`: the first of the keys with the highest count.
abbrev pub most_common_from :
    Reviews → Option RelationType → List (Option RelationType) → Option RelationType
most_common_from rs best [] = best
most_common_from rs best (t ∷ ts) =
    most_common_from rs
      (if ltb (count_if (has_type best) rs) (count_if (has_type t) rs) then t else best) ts

abbrev pub types_of : Reviews → List (Option RelationType)
types_of rs = dedupe (map (λ (r : ReviewDecision). r.final_relation_type) rs)

abbrev most_common : Reviews → List (Option RelationType) → Option (Option RelationType)
most_common rs [] = none
most_common rs (t ∷ ts) = some (most_common_from rs t ts)

-- The relation type, if one has the required count, and the approvals that have it.
abbrev pub Majority : Type 0
Majority = Option RelationType × Reviews

abbrev pub majority_of : Reviews → ℕ → Option (Option RelationType) → Majority
majority_of approvals required (some (some t)) =
    if ltb (count_if (has_type (some t)) approvals) required
    then (none, [])
    else (some t, filter (has_type (some t)) approvals)
majority_of approvals required _ = (none, [])

unfoldable pub single_majority_relation_type : Reviews → ℕ → Majority
single_majority_relation_type approvals required =
    majority_of approvals required (most_common approvals (types_of approvals))

abbrev pub only : List (Option RelationType) → Option RelationType
only (t ∷ []) = t
only _ = none

unfoldable pub single_relation_type : Reviews → Option RelationType
single_relation_type rs = only (types_of rs)

abbrev pub is_true : Option Bool → Bool
is_true (some b) = b
is_true none = false

unfoldable pub all_selected_support : Reviews → Bool
all_selected_support selected =
    all (λ (r : ReviewDecision). is_true r.normalized_implication_supported) selected

abbrev collect {ℓ} : {A : Type ℓ} → (ReviewDecision → Option A) → Reviews → List A
collect f [] = []
collect f (r ∷ rs) = elim (f r) [ none ↦ collect f rs | some a ↦ a ∷ collect f rs ]

-- `if review.reviewer_model`: an empty text counts as none.
abbrev non_empty : Option String → Option String
non_empty none = none
non_empty (some s) = if s == "" then none else some s

abbrev flags_of : Reviews → List String
flags_of [] = []
flags_of (r ∷ rs) = r.risk_flags ++ flags_of rs

abbrev min_of : ℕ → List ℕ → ℕ
min_of m [] = m
min_of m (v ∷ vs) = min_of (if ltb v m then v else m) vs

abbrev pub confidences_of : Reviews → List ℕ
confidences_of = collect (λ r. r.final_confidence)

unfoldable pub aggregation_metadata : VotingPolicy → Reviews → Reviews → Fields
unfolding vote_summaries policy_value texts
aggregation_metadata policy reviews selected =
    field "review_aggregation"
      (obj (
        field "policy" (text (policy_value policy)) (
          field "review_count" (num (length reviews)) (
            field "votes" (arr (vote_summaries reviews)) (
              field "selected_reviewers"
                (arr (texts (collect (λ r. non_empty r.reviewer_model) selected))) end)))))
      end

-- The aggregate before its decision is filled in.
unfoldable pub aggregate_base :
    String → DecisionValue → String → Reviews → VotingPolicy → Reviews → ReviewDecision
unfolding dedupe_non_empty_text policy_value aggregation_metadata
aggregate_base candidate_id decision reason reviews policy selected = record {
  candidate_id = candidate_id;
  decision = decision;
  final_relation_type = none;
  final_confidence = none;
  normalized_implication_supported = none;
  reasons = reason ∷ [];
  risk_flags = dedupe_non_empty_text (flags_of reviews);
  reviewer_model = some (text_append "aggregate:" (policy_value policy));
  metadata = aggregation_metadata policy reviews selected;
}

abbrev pub downgraded : ReviewDecision → String → ReviewDecision
downgraded base reason = record base { decision = needs_human; reasons = reason ∷ [] }

-- The end of `_aggregate_review` for a positive decision.
unfoldable pub fill_positive :
    ReviewDecision → String → Reviews → Option RelationType → List ℕ → ReviewDecision
unfolding all_selected_support
fill_positive base reason selected (some t) (c ∷ cs) =
    if not (all_selected_support selected)
    then downgraded base
        (text_append reason "; aggregate positive decision missing normalized implication support")
    else record base {
      final_relation_type = some t;
      final_confidence = some (min_of c cs);
      normalized_implication_supported = some true;
    }
fill_positive base reason selected _ _ =
    downgraded base (text_append reason "; aggregate positive decision missing final relation info")

unfoldable pub aggregate_review :
    String
    → DecisionValue
    → String
    → Reviews
    → VotingPolicy
    → Reviews
    → Option RelationType
    → ReviewDecision
unfolding aggregate_base fill_positive
aggregate_review candidate_id decision reason reviews policy selected relation_type =
    let base = aggregate_base candidate_id decision reason reviews policy selected in
    if decision == approve || decision == downgrade
    then fill_positive base reason selected relation_type (confidences_of selected)
    else base

-- `relation_type is not None`
abbrev pub is_some {ℓ} : {A : Type ℓ} → Option A → Bool
is_some none = false
is_some (some a) = true

-- The rest of the function, once the relation type and the selected reviews are known.
unfoldable pub unanimous_with : String → Reviews → VotingPolicy → Majority → ReviewDecision
unanimous_with candidate_id reviews policy (relation_type, selected) =
    if any (decides reject) reviews
    then aggregate_review candidate_id reject
        "unanimous policy rejected because at least one reviewer rejected" reviews policy [] none
    else if eqb (length (approvals_of reviews)) (length reviews) && is_some relation_type
    then aggregate_review candidate_id approve "unanimous policy approved all reviewer decisions"
        reviews policy selected relation_type
    else aggregate_review candidate_id needs_human "unanimous policy queued reviewer disagreement"
        reviews policy [] none

unfoldable pub aggregate_unanimous : String → Reviews → VotingPolicy → ReviewDecision
aggregate_unanimous candidate_id reviews policy =
    unanimous_with candidate_id reviews policy
      (single_majority_relation_type (approvals_of reviews) (length reviews))

-- `required=(len(reviews) // 2) + 1`
abbrev pub strict_majority_of : Reviews → Majority
strict_majority_of reviews =
    single_majority_relation_type (approvals_of reviews) (suc (length reviews / 2))

unfoldable pub majority_with : String → Reviews → VotingPolicy → Majority → ReviewDecision
majority_with candidate_id reviews policy (relation_type, selected) =
    let rejections = count_if (decides reject) reviews in
    if is_some relation_type
    then aggregate_review candidate_id approve "majority policy approved strict reviewer majority"
        reviews policy selected relation_type
    else if ltb (length reviews) (rejections + rejections)
    then aggregate_review candidate_id reject "majority policy rejected strict reviewer majority"
        reviews policy [] none
    else aggregate_review candidate_id needs_human "majority policy queued reviewer disagreement"
        reviews policy [] none

unfoldable pub aggregate_majority : String → Reviews → VotingPolicy → ReviewDecision
aggregate_majority candidate_id reviews policy =
    majority_with candidate_id reviews policy (strict_majority_of reviews)

abbrev is_model : List String → Option String → Bool
is_model models none = false
is_model models (some m) = contains models m

-- `review.reviewer_model in high_priority_reviewer_models`
abbrev pub from_model : List String → ReviewDecision → Bool
from_model models r = is_model models r.reviewer_model

-- `high_priority_type is None or relation_type == high_priority_type`
abbrev pub agrees_with : Option RelationType → Option RelationType → Bool
agrees_with none t = true
agrees_with (some h) t = t == some h

abbrev pub is_concern : ReviewDecision → Bool
is_concern r = decides downgrade r || decides needs_human r

-- The function, given the high-priority reviews and their type, and the majority of all reviews.
unfoldable pub risk_tiered_with :
    String → Reviews → VotingPolicy → Reviews → Option RelationType → Majority → ReviewDecision
risk_tiered_with candidate_id reviews policy high high_type (relation_type, selected) =
    if any (decides reject) high
    then aggregate_review candidate_id reject
        "risk_tiered policy rejected high-priority reviewer veto" reviews policy [] none
    else if any is_concern high
    then aggregate_review candidate_id needs_human
        "risk_tiered policy queued high-priority reviewer concern" reviews policy [] none
    else if not (is_empty (approvals_of high)) && not (is_some high_type)
    then aggregate_review candidate_id needs_human
        "risk_tiered policy queued high-priority relation type disagreement" reviews policy [] none
    else if is_some relation_type && agrees_with high_type relation_type
    then aggregate_review candidate_id approve
        "risk_tiered policy approved strict reviewer majority" reviews policy selected relation_type
    else aggregate_review candidate_id needs_human
        "risk_tiered policy queued without strict safe majority" reviews policy [] none

unfoldable pub aggregate_risk_tiered :
    String → Reviews → VotingPolicy → List String → ReviewDecision
aggregate_risk_tiered candidate_id reviews policy high_models =
    let high = filter (from_model high_models) reviews in
    risk_tiered_with candidate_id reviews policy high (single_relation_type (approvals_of high))
      (strict_majority_of reviews)
