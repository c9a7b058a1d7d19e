-- ===== src/AutoIngest/Voting/HighPriority.antt =====
-- auto_ingest/review_voting.py: high-priority reviewers, and what any approval by a policy rests on.
use nesy_reasoning_mcp.Prelude.{
  ℕ, suc, ◌/◌, ◌≡◌, ◌≢◌, ◌⊎◌, inl, inr, refl, sym, ◌∙◌, ap, String, Bool, true, false, not, ◌&&◌,
  Option, some, none, List, [], ◌∷◌, map, arith, option_key, filter, any, length, is_empty, Memᴰ,
  Memᴰ-filter, map-Memᴰ, dedupe-Memᴰ, any_of_Memᴰ, Bool-cases, Option-cases, some_inj, &&_iff,
}
use mathlib.Core.Bool.{false≢true}
use mathlib.Core.List.Memᴰ
use mathlib.Core.Path.{subst}
use nesy_reasoning_mcp.Schemas.{RelationType, relation_type_key}
use nesy_reasoning_mcp.AutoIngest.Decisions.{
  DecisionValue, approve, reject, needs_human, decision_key, VotingPolicy, risk_tiered, unanimous,
  majority, ReviewDecision,
}
use nesy_reasoning_mcp.AutoIngest.Voting.Policies.{
  Reviews, decides, approvals_of, has_type, from_model, Majority, all_selected_support,
  aggregate_review, aggregate_unanimous, aggregate_risk_tiered, risk_tiered_with,
  strict_majority_of, is_some, agrees_with, is_concern, single_relation_type, types_of, only,
}
use nesy_reasoning_mcp.AutoIngest.Voting.Aggregation.{
  aggregate_candidate_reviews, by_policy, has_missing_high_priority_vote,
}
use nesy_reasoning_mcp.AutoIngest.Voting.Approval.{
  approves, Agreed, aggregate_review-approves, not_approved, single_majority-Agreed,
  aggregate_majority-Agreed, unanimous_with-approves, some_of,
}

no_member :
    (p : ReviewDecision → Bool) (rs : Reviews) (r : ReviewDecision)
    → any p rs ≡ false
    → Memᴰ r rs
    → p r ≡ false
no_member p rs r h m = elim (Bool-cases (p r)) [
  | inl e ↦ absurd (false≢true (sym h ∙ any_of_Memᴰ p rs m e))
  | inr e ↦ e
]

-- Without a rejection or a concern every review approves.
all_approve :
    (high : Reviews) (r : ReviewDecision)
    → any (decides reject) high ≡ false
    → any is_concern high ≡ false
    → Memᴰ r high
    → decides approve r ≡ true
all_approve high r h1 h2 m =
    ground (arith, no_member (decides reject) high r h1 m, no_member is_concern high r h2 m)

only-some :
    (ts : List (Option RelationType)) (u : Option RelationType) (t : RelationType)
    → only ts ≡ some t
    → Memᴰ u ts
    → u ≡ some t
only-some [] u t h m = absurd (Memᴰ.not-nil m)
only-some (v ∷ []) u t h m = Memᴰ.eq_of_singleton m ∙ h
only-some (v ∷ w ∷ ts) u t h m = cc

-- Reviews with a single relation type all have it.
single_relation_type-all :
    (rs : Reviews) (t : RelationType) (r : ReviewDecision)
    → single_relation_type rs ≡ some t
    → Memᴰ r rs
    → r.final_relation_type ≡ some t
unfolding single_relation_type
single_relation_type-all rs t r h m = only-some (types_of rs) r.final_relation_type t h (
    dedupe-Memᴰ (map (λ (x : ReviewDecision). x.final_relation_type) rs) r.final_relation_type
      (map-Memᴰ (λ (x : ReviewDecision). x.final_relation_type) rs r m))

nonempty_of_Memᴰ : (rs : Reviews) (r : ReviewDecision) → Memᴰ r rs → is_empty rs ≡ false
nonempty_of_Memᴰ [] r m = absurd (Memᴰ.not-nil m)
nonempty_of_Memᴰ (x ∷ xs) r m = refl

-- Every one of the reviews approves the type.
abbrev pub AllApprove : RelationType → Reviews → Type 0
AllApprove t rs = (r : ReviewDecision) → Memᴰ r rs → approves t r ≡ true

high_reviews-AllApprove :
    (high : Reviews) (t : RelationType)
    → any (decides reject) high ≡ false
    → any is_concern high ≡ false
    → (not (is_empty (approvals_of high))
        && not (is_some (single_relation_type (approvals_of high))))
      ≡ false
    → agrees_with (single_relation_type (approvals_of high)) (some t) ≡ true
    → AllApprove t high
high_reviews-AllApprove high t h1 h2 h3 h4 r m =
    let ok = all_approve high r h1 h2 m in
    let mine = (Memᴰ-filter (decides approve) r high).1 (m, ok) in
    let filled = nonempty_of_Memᴰ (approvals_of high) r mine in
    elim (Option-cases (single_relation_type (approvals_of high))) [
      | inl e ↦ let clash : true ≡ false = rw (filled, e) at h3 in absurd (false≢true (sym clash))
      | inr (u, e) ↦
          let typed = single_relation_type-all (approvals_of high) u r e mine in
          let agreed = (relation_type_key.same_iff t u).0 (rw e at h4) in
          (&&_iff (decides approve r) (has_type (some t) r)).1
            (ok, rw typed ((relation_type_key.same_iff u t).1 (sym agreed)))
    ]

-- The high-priority approvals disagree on the type.
abbrev disagree : Reviews → Bool
disagree high =
    not (is_empty (approvals_of high)) && not (is_some (single_relation_type (approvals_of high)))

risk_tiered_with-approves :
    (id : String) (rs : Reviews) (policy : VotingPolicy) (high : Reviews) (m : Majority)
    (out : ReviewDecision)
    → risk_tiered_with id rs policy high (single_relation_type (approvals_of high)) m ≡ out
    → out.decision ≡ approve
    → (t : RelationType) × (out.final_relation_type ≡ some t)
      × (m.0 ≡ some t)
      × (all_selected_support m.1 ≡ true)
      × AllApprove t high
unfolding risk_tiered_with
risk_tiered_with-approves id rs policy high (o, selected) out q h =
    let bad : (d : DecisionValue) (reason : String)
        → d ≢ approve
        → ¬ (aggregate_review id d reason rs policy [] none ≡ out) =
      λ d reason other same.
        not_approved id reason rs policy d other (ap (λ x. x.decision) same ∙ h) in
    elim (Bool-cases (any (decides reject) high)) [
      | inl e ↦ absurd (bad reject _ (λ z. cc) (rw e at q))
      | inr e ↦ elim (Bool-cases (any is_concern high)) [
        | inl f ↦ absurd (bad needs_human _ (λ z. cc) (rw (e, f) at q))
        | inr f ↦ elim (Bool-cases (disagree high)) [
          | inl g ↦ absurd (bad needs_human _ (λ z. cc) (rw (e, f, g) at q))
          | inr g ↦
              elim (Bool-cases
                (is_some o && agrees_with (single_relation_type (approvals_of high)) o)) [
                  | inr k ↦ absurd (bad needs_human _ (λ z. cc) (rw (e, f, g, k) at q))
                  | inl k ↦
                      let same = rw (e, f, g, k) at q in
                      let (_, b, c) =
                        aggregate_review-approves id _ rs selected policy approve o
                          (ap (λ x. x.decision) same ∙ h) in
                      let (k1, k2) =
                        (&&_iff (is_some o)
                            (agrees_with (single_relation_type (approvals_of high)) o)).0
                          k in
                      let (t, typed) = some_of o k1 in
                      (
                        t,
                        sym (ap (λ x. x.final_relation_type) same) ∙ b ∙ typed,
                        typed,
                        c,
                        high_reviews-AllApprove high t e f g (rw typed at k2),
                      )
                ]
        ]
      ]
    ]

-- How many of the reviews have to approve: all, or more than half.
abbrev pub required_by : VotingPolicy → Reviews → ℕ
required_by unanimous rs = length rs
required_by majority rs = suc (length rs / 2)
required_by risk_tiered rs = suc (length rs / 2)

-- What the policy asks of the high-priority reviewers.
abbrev pub PriorityAgrees : VotingPolicy → RelationType → Reviews → Type 0
PriorityAgrees unanimous t high = Unit
PriorityAgrees majority t high = Unit
PriorityAgrees risk_tiered t high = AllApprove t high

-- What an approval by a policy rests on.
pub record Approved (policy : VotingPolicy) (rs high : Reviews) (out : ReviewDecision)
    : Type 0 where
  pub relation_type : RelationType
  pub typed : out.final_relation_type ≡ some relation_type
  pub agreed : Agreed relation_type rs (required_by policy rs)
  pub priority : PriorityAgrees policy relation_type high

by_policy-Approved :
    (policy : VotingPolicy) (id : String) (rs : Reviews) (high_models : List String)
    → (by_policy policy id rs high_models).decision ≡ approve
    → Approved policy rs (filter (from_model high_models) rs) (by_policy policy id rs high_models)
unfolding by_policy aggregate_unanimous aggregate_risk_tiered
by_policy-Approved unanimous id rs high_models h =
    let (t, a, b, c) = unanimous_with-approves id rs unanimous _ h in
    record {
      relation_type = t;
      typed = a;
      agreed = single_majority-Agreed rs (length rs) t b c;
      priority = tt;
    }
by_policy-Approved majority id rs high_models h =
    let (t, a, b) = aggregate_majority-Agreed id rs majority h in
    record { relation_type = t; typed = a; agreed = b; priority = tt }
by_policy-Approved risk_tiered id rs high_models h =
    let (t, a, b, c, d) =
      risk_tiered_with-approves id rs risk_tiered (filter (from_model high_models) rs)
        (strict_majority_of rs) _ refl h in
    record {
      relation_type = t;
      typed = a;
      agreed = single_majority-Agreed rs (suc (length rs / 2)) t b c;
      priority = d;
    }

-- If the aggregate of the reviews of a candidate approves it, then either it is the one review
-- there is, or some relation type is that of the aggregate and as many reviews approve it as the
-- policy requires, all of these confirm the implications that it is normalized to, and under the
-- risk-tiered policy every review by a high-priority model approves that type.
pub aggregate_candidate_reviews_approval :
    (id : String) (rs : Reviews) (policy : VotingPolicy) (high_models : List String)
    (out : ReviewDecision)
    → aggregate_candidate_reviews id rs policy high_models ≡ some out
    → out.decision ≡ approve
    → (rs ≡ out ∷ []) ⊎ Approved policy rs (filter (from_model high_models) rs) out
unfolding aggregate_candidate_reviews
aggregate_candidate_reviews_approval id [] policy high_models out h a = cc
aggregate_candidate_reviews_approval id (r ∷ []) policy high_models out h a =
    elim (Bool-cases (not (has_missing_high_priority_vote (r ∷ []) high_models))) [
      | inl e ↦ inl (ap (λ x. x ∷ []) (some_inj r out (rw e at h)))
      | inr e ↦
          let same = some_inj _ out (rw e at h) in
          inr (
            subst (Approved policy (r ∷ []) (filter (from_model high_models) (r ∷ []))) same
              (by_policy-Approved policy id (r ∷ []) high_models (ap (λ x. x.decision) same ∙ a)))
    ]
aggregate_candidate_reviews_approval id (r ∷ s ∷ rs) policy high_models out h a =
    let same = some_inj _ out h in
    inr (
      subst (Approved policy (r ∷ s ∷ rs) (filter (from_model high_models) (r ∷ s ∷ rs))) same
        (by_policy-Approved policy id (r ∷ s ∷ rs) high_models (ap (λ x. x.decision) same ∙ a)))
