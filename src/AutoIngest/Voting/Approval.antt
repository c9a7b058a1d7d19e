-- ===== src/AutoIngest/Voting/Approval.antt =====
-- auto_ingest/review_voting.py: what an aggregate that approves rests on.
use nesy_reasoning_mcp.Prelude.{
  ℕ, suc, ◌+◌, ◌/◌, ◌≤◌, ◌<◌, ◌≡◌, ◌≢◌, inl, inr, refl, ◌∙◌, ap, String, Bool, true, ◌&&◌, Option,
  some, none, List, [], ◌∷◌, arith, ltb, text_key, option_key, filter, any, count_if, length, Memᴰ,
  Memᴰ-filter, all_Memᴰ, Bool-cases, count_if-filter, count_if-cong, eqb, some_inj, &&_iff,
}
use nesy_reasoning_mcp.Schemas.{RelationType, relation_type_key}
use nesy_reasoning_mcp.AutoIngest.Decisions.{
  DecisionValue, approve, downgrade, reject, needs_human, decision_key, VotingPolicy,
  ReviewDecision,
}
use nesy_reasoning_mcp.AutoIngest.Voting.Policies.{
  Reviews, decides, approvals_of, has_type, is_true, Majority, majority_of, all_selected_support,
  fill_positive, aggregate_base, aggregate_review, single_majority_relation_type,
  aggregate_majority, confidences_of, majority_with, unanimous_with, strict_majority_of, is_some,
}

-- A review that approves the candidate as a relation of the type.
abbrev pub approves : RelationType → ReviewDecision → Bool
approves t r = decides approve r && has_type (some t) r

-- More than half of the reviews approve the type.
abbrev pub StrictMajority : RelationType → Reviews → Type 0
StrictMajority t rs = length rs < count_if (approves t) rs + count_if (approves t) rs

-- The reviews that approve the type all confirm the implications that it is normalized to.
abbrev pub Supported : RelationType → Reviews → Type 0
Supported t rs =
    (r : ReviewDecision)
    → Memᴰ r rs
    → approves t r ≡ true
    → is_true r.normalized_implication_supported ≡ true

majority_of-some :
    (approvals selected : Reviews) (required : ℕ) (t : RelationType)
    (m : Option (Option RelationType))
    → (majority_of approvals required m).0 ≡ some t
    → ((majority_of approvals required m).1 ≡ filter (has_type (some t)) approvals)
      × (required ≤ count_if (has_type (some t)) approvals)
majority_of-some approvals selected required t none h = cc
majority_of-some approvals selected required t (some none) h = cc
majority_of-some approvals selected required t (some (some u)) h =
    elim (Bool-cases (ltb (count_if (has_type (some u)) approvals) required)) [
      | inl e ↦ let same : ◌≡◌ {A = Option RelationType} none (some t) = rw e at h in cc
      | inr e ↦
          let same = some_inj u t (rw e at h) in
          (
            rw e (ap (λ v. filter (has_type (some v)) approvals) same),
            rw⁻¹ same (ground (arith, e)),
          )
    ]

-- An aggregate that approves was asked to, has the type that it was given, and rests on reviews
-- that all support the implications.
abbrev Rests : Option RelationType → DecisionValue → Reviews → ReviewDecision → Type 0
Rests t d selected out =
    (d ≡ approve) × (out.final_relation_type ≡ t) × (all_selected_support selected ≡ true)

fill_positive-approves :
    (base : ReviewDecision) (reason : String) (selected : Reviews) (t : Option RelationType)
    (cs : List ℕ)
    → (fill_positive base reason selected t cs).decision ≡ approve
    → Rests t base.decision selected (fill_positive base reason selected t cs)
unfolding fill_positive
fill_positive-approves base reason selected none cs h = cc
fill_positive-approves base reason selected (some t) [] h = cc
fill_positive-approves base reason selected (some t) (c ∷ cs) h =
    elim (Bool-cases (all_selected_support selected)) [
      | inl e ↦ (rw e at h, rw e refl, e)
      | inr e ↦ let same : needs_human ≡ approve = rw e at h in cc
    ]

pub aggregate_review-approves :
    (id reason : String) (reviews selected : Reviews) (policy : VotingPolicy) (d : DecisionValue)
    (t : Option RelationType)
    → (aggregate_review id d reason reviews policy selected t).decision ≡ approve
    → Rests t d selected (aggregate_review id d reason reviews policy selected t)
unfolding aggregate_review aggregate_base
aggregate_review-approves id reason reviews selected policy approve t h =
    fill_positive-approves (aggregate_base id approve reason reviews policy selected) reason
      selected t (confidences_of selected) h
aggregate_review-approves id reason reviews selected policy downgrade t h =
    fill_positive-approves (aggregate_base id downgrade reason reviews policy selected) reason
      selected t (confidences_of selected) h
aggregate_review-approves id reason reviews selected policy reject t h = cc
aggregate_review-approves id reason reviews selected policy needs_human t h = cc

count_if-approves :
    (t : RelationType) (rs : Reviews)
    → count_if (has_type (some t)) (approvals_of rs) ≡ count_if (approves t) rs
count_if-approves t rs =
    count_if-filter (has_type (some t)) (decides approve) rs
    ∙ count_if-cong _ (approves t) rs (λ r. ground arith)

selected-Supported :
    (t : RelationType) (rs : Reviews)
    → all_selected_support (filter (has_type (some t)) (approvals_of rs)) ≡ true
    → Supported t rs
unfolding all_selected_support
selected-Supported t rs h r m e =
    let (p, q) = (&&_iff (decides approve r) (has_type (some t) r)).0 e in
    all_Memᴰ _ (filter (has_type (some t)) (approvals_of rs)) h (
      (Memᴰ-filter (has_type (some t)) r (approvals_of rs)).1
        ((Memᴰ-filter (decides approve) r rs).1 (m, p), q))

-- What stands behind an approval.
pub record Agreed (t : RelationType) (rs : Reviews) (required : ℕ) : Type 0 where
  pub enough : required ≤ count_if (approves t) rs
  pub supported : Supported t rs

pub single_majority-Agreed :
    (rs : Reviews) (required : ℕ) (t : RelationType)
    → (single_majority_relation_type (approvals_of rs) required).0 ≡ some t
    → all_selected_support (single_majority_relation_type (approvals_of rs) required).1 ≡ true
    → Agreed t rs required
unfolding single_majority_relation_type
single_majority-Agreed rs required t h support =
    let (same, count) = majority_of-some (approvals_of rs) [] required t _ h in
    record {
      enough = omega (arith, count, count_if-approves t rs);
      supported = selected-Supported t rs (rw same at support);
    }

pub not_approved :
    (id reason : String) (reviews : Reviews) (policy : VotingPolicy) (d : DecisionValue)
    → d ≢ approve
    → ¬ ((aggregate_review id d reason reviews policy [] none).decision ≡ approve)
not_approved id reason reviews policy d other h =
    other (aggregate_review-approves id reason reviews [] policy d none h).0

majority_with-approves :
    (id : String) (rs : Reviews) (policy : VotingPolicy) (m : Majority)
    → (majority_with id rs policy m).decision ≡ approve
    → (t : RelationType) × ((majority_with id rs policy m).final_relation_type ≡ some t)
      × (m.0 ≡ some t)
      × (all_selected_support m.1 ≡ true)
unfolding majority_with
majority_with-approves id rs policy (some t, selected) h =
    let (_, b, c) = aggregate_review-approves id _ rs selected policy approve (some t) h in
    (t, b, refl, c)
majority_with-approves id rs policy (none, selected) h =
    elim (Bool-cases
      (ltb (length rs) (count_if (decides reject) rs + count_if (decides reject) rs))) [
        | inl e ↦ absurd (not_approved id _ rs policy reject (λ q. cc) (rw e at h))
        | inr e ↦ absurd (not_approved id _ rs policy needs_human (λ q. cc) (rw e at h))
      ]

pub aggregate_majority-Agreed :
    (id : String) (rs : Reviews) (policy : VotingPolicy)
    → (aggregate_majority id rs policy).decision ≡ approve
    → (t : RelationType) × ((aggregate_majority id rs policy).final_relation_type ≡ some t)
      × Agreed t rs (suc (length rs / 2))
unfolding aggregate_majority
aggregate_majority-Agreed id rs policy h =
    let (t, a, b, c) = majority_with-approves id rs policy (strict_majority_of rs) h in
    (t, a, single_majority-Agreed rs (suc (length rs / 2)) t b c)

pub some_of : {A : Type 0} (o : Option A) → is_some o ≡ true → (a : A) × (o ≡ some a)
some_of none h = cc
some_of (some a) h = (a, refl)

pub unanimous_with-approves :
    (id : String) (rs : Reviews) (policy : VotingPolicy) (m : Majority)
    → (unanimous_with id rs policy m).decision ≡ approve
    → (t : RelationType) × ((unanimous_with id rs policy m).final_relation_type ≡ some t)
      × (m.0 ≡ some t)
      × (all_selected_support m.1 ≡ true)
unfolding unanimous_with
unanimous_with-approves id rs policy (o, selected) h = elim (Bool-cases (any (decides reject) rs)) [
  | inl e ↦ absurd (not_approved id _ rs policy reject (λ q. cc) (rw e at h))
  | inr e ↦ elim (Bool-cases (eqb (length (approvals_of rs)) (length rs) && is_some o)) [
    | inr f ↦ absurd (not_approved id _ rs policy needs_human (λ q. cc) (rw (e, f) at h))
    | inl f ↦
        let (_, b, c) =
          aggregate_review-approves id _ rs selected policy approve o (rw (e, f) at h) in
        let (t, same) = some_of o (ground (arith, f)) in (t, rw (e, f) (b ∙ same), same, c)
  ]
]
