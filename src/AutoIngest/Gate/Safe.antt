-- ===== src/AutoIngest/Gate/Safe.antt =====
-- auto_ingest/gate.py: what the gate lets through.
use nesy_reasoning_mcp.Prelude.{
  ℕ, ◌≡◌, ◌≢◌, inl, inr, refl, sym, ◌∙◌, ap, Bool, true, false, not, ◌||◌, some, List, [], map,
  arith, text_key, filter, length, length-append, length-map, All-Memᴰ, Memᴰ, Memᴰ-map, map-Memᴰ,
  Memᴰ-filter, Bool-cases, lookup,
}
use mathlib.Core.List.Memᴰ
use nesy_reasoning_mcp.Schemas.{RelationInput}
use nesy_reasoning_mcp.AutoIngest.Decisions.{decision_key, ReviewDecision}
use nesy_reasoning_mcp.AutoIngest.Records.{CandidateRelation, GateAction, action_key, GateResult}
use nesy_reasoning_mcp.AutoIngest.Gate.{
  GateHost, review_by_id, Approved, screen_all, relation_from_review, Outcome, outcome_of,
  is_duplicate, decide, durable_approved, run_dry_run_gate,
}
use nesy_reasoning_mcp.AutoIngest.Gate.Screening.{
  Vouched, Backed, screen_all-Backed, screen_all-results,
}

decide-written :
    (o : Outcome) (write_enabled : Bool) (c : CandidateRelation) (r : ReviewDecision)
    → (decide o write_enabled c r).action ≡ GateAction.auto_write
    → (o.failed ≡ false) × (o.hard ≡ false) × (is_duplicate o c ≡ false)
unfolding decide
decide-written o write_enabled c r h = elim (Bool-cases o.failed) [
  | inl e ↦ let q : GateAction.queue ≡ GateAction.auto_write = rw e at h in cc
  | inr e ↦ elim (Bool-cases o.hard) [
    | inl f ↦ let q : GateAction.queue ≡ GateAction.auto_write = rw (e, f) at h in cc
    | inr f ↦ elim (Bool-cases (is_duplicate o c)) [
      | inl g ↦ let q : GateAction.queue ≡ GateAction.auto_write = rw (e, f, g) at h in cc
      | inr g ↦ (e, f, g)
    ]
  ]
]

decide-id :
    (o : Outcome) (write_enabled : Bool) (c : CandidateRelation) (r : ReviewDecision)
    → (decide o write_enabled c r).candidate_id ≡ c.id
unfolding decide
decide-id o write_enabled c r = elim (Bool-cases o.failed) [
  | inl e ↦ rw e refl
  | inr e ↦ elim (Bool-cases o.hard) [
    | inl f ↦ rw (e, f) refl
    | inr f ↦ elim (Bool-cases (is_duplicate o c)) [
      | inl g ↦ rw (e, f, g) refl
      | inr g ↦ rw (e, f, g) refl
    ]
  ]
]

-- The approved candidates of a run.
abbrev pub approved_in : GateHost → List CandidateRelation → List ReviewDecision → ℕ → Approved
approved_in host candidates reviews min_write =
    (screen_all host min_write (review_by_id [] reviews) candidates).1

-- A relation may be written: it is that of a given candidate whose last review vouches for it, and
-- the check of all approved relations neither failed nor found a hard contradiction.
pub record MayBeWritten (host : GateHost) (candidates : List CandidateRelation)
    (reviews : List ReviewDecision) (min_write : ℕ) (c : CandidateRelation) (r : ReviewDecision)
    : Type 0 where
  pub given : Memᴰ c candidates
  pub reviewed : lookup c.id (review_by_id [] reviews) ≡ some r
  pub vouched : Vouched min_write c r
  pub checked :
      (outcome_of host true (approved_in host candidates reviews min_write)).failed ≡ false
  pub no_contradiction :
      (outcome_of host true (approved_in host candidates reviews min_write)).hard ≡ false

durable-source :
    (o : Outcome) (approved : Approved) (x : RelationInput)
    → Memᴰ x (durable_approved o approved)
    → (a : CandidateRelation × ReviewDecision) × Memᴰ a approved
      × (x ≡ relation_from_review a.0 a.1)
      × (o.failed ≡ false)
      × (o.hard ≡ false)
unfolding durable_approved
durable-source o approved x m = elim (Bool-cases (o.hard || o.failed)) [
  | inl e ↦ absurd (Memᴰ.not-nil (rw e at m))
  | inr e ↦
      let kept =
        filter (λ (a : CandidateRelation × ReviewDecision). not (is_duplicate o a.0)) approved in
      let (a, n, q) =
        Memᴰ-map (λ (a : CandidateRelation × ReviewDecision). relation_from_review a.0 a.1) kept x
          (rw e at m) in
      (
        a,
        ((Memᴰ-filter (λ (a : CandidateRelation × ReviewDecision). not (is_duplicate o a.0)) a
              approved).0
            n).0,
        q,
        ground (arith, e),
        ground (arith, e),
      )
]

written-durable :
    (o : Outcome) (approved : Approved) (a : CandidateRelation × ReviewDecision)
    → Memᴰ a approved
    → o.failed ≡ false
    → o.hard ≡ false
    → is_duplicate o a.0 ≡ false
    → Memᴰ (relation_from_review a.0 a.1) (durable_approved o approved)
unfolding durable_approved
written-durable o approved a m e f g =
    let kept =
      filter (λ (b : CandidateRelation × ReviewDecision). not (is_duplicate o b.0)) approved in
    let stays =
      (Memᴰ-filter (λ (b : CandidateRelation × ReviewDecision). not (is_duplicate o b.0)) a
          approved).1
        (m, rw g refl) in
    rw (e, f)
      (map-Memᴰ (λ (b : CandidateRelation × ReviewDecision). relation_from_review b.0 b.1) kept a
        stays)

-- A relation may be written for an approved candidate, if the checks let it.
approved-MayBeWritten :
    (host : GateHost) (candidates : List CandidateRelation) (reviews : List ReviewDecision)
    (min_write : ℕ) (write_enabled : Bool) (a : CandidateRelation × ReviewDecision)
    → Memᴰ a (approved_in host candidates reviews min_write)
    → (outcome_of host write_enabled (approved_in host candidates reviews min_write)).failed ≡ false
    → (outcome_of host write_enabled (approved_in host candidates reviews min_write)).hard ≡ false
    → MayBeWritten host candidates reviews min_write a.0 a.1
unfolding outcome_of
approved-MayBeWritten host candidates reviews min_write write_enabled a m e f =
    let (given, found, v) =
      All-Memᴰ (Backed min_write (review_by_id [] reviews) candidates)
        (approved_in host candidates reviews min_write)
        (screen_all-Backed host min_write (review_by_id [] reviews) candidates) m in
    record { given = given; reviewed = found; vouched = v; checked = e; no_contradiction = f }

-- The gate gives one result for each candidate. A result with the action `auto_write` is that of a
-- candidate whose relation may be written, and the relation is among those that the gate returns;
-- and it returns no other relations than such that may be written. A relation may be written if
-- the last review of its candidate approves it, confirms its implications and reaches the
-- threshold, and the check of the approved relations neither failed nor found a hard contradiction.
pub run_dry_run_gate_safe :
    (host : GateHost) (candidates : List CandidateRelation) (reviews : List ReviewDecision)
    (min_write : ℕ) (write_enabled : Bool)
    → (length (run_dry_run_gate host candidates reviews min_write write_enabled).0
        ≡ length candidates)
      × ((g : GateResult)
          → Memᴰ g (run_dry_run_gate host candidates reviews min_write write_enabled).0
          → g.action ≡ GateAction.auto_write
          → (c : CandidateRelation) × (r : ReviewDecision) × (g.candidate_id ≡ c.id)
            × MayBeWritten host candidates reviews min_write c r
            × Memᴰ
                (relation_from_review c r)
                (run_dry_run_gate host candidates reviews min_write write_enabled).1)
      × ((x : RelationInput)
          → Memᴰ x (run_dry_run_gate host candidates reviews min_write write_enabled).1
          → (c : CandidateRelation) × (r : ReviewDecision) × (x ≡ relation_from_review c r)
            × MayBeWritten host candidates reviews min_write c r)
unfolding run_dry_run_gate
run_dry_run_gate_safe host candidates reviews min_write write_enabled =
    let by_id = review_by_id [] reviews in
    let first = (screen_all host min_write by_id candidates).0 in
    let approved = approved_in host candidates reviews min_write in
    let o = outcome_of host write_enabled approved in
    let verdict = λ (a : CandidateRelation × ReviewDecision). decide o write_enabled a.0 a.1 in
    let (count, none_written) = screen_all-results host min_write by_id candidates in
    (
      omega (arith, length-append first (map verdict approved), length-map verdict approved, count),
      λ g m w. elim (Memᴰ.append_cases first m) [
        | inl old ↦ absurd (
            All-Memᴰ (λ (x : GateResult). x.action ≢ GateAction.auto_write) first none_written old
              w)
        | inr new ↦
            let (a, n, e) = Memᴰ-map verdict approved g new in
            let (p, q, s) =
              decide-written o write_enabled a.0 a.1 (sym (ap (λ x. x.action) e) ∙ w) in
            (
              a.0,
              a.1,
              ap (λ x. x.candidate_id) e ∙ decide-id o write_enabled a.0 a.1,
              approved-MayBeWritten host candidates reviews min_write write_enabled a n p q,
              written-durable o approved a n p q s,
            )
      ],
      λ x m.
          let (a, n, e, p, q) = durable-source o approved x m in
          (
            a.0,
            a.1,
            e,
            approved-MayBeWritten host candidates reviews min_write write_enabled a n p q,
          ),
    )
