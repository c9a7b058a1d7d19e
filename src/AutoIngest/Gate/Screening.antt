-- ===== src/AutoIngest/Gate/Screening.antt =====
-- auto_ingest/gate.py: the first loop, which screens the candidates by their reviews.
use nesy_reasoning_mcp.Prelude.{
  ℕ, suc, ◌+◌, ◌≤◌, ◌≡◌, ◌≢◌, inl, inr, refl, ◌∙◌, ap, String, Bool, true, not, ◌&&◌, ◌||◌, Option,
  some, none, List, [], ◌∷◌, arith, ltb, ◌==◌, text_key, length, All, All-map, Memᴰ, Bool-cases,
  Dict, lookup,
}
use nesy_reasoning_mcp.AutoIngest.Decisions.{
  approve, downgrade, reject, needs_human, decision_key, ReviewDecision,
}
use nesy_reasoning_mcp.AutoIngest.Records.{CandidateRelation, GateAction, action_key, GateResult}
use nesy_reasoning_mcp.AutoIngest.Gate.{
  GateHost, confirmed, written_confidence, Screened, stopped, passed, screen, Approved,
  add_screened, screen_all,
}

-- A candidate may be written on the strength of a review: the review approves it, confirms the
-- implications that it is normalized to, and its confidence reaches the threshold.
pub record Vouched (min_write : ℕ) (c : CandidateRelation) (r : ReviewDecision) : Type 0 where
  pub approves : r.decision ≡ approve
  pub confirms : confirmed r.normalized_implication_supported ≡ true
  pub confident : min_write ≤ written_confidence c r

stopped_not_passed : (g : GateResult) (s : ReviewDecision) → ¬ (stopped g ≡ passed s)
stopped_not_passed g s h = cc

passed_inj : (r s : ReviewDecision) → passed r ≡ passed s → r ≡ s
passed_inj r s h = cc

-- The tests of the first loop.
abbrev unsupported : ReviewDecision → Bool
unsupported r =
    (r.decision == approve || r.decision == downgrade)
    && not (confirmed r.normalized_implication_supported)

abbrev unsure : ReviewDecision → Bool
unsure r = r.decision == downgrade || r.decision == needs_human

screen-Vouched :
    (host : GateHost) (min_write : ℕ) (c : CandidateRelation) (r s : ReviewDecision)
    → screen host min_write c (some r) ≡ passed s
    → (r ≡ s) × Vouched min_write c r
unfolding screen
screen-Vouched host min_write c r s h = elim (Bool-cases (r.decision == reject)) [
  | inl e ↦ absurd (stopped_not_passed _ s (rw e at h))
  | inr e ↦ elim (Bool-cases (unsupported r)) [
    | inl f ↦ absurd (stopped_not_passed _ s (rw (e, f) at h))
    | inr f ↦ elim (Bool-cases (unsure r)) [
      | inl g ↦ absurd (stopped_not_passed _ s (rw (e, f, g) at h))
      | inr g ↦ elim (Bool-cases (ltb (written_confidence c r) min_write)) [
        | inl k ↦ absurd (stopped_not_passed _ s (rw (e, f, g, k) at h))
        | inr k ↦ (
          passed_inj r s (rw (e, f, g, k) at h),
          record {
            approves = ground (arith, e, g);
            confirms = ground (arith, e, f, g);
            confident = ground (arith, k);
          },
        )
      ]
    ]
  ]
]

abbrev action_of : Screened → GateAction
action_of (stopped g) = g.action
action_of (passed r) = GateAction.queue

-- The first loop itself writes nothing.
screen-action :
    (host : GateHost) (min_write : ℕ) (c : CandidateRelation) (o : Option ReviewDecision)
    → action_of (screen host min_write c o) ≢ GateAction.auto_write
unfolding screen
screen-action host min_write c none h = cc
screen-action host min_write c (some r) h = elim (Bool-cases (r.decision == reject)) [
  | inl e ↦ let q : GateAction.reject ≡ GateAction.auto_write = rw e at h in cc
  | inr e ↦ elim (Bool-cases (unsupported r)) [
    | inl f ↦ let q : GateAction.queue ≡ GateAction.auto_write = rw (e, f) at h in cc
    | inr f ↦ elim (Bool-cases (unsure r)) [
      | inl g ↦ let q : GateAction.queue ≡ GateAction.auto_write = rw (e, f, g) at h in cc
      | inr g ↦ elim (Bool-cases (ltb (written_confidence c r) min_write)) [
        | inl k ↦ let q : GateAction.queue ≡ GateAction.auto_write = rw (e, f, g, k) at h in cc
        | inr k ↦ let q : GateAction.queue ≡ GateAction.auto_write = rw (e, f, g, k) at h in cc
      ]
    ]
  ]
]

-- Every approved candidate is one of the given ones and is vouched for by the last review of it.
abbrev pub Backed :
    ℕ
    → Dict String ReviewDecision
    → List CandidateRelation
    → CandidateRelation × ReviewDecision
    → Type 0
Backed min_write reviews cs a =
    Memᴰ a.0 cs × (lookup a.0.id reviews ≡ some a.1) × Vouched min_write a.0 a.1

passed-Vouched :
    (host : GateHost) (min_write : ℕ) (c : CandidateRelation) (o : Option ReviewDecision)
    (s : ReviewDecision)
    → screen host min_write c o ≡ passed s
    → (o ≡ some s) × Vouched min_write c s
unfolding screen
passed-Vouched host min_write c none s h = absurd (stopped_not_passed _ s h)
passed-Vouched host min_write c (some r) s h =
    let (e, v) = screen-Vouched host min_write c r s h in (ap some e, rw e at v)

Backed-tail :
    (min_write : ℕ) (reviews : Dict String ReviewDecision) (c : CandidateRelation)
    (cs : List CandidateRelation) (approved : Approved)
    → All (Backed min_write reviews cs) approved
    → All (Backed min_write reviews (c ∷ cs)) approved
Backed-tail min_write reviews c cs approved h =
    All-map (Backed min_write reviews cs) (Backed min_write reviews (c ∷ cs)) approved
      (λ a b. (Memᴰ.tail b.0, b.1, b.2)) h

pub screen_all-Backed :
    (host : GateHost) (min_write : ℕ) (reviews : Dict String ReviewDecision)
    (cs : List CandidateRelation)
    → All (Backed min_write reviews cs) (screen_all host min_write reviews cs).1
unfolding screen_all
screen_all-Backed host min_write reviews [] = tt
screen_all-Backed host min_write reviews (c ∷ cs) =
    go (screen host min_write c (lookup c.id reviews)) refl
      (Backed-tail min_write reviews c cs _ (screen_all-Backed host min_write reviews cs))
  where
    go :
        (x : Screened)
        → screen host min_write c (lookup c.id reviews) ≡ x
        → All (Backed min_write reviews (c ∷ cs)) (screen_all host min_write reviews cs).1
        → All
            (Backed min_write reviews (c ∷ cs))
            (add_screened c x (screen_all host min_write reviews cs)).1
    go (stopped g) e rest = rest
    go (passed s) e rest =
        let (found, v) = passed-Vouched host min_write c (lookup c.id reviews) s e in
        ((Memᴰ.head refl, found, v), rest)

pub screen_all-results :
    (host : GateHost) (min_write : ℕ) (reviews : Dict String ReviewDecision)
    (cs : List CandidateRelation)
    → (length (screen_all host min_write reviews cs).0
          + length (screen_all host min_write reviews cs).1
        ≡ length cs)
      × All
          (λ (g : GateResult). g.action ≢ GateAction.auto_write)
          (screen_all host min_write reviews cs).0
unfolding screen_all
screen_all-results host min_write reviews [] = (omega arith, tt)
screen_all-results host min_write reviews (c ∷ cs) =
    let (n, a) = screen_all-results host min_write reviews cs in
    go (screen host min_write c (lookup c.id reviews)) refl n a
  where
    go :
        (x : Screened)
        → screen host min_write c (lookup c.id reviews) ≡ x
        → length (screen_all host min_write reviews cs).0
            + length (screen_all host min_write reviews cs).1
          ≡ length cs
        → All
            (λ (g : GateResult). g.action ≢ GateAction.auto_write)
            (screen_all host min_write reviews cs).0
        → (length (add_screened c x (screen_all host min_write reviews cs)).0
              + length (add_screened c x (screen_all host min_write reviews cs)).1
            ≡ suc (length cs))
          × All
              (λ (g : GateResult). g.action ≢ GateAction.auto_write)
              (add_screened c x (screen_all host min_write reviews cs)).0
    go (stopped g) e n a = (
      omega (arith, n),
      (λ q. screen-action host min_write c (lookup c.id reviews) (ap action_of e ∙ q), a),
    )
    go (passed s) e n a = (omega (arith, n), a)
