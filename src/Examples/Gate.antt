-- ===== src/Examples/Gate.antt =====
-- The theorem on the gate at two candidates, one of which has been approved.
use nesy_reasoning_mcp.Prelude.{
  ◌≡◌, refl, String, true, false, some, none, List, [], ◌∷◌, Memᴰ, length, map,
}
use nesy_reasoning_mcp.Schemas.{RelationType, RelationInput, end}
use nesy_reasoning_mcp.AutoIngest.Decisions.{approve, ReviewDecision}
use nesy_reasoning_mcp.AutoIngest.Records.{CandidateRelation, GateAction, GateResult}
use nesy_reasoning_mcp.AutoIngest.Gate.{
  GateHost, run_dry_run_gate, relation_from_review, screen_all, screen, review_by_id, outcome_of,
  decide, durable_approved, concerns_by_candidate,
}
use nesy_reasoning_mcp.AutoIngest.Gate.Safe.{MayBeWritten, run_dry_run_gate_safe}

-- Reasoning succeeds, finds nothing, and there are no duplicates.
abbrev host : GateHost
host = record {
  reasoning_fails = λ relations. false;
  finds_hard_contradiction = λ relations. false;
  duplicate_concerns = map (λ relation. none);
  show_confidence = λ confidence. "0.500";
}

abbrev candidate : String → CandidateRelation
candidate id = record {
  id = id;
  source = "a";
  source_id = none;
  target = "b";
  target_id = none;
  relation_type = RelationType.sufficient;
  confidence = 7;
  context_id = "default";
  store_id = "default";
  evidence = [];
  metadata = end;
}

abbrev approval : ReviewDecision
approval = record {
  candidate_id = "c1";
  decision = approve;
  final_relation_type = some RelationType.sufficient;
  final_confidence = some 5;
  normalized_implication_supported = some true;
  reasons = [];
  risk_flags = [];
  reviewer_model = some "m1";
  metadata = end;
}

abbrev candidates : List CandidateRelation
candidates = candidate "c1" ∷ candidate "c2" ∷ []

gate_run :
    (map (λ (g : GateResult). g.action) (run_dry_run_gate host candidates (approval ∷ []) 5 true).0
      ≡ GateAction.queue ∷ GateAction.auto_write ∷ [])
    × (length (run_dry_run_gate host candidates (approval ∷ []) 5 true).1 ≡ 1)
    × (length (run_dry_run_gate host candidates (approval ∷ []) 6 true).1 ≡ 0)
unfolding run_dry_run_gate screen_all screen review_by_id outcome_of decide durable_approved
    concerns_by_candidate relation_from_review
gate_run = (refl, refl, refl)

run_dry_run_gate_safe_example :
    (length (run_dry_run_gate host candidates (approval ∷ []) 5 true).0 ≡ length candidates)
    × ((g : GateResult)
        → Memᴰ g (run_dry_run_gate host candidates (approval ∷ []) 5 true).0
        → g.action ≡ GateAction.auto_write
        → (c : CandidateRelation) × (r : ReviewDecision) × (g.candidate_id ≡ c.id)
          × MayBeWritten host candidates (approval ∷ []) 5 c r
          × Memᴰ
              (relation_from_review c r)
              (run_dry_run_gate host candidates (approval ∷ []) 5 true).1)
    × ((x : RelationInput)
        → Memᴰ x (run_dry_run_gate host candidates (approval ∷ []) 5 true).1
        → (c : CandidateRelation) × (r : ReviewDecision) × (x ≡ relation_from_review c r)
          × MayBeWritten host candidates (approval ∷ []) 5 c r)
run_dry_run_gate_safe_example = run_dry_run_gate_safe host candidates (approval ∷ []) 5 true
