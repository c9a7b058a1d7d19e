-- ===== src/AutoIngest/Records.antt =====
-- auto_ingest/schemas.py: candidates, gate results and the records of the review queue.
use nesy_reasoning_mcp.Prelude.{
  ℕ, ◌≡◌, ◌↔◌, String, Bool, true, false, ◌&&◌, ◌||◌, Option, some, none, List, arith, ◌==◌,
  text_key, Key,
}
use nesy_reasoning_mcp.Schemas.{RelationType, PropositionRecord, Fields}
use nesy_reasoning_mcp.AutoIngest.Decisions.{ReviewDecision}

pub data ReviewQueueStatus : Type 0 where
  pending reviewing committed resolved failed : ReviewQueueStatus

pub data GateAction : Type 0 where
  auto_write queue reject : GateAction

abbrev status_same : ReviewQueueStatus → ReviewQueueStatus → Bool
status_same pending pending = true
status_same reviewing reviewing = true
status_same committed committed = true
status_same resolved resolved = true
status_same failed failed = true
status_same _ _ = false

pub status_same_iff : (a b : ReviewQueueStatus) → (status_same a b ≡ true) ↔ (a ≡ b)
status_same_iff a b = ground arith

instance abbrev pub status_key : Key ReviewQueueStatus
status_key = record { same = status_same; same_iff = status_same_iff }

abbrev action_same : GateAction → GateAction → Bool
action_same auto_write auto_write = true
action_same queue queue = true
action_same reject reject = true
action_same _ _ = false

pub action_same_iff : (a b : GateAction) → (action_same a b ≡ true) ↔ (a ≡ b)
action_same_iff a b = ground arith

instance abbrev pub action_key : Key GateAction
action_key = record { same = action_same; same_iff = action_same_iff }

-- The evidence is JSON data that is never read here.
pub record CandidateRelation : Type 0 where
  pub id : String
  pub source : String
  pub source_id : Option String
  pub target : String
  pub target_id : Option String
  pub relation_type : RelationType
  pub confidence : ℕ
  pub context_id : String
  pub store_id : String
  pub evidence : List Fields
  pub metadata : Fields

pub record GateResult : Type 0 where
  pub candidate_id : String
  pub action : GateAction
  pub reasons : List String
  pub metadata : Fields

-- The diagnostics are JSON data that is never read here.
pub record ReviewQueueRecord : Type 0 where
  pub id : String
  pub status : ReviewQueueStatus
  pub run_id : String
  pub run_metadata : Fields
  pub candidate : CandidateRelation
  pub review : Option ReviewDecision
  pub gate_result : GateResult
  pub diagnostics : List Fields
  pub propositions : List PropositionRecord
  pub context_metadata : Fields
  pub source_job_ids : List String
  pub attempt_count : ℕ
  pub next_retry_at : Option String
  pub created_at : String
  pub updated_at : String
  pub committed_relation_ids : List String
  pub resolution : Fields

abbrev review_matches : Option ReviewDecision → String → Bool
review_matches none id = true
review_matches (some r) id = r.candidate_id == id

-- The gate actions that the validator allows with a status.
abbrev pub action_allowed : ReviewQueueStatus → GateAction → Bool
action_allowed pending a = a == queue
action_allowed reviewing a = a == queue
action_allowed failed a = a == queue
action_allowed committed a = a == queue || a == auto_write
action_allowed resolved a = a == queue || a == reject

-- Whether `require_candidate_consistency` accepts the record.
unfoldable pub candidate_consistent : ReviewQueueRecord → Bool
candidate_consistent r =
    action_allowed r.status r.gate_result.action
    && (r.gate_result.candidate_id == r.candidate.id && review_matches r.review r.candidate.id)

pub record ReviewQueueFilter : Type 0 where
  pub status : Option ReviewQueueStatus
  pub ids : List String
  pub run_id : Option String
  pub candidate_id : Option String
  pub store_id : Option String
  pub context_id : Option String
  pub after_created_at : Option String
  pub after_id : Option String
