-- ===== src/AutoIngest/Decisions.antt =====
-- auto_ingest/schemas.py: reviewers' decisions and the policies by which they are aggregated.
use nesy_reasoning_mcp.Prelude.{ℕ, ◌≡◌, ◌↔◌, String, Bool, true, false, Option, List, arith, Key}
use nesy_reasoning_mcp.Schemas.{RelationType, Fields}

pub data DecisionValue : Type 0 where
  approve downgrade reject needs_human : DecisionValue

pub data VotingPolicy : Type 0 where
  risk_tiered unanimous majority : VotingPolicy

abbrev decision_same : DecisionValue → DecisionValue → Bool
decision_same approve approve = true
decision_same downgrade downgrade = true
decision_same reject reject = true
decision_same needs_human needs_human = true
decision_same _ _ = false

pub decision_same_iff : (a b : DecisionValue) → (decision_same a b ≡ true) ↔ (a ≡ b)
decision_same_iff a b = ground arith

instance abbrev pub decision_key : Key DecisionValue
decision_key = record { same = decision_same; same_iff = decision_same_iff }

pub record ReviewDecision : Type 0 where
  pub candidate_id : String
  pub decision : DecisionValue
  pub final_relation_type : Option RelationType
  pub final_confidence : Option ℕ
  pub normalized_implication_supported : Option Bool
  pub reasons : List String
  pub risk_flags : List String
  pub reviewer_model : Option String
  pub metadata : Fields
