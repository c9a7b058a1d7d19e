-- ===== src/Schemas/Enums.antt =====
-- schemas.py: the enums.
use nesy_reasoning_mcp.Prelude.{◌≡◌, ◌↔◌, Bool, true, false, arith, Key}

pub data RelationType : Type 0 where
  sufficient necessary equivalent : RelationType

pub data Classification : Type 0 where
  sufficient necessary equivalent unknown contradictory : Classification

pub data ConfidencePolicy : Type 0 where
  product_independent min no_aggregation : ConfidencePolicy

pub data ExpectedRelation : Type 0 where
  sufficient necessary equivalent any : ExpectedRelation

pub data PathStrategy : Type 0 where
  best_confidence shortest all : PathStrategy

pub data ExclusiveScope : Type 0 where
  same_context global : ExclusiveScope

abbrev relation_type_same : RelationType → RelationType → Bool
relation_type_same RelationType.sufficient RelationType.sufficient = true
relation_type_same RelationType.necessary RelationType.necessary = true
relation_type_same RelationType.equivalent RelationType.equivalent = true
relation_type_same _ _ = false

pub relation_type_same_iff : (a b : RelationType) → (relation_type_same a b ≡ true) ↔ (a ≡ b)
relation_type_same_iff a b = ground arith

instance abbrev pub relation_type_key : Key RelationType
relation_type_key = record { same = relation_type_same; same_iff = relation_type_same_iff }
