-- ===== src/Schemas/Records.antt =====
-- schemas.py: propositions, exclusive groups, independence claims and the filters.
use nesy_reasoning_mcp.Prelude.{ℕ, String, Option, List}
use nesy_reasoning_mcp.TimeUtils.{Datetime}
use nesy_reasoning_mcp.Schemas.Json.{Fields}
use nesy_reasoning_mcp.Schemas.Relation.{id_or}
use nesy_reasoning_mcp.Schemas.Enums.{RelationType, ExclusiveScope}

pub record PropositionRecord : Type 0 where
  pub id : String
  pub label : String
  pub aliases : List String
  pub negates : Option String
  pub metadata : Fields

pub record ExclusiveGroupRecord : Type 0 where
  pub group_id : String
  pub members : List String
  pub context_id : String
  pub store_id : String
  pub scope : ExclusiveScope
  pub metadata : Fields
  pub created_at : String
  pub updated_at : String

pub record ExclusiveGroupInput : Type 0 where
  pub group_id : Option String
  pub members : List String
  pub context_id : String
  pub store_id : String
  pub scope : ExclusiveScope
  pub metadata : Fields

-- `fresh` is what `uuid4` gives, `now` the time of the call.
unfoldable pub group_from_input : String → String → ExclusiveGroupInput → ExclusiveGroupRecord
group_from_input fresh now input = record {
  group_id = id_or fresh input.group_id;
  members = input.members;
  context_id = input.context_id;
  store_id = input.store_id;
  scope = input.scope;
  metadata = input.metadata;
  created_at = now;
  updated_at = now;
}

-- `relation` has the single value `independent_of`, and is left out.
pub record IndependenceRecord : Type 0 where
  pub id : String
  pub left : String
  pub right : String
  pub confidence : ℕ
  pub context_id : String
  pub store_id : String
  pub metadata : Fields
  pub created_at : String
  pub updated_at : String

pub record RelationFilter : Type 0 where
  pub source : Option String
  pub target : Option String
  pub relation_type : Option RelationType
  pub context_id : Option String
  pub store_id : Option String
  pub domain : Option String

pub record ContextFilter : Type 0 where
  pub context_id : Option String
  pub store_id : Option String
  pub domain : Option String
  pub assumptions : List String
  pub valid_at : Option Datetime
