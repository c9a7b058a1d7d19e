-- ===== src/Schemas/Relation.antt =====
-- schemas.py: relation inputs and records, and the canonical implication edges.
-- A confidence is a double in [0, 1], which is a whole multiple of 2^-1074: it is held as that
-- multiple, so that comparisons are exact. `full_confidence` is 1.0.
use nesy_reasoning_mcp.Prelude.{
  ℕ, ◌^◌, String, Option, none, some, List, ◌==◌, text_key, if◌then◌else◌,
}
use nesy_reasoning_mcp.Schemas.Json.{Fields}
use nesy_reasoning_mcp.Schemas.Enums.{RelationType}

unfoldable pub full_confidence : ℕ
full_confidence = 2 ^ 1074

pub record TemporalWindow : Type 0 where
  pub delay : Option String
  pub valid_from : Option String
  pub valid_to : Option String

-- What `RelationInput` and `RelationRecord` share: all but the id.
pub record RelationFields : Type 0 where
  pub source : String
  pub source_id : Option String
  pub target : String
  pub target_id : Option String
  pub relation_type : RelationType
  pub confidence : ℕ
  pub context_id : String
  pub store_id : String
  pub temporal : Option TemporalWindow
  pub assumptions : List String
  pub provenance : Option Fields
  pub metadata : Fields

pub record RelationInput : Type 0 where
  pub id : Option String
  pub fields : RelationFields
  pub open fields use *

-- `polarity` has the single value `positive`, and is left out.
pub record RelationRecord : Type 0 where
  pub id : String
  pub fields : RelationFields
  pub open fields use *
  pub created_at : String
  pub updated_at : String

-- `a or b` for an optional text: an empty text counts as missing.
abbrev or_text : Option String → String → String
or_text none label = label
or_text (some i) label = if i == "" then label else i

unfoldable pub canonical_source : RelationFields → String
canonical_source r = or_text r.source_id r.source

unfoldable pub canonical_target : RelationFields → String
canonical_target r = or_text r.target_id r.target

abbrev pub id_or : String → Option String → String
id_or fresh none = fresh
id_or fresh (some i) = i

-- `fresh` is what `uuid4` gives, `now` the time of the call.
unfoldable pub from_input : String → String → RelationInput → RelationRecord
from_input fresh now input = record {
  id = id_or fresh input.id;
  fields = input.fields;
  created_at = now;
  updated_at = now;
}

pub record CanonicalImplicationEdge : Type 0 where
  pub edge_id : String
  pub relation_id : String
  pub antecedent : String
  pub consequent : String
  pub source_relation_type : RelationType
  pub confidence : ℕ
  pub context_id : String
  pub store_id : String
  pub assumptions : List String
  pub temporal : Option TemporalWindow
