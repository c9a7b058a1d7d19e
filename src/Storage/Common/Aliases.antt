-- ===== src/Storage/Common/Aliases.antt =====
-- storage/common.py: proposition aliases and the ids that they give to relations.
pub mod Exact
use nesy_reasoning_mcp.Prelude.{
  String, Bool, true, false, Option, some, none, List, [], ◌∷◌, map, ◌==◌, text_key, if◌then◌else◌,
  Dict, lookup, insert,
}
use nesy_reasoning_mcp.Text.{strip}
use nesy_reasoning_mcp.Schemas.{PropositionRecord, RelationFields, RelationInput, RelationRecord}
use nesy_reasoning_mcp.Storage.Error.{Error, alias_conflict, Result, ok, err, ◌>>=◌}

-- What an index says of a key: nothing, the same id, or another id.
abbrev pub agrees : Option String → String → Bool
agrees none id = true
agrees (some existing) id = existing == id

abbrev existing_of : Option String → String
existing_of none = ""
existing_of (some e) = e

-- one round of the loop over a proposition's terms
unfoldable pub add_term : String → Dict String String → String → Result (Dict String String)
add_term id index term =
    let key = strip term in
    if agrees (lookup key index) id
    then ok (insert key id index)
    else err (alias_conflict key (existing_of (lookup key index)) id)

unfoldable pub add_terms : String → Dict String String → List String → Result (Dict String String)
unfolding add_term
add_terms id index [] = ok index
add_terms id index (term ∷ terms) = do index' ← add_term id index term; add_terms id index' terms

abbrev pub terms_of : PropositionRecord → List String
terms_of p = p.id ∷ p.label ∷ p.aliases

unfoldable pub alias_index_onto :
    Dict String String → List PropositionRecord → Result (Dict String String)
unfolding add_terms
alias_index_onto index [] = ok index
alias_index_onto index (p ∷ ps) = do
  index' ← add_terms p.id index (terms_of p)
  alias_index_onto index' ps

unfoldable pub proposition_alias_index : List PropositionRecord → Result (Dict String String)
unfolding alias_index_onto
proposition_alias_index = alias_index_onto []

abbrev pub fill_id : Dict String String → Option String → String → Option String
fill_id index none label = lookup label index
fill_id index (some id) label = some id

-- `relation.model_copy(update=updates)`
unfoldable pub fill_ids : Dict String String → RelationFields → RelationFields
fill_ids index r = record r {
  source_id = fill_id index r.source_id r.source;
  target_id = fill_id index r.target_id r.target;
}

-- `_normalize_relation_identities`, for inputs and for records
unfoldable pub normalize_input_identities :
    List RelationInput → List PropositionRecord → Result (List RelationInput)
normalize_input_identities relations propositions = do
  index ← proposition_alias_index propositions
  ok (map (λ (r : RelationInput). record r { fields = fill_ids index r.fields }) relations)

unfoldable pub normalize_record_identities :
    List RelationRecord → List PropositionRecord → Result (List RelationRecord)
normalize_record_identities relations propositions = do
  index ← proposition_alias_index propositions
  ok (map (λ (r : RelationRecord). record r { fields = fill_ids index r.fields }) relations)
