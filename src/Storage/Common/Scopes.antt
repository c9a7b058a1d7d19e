-- ===== src/Storage/Common/Scopes.antt =====
-- storage/common.py: which records a relation filter or a clearing scope matches.
use nesy_reasoning_mcp.Prelude.{
  String, Bool, true, false, not, ◌&&◌, ◌||◌, Option, some, none, ◌==◌, text_key, allows,
  if◌then◌else◌,
}
use nesy_reasoning_mcp.Schemas.{
  RelationRecord, RelationFilter, ExclusiveGroupRecord, IndependenceRecord, Fields, in_domain,
  relation_type_key,
}

-- A domain filter, for metadata.
abbrev pub domain_allows : Option String → Fields → Bool
domain_allows none metadata = true
domain_allows (some wanted) metadata = in_domain metadata wanted

unfoldable pub matches_filter : RelationRecord → RelationFilter → Bool
unfolding in_domain
matches_filter r f =
    if not (allows f.source r.source)
    then false
    else if not (allows f.target r.target)
    then false
    else if not (allows f.relation_type r.relation_type)
    then false
    else if not (allows f.context_id r.context_id)
    then false
    else if not (allows f.store_id r.store_id)
    then false
    else domain_allows f.domain r.metadata

unfoldable pub group_matches_scope :
    ExclusiveGroupRecord → String → String → String → RelationFilter → Bool
unfolding in_domain
group_matches_scope g scope store_id context_id f =
    if scope == "store"
    then g.store_id == store_id
    else if scope == "context"
    then g.store_id == store_id && g.context_id == context_id
    else if scope == "filter"
    then if not (allows f.store_id g.store_id)
      then false
      else if not (allows f.context_id g.context_id)
      then false
      else domain_allows f.domain g.metadata
    else false

-- `wanted is None or wanted in {left, right}`
abbrev pair_allows : Option String → IndependenceRecord → Bool
pair_allows none r = true
pair_allows (some wanted) r = wanted == r.left || wanted == r.right

unfoldable pub independence_matches_scope :
    IndependenceRecord → String → String → String → RelationFilter → Bool
unfolding in_domain
independence_matches_scope r scope store_id context_id f =
    if scope == "store"
    then r.store_id == store_id
    else if scope == "context"
    then r.store_id == store_id && r.context_id == context_id
    else if scope == "filter"
    then if not (allows f.store_id r.store_id)
      then false
      else if not (allows f.context_id r.context_id)
      then false
      else if not (pair_allows f.source r)
      then false
      else if not (pair_allows f.target r)
      then false
      else domain_allows f.domain r.metadata
    else false
