-- ===== src/Storage/Memory/Clear.antt =====
-- storage/memory.py: clearing a scope of the store.
pub mod Exact
use nesy_reasoning_mcp.Prelude.{
  ℕ, String, Bool, not, ◌&&◌, ◌||◌, List, [], filter, count_if, length, if◌then◌else◌, ◌==◌,
  text_key, Dict, erase,
}
use nesy_reasoning_mcp.Schemas.{
  RelationRecord, RelationFilter, ExclusiveGroupRecord, IndependenceRecord, Fields,
}
use nesy_reasoning_mcp.Storage.Error.{Error, unsupported_scope, Result, ok, err}
use nesy_reasoning_mcp.Storage.Memory.{MemoryStore}
use nesy_reasoning_mcp.Storage.Common.Scopes.{
  matches_filter, group_matches_scope, independence_matches_scope,
}

-- The arguments of `clear_relations`.
pub record ClearRequest : Type 0 where
  pub scope : String
  pub store_id : String
  pub context_id : String
  pub relation_filter : RelationFilter
  pub dry_run : Bool
  pub include_exclusive_groups : Bool

pub record Cleared : Type 0 where
  pub removed : ℕ
  pub removed_groups : ℕ
  pub store : MemoryStore

-- the inner function `predicate`
unfoldable pub clear_predicate : ClearRequest → RelationRecord → Bool
unfolding matches_filter
clear_predicate q r =
    if q.scope == "store"
    then r.store_id == q.store_id
    else if q.scope == "context"
    then r.store_id == q.store_id && r.context_id == q.context_id
    else matches_filter r q.relation_filter

-- the inner function `group_matches_clear`
abbrev pub group_matches_clear : ClearRequest → ExclusiveGroupRecord → Bool
group_matches_clear q g = group_matches_scope g q.scope q.store_id q.context_id q.relation_filter

abbrev pub independence_matches_clear : ClearRequest → IndependenceRecord → Bool
independence_matches_clear q r =
    independence_matches_scope r q.scope q.store_id q.context_id q.relation_filter

unfoldable pub clear_all : MemoryStore → ClearRequest → Cleared
clear_all s q = record {
  removed = length s.relations;
  removed_groups = if q.include_exclusive_groups then length s.exclusive_groups else 0;
  store = if q.dry_run then s else record {
    relations = [];
    exclusive_groups = if q.include_exclusive_groups then [] else s.exclusive_groups;
    independence_records = [];
    propositions = [];
    context_metadata = [];
  };
}

unfoldable pub clear_scope : MemoryStore → ClearRequest → Cleared
unfolding clear_predicate
clear_scope s q = record {
  removed = count_if (clear_predicate q) s.relations;
  removed_groups =
      if q.include_exclusive_groups then count_if (group_matches_clear q) s.exclusive_groups else 0;
  store = if q.dry_run then s else record s {
    relations = filter (λ r. not (clear_predicate q r)) s.relations;
    exclusive_groups =
        if q.include_exclusive_groups
        then filter (λ g. not (group_matches_clear q g)) s.exclusive_groups
        else s.exclusive_groups;
    independence_records =
        filter (λ r. not (independence_matches_clear q r)) s.independence_records;
    context_metadata =
        if q.scope == "context" then erase q.context_id s.context_metadata else s.context_metadata;
  };
}

unfoldable pub clear_relations : MemoryStore → ClearRequest → Result Cleared
unfolding clear_all clear_scope
clear_relations s q =
    if q.scope == "all"
    then ok (clear_all s q)
    else if not (q.scope == "store" || q.scope == "context" || q.scope == "filter")
    then err (unsupported_scope q.scope)
    else ok (clear_scope s q)
