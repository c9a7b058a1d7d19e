-- ===== src/Storage/Memory/Import.antt =====
-- storage/memory.py: importing records into a store.
pub mod Scoped
use nesy_reasoning_mcp.Prelude.{
  ℕ, String, Bool, List, [], ◌∷◌, ◌++◌, map, if◌then◌else◌, length, Dict, insert, text_key,
}
use nesy_reasoning_mcp.Schemas.{
  RelationRecord, ExclusiveGroupRecord, IndependenceRecord, PropositionRecord, Fields,
}
use nesy_reasoning_mcp.Storage.Error.{Result, ok, ◌>>=◌}
use nesy_reasoning_mcp.Storage.Memory.{MemoryStore}
use nesy_reasoning_mcp.Storage.Common.Aliases.{normalize_record_identities}
use nesy_reasoning_mcp.Storage.Common.Merges.{merge_propositions}
use nesy_reasoning_mcp.Storage.Common.Imports.{
  relation_for_store, group_for_store, independence_for_store, Merged, merge_import,
  merge_context_metadata,
}

-- The arguments of `import_records`.
pub record ImportRequest : Type 0 where
  pub relations : List RelationRecord
  pub exclusive_groups : List ExclusiveGroupRecord
  pub independence_records : List IndependenceRecord
  pub propositions : List PropositionRecord
  pub mode : String
  pub store_id : String
  pub context_metadata : Dict String Fields
  pub dry_run : Bool

pub record Imported : Type 0 where
  pub relation_count : ℕ
  pub group_count : ℕ
  pub updated_relations : ℕ
  pub updated_groups : ℕ
  pub store : MemoryStore

unfoldable pub incoming_relations : ImportRequest → List RelationRecord → List RelationRecord
incoming_relations q normalized = map (relation_for_store q.store_id) normalized

unfoldable pub import_merge : MemoryStore → ImportRequest → List RelationRecord → Result Merged
unfolding incoming_relations
import_merge s q normalized =
    merge_import s.relations s.exclusive_groups s.independence_records
      (incoming_relations q normalized) (map (group_for_store q.store_id) q.exclusive_groups)
      (map (independence_for_store q.store_id) q.independence_records) q.mode q.store_id

-- The end of the call: the counts, and the new store unless it is a dry run.
unfoldable pub finish_import :
    MemoryStore → ImportRequest → List PropositionRecord → List RelationRecord → Merged → Imported
unfolding merge_context_metadata incoming_relations
finish_import s q propositions normalized merged = record {
  relation_count = length (incoming_relations q normalized);
  group_count = length (map (group_for_store q.store_id) q.exclusive_groups);
  updated_relations = merged.updated_relations;
  updated_groups = merged.updated_groups;
  store = if q.dry_run then s else record {
    relations = merged.relations;
    exclusive_groups = merged.groups;
    independence_records = merged.independence;
    propositions = propositions;
    context_metadata = merge_context_metadata s.context_metadata q.context_metadata;
  };
}

unfoldable pub import_records : MemoryStore → ImportRequest → Result Imported
unfolding import_merge finish_import
import_records s q = do
  propositions ← merge_propositions s.propositions q.propositions
  normalized ← normalize_record_identities q.relations propositions.0
  merged ← import_merge s q normalized
  ok (finish_import s q propositions.0 normalized merged)
