-- ===== src/Storage/Common/Imports.antt =====
-- storage/common.py: the merge of an import, its independence records and its metadata.
use nesy_reasoning_mcp.Prelude.{
  ℕ, String, not, Option, some, none, List, [], ◌∷◌, ◌++◌, foldl, ◌==◌, text_key, pair_key,
  if◌then◌else◌, filter, length, set, get_elem?, text_le, Dict, lookup, insert, erase,
}
use nesy_reasoning_mcp.Schemas.{RelationRecord, ExclusiveGroupRecord, IndependenceRecord, Fields}
use nesy_reasoning_mcp.Storage.Error.{unsupported_mode, Result, ok, err, ◌>>=◌}
use nesy_reasoning_mcp.Storage.Upsert.{positions_from}
use nesy_reasoning_mcp.Storage.Common.Merges.{upsert_relations, merge_groups}

unfoldable pub relation_for_store : String → RelationRecord → RelationRecord
relation_for_store id r = record r { fields = record r.fields { store_id = id } }

unfoldable pub group_for_store : String → ExclusiveGroupRecord → ExclusiveGroupRecord
group_for_store id g = record g { store_id = id }

unfoldable pub independence_for_store : String → IndependenceRecord → IndependenceRecord
independence_for_store id r = record r { store_id = id }

-- The sorted pair, the context and the store.
unfoldable pub independence_key : IndependenceRecord → (String × String) × (String × String)
independence_key r = (
  if text_le r.left r.right then (r.left, r.right) else (r.right, r.left),
  (r.context_id, r.store_id),
)

abbrev PairKey : Type 0
PairKey = (String × String) × (String × String)

pub record IndependenceMerge : Type 0 where
  pub records : List IndependenceRecord
  pub positions : Dict String ℕ
  pub pair_positions : Dict PairKey ℕ

-- `pair_positions.pop(_independence_key(records[index]), None)`: the index is always in range
unfoldable pub forget_pair : Option IndependenceRecord → Dict PairKey ℕ → Dict PairKey ℕ
unfolding independence_key
forget_pair none d = d
forget_pair (some old) d = erase (independence_key old) d

-- `positions.pop(records[index].id, None)`
unfoldable pub forget_id : Option IndependenceRecord → Dict String ℕ → Dict String ℕ
forget_id none d = d
forget_id (some old) d = erase old.id d

unfoldable pub add_independence : IndependenceMerge → IndependenceRecord → IndependenceMerge
unfolding independence_key
add_independence m r = record {
  records = m.records ++ r ∷ [];
  positions = insert r.id (length m.records) m.positions;
  pair_positions = insert (independence_key r) (length m.records) m.pair_positions;
}

unfoldable pub put_by_pair : IndependenceMerge → IndependenceRecord → Option ℕ → IndependenceMerge
unfolding add_independence forget_id
put_by_pair m r none = add_independence m r
put_by_pair m r (some i) = record m {
  records = set m.records i r;
  positions = insert r.id i (forget_id (get_elem? m.records i) m.positions);
}

unfoldable pub put_by_id : IndependenceMerge → IndependenceRecord → Option ℕ → IndependenceMerge
unfolding independence_key put_by_pair forget_pair
put_by_id m r none = put_by_pair m r (lookup (independence_key r) m.pair_positions)
put_by_id m r (some i) = record m {
  records = set m.records i r;
  pair_positions =
      insert (independence_key r) i (forget_pair (get_elem? m.records i) m.pair_positions);
}

-- the body of the loop over the incoming records
unfoldable pub independence_step :
    String → IndependenceMerge → IndependenceRecord → IndependenceMerge
unfolding put_by_id add_independence
independence_step mode m r =
    if mode == "upsert" then put_by_id m r (lookup r.id m.positions) else add_independence m r

unfoldable pub independence_kept :
    List IndependenceRecord → String → String → List IndependenceRecord
independence_kept current mode store_id =
    if mode == "replace_store"
    then filter (λ (r : IndependenceRecord). not (r.store_id == store_id)) current
    else current

unfoldable pub independence_start : List IndependenceRecord → String → IndependenceMerge
unfolding positions_from independence_key
independence_start records mode = record {
  records = records;
  positions = positions_from (λ (r : IndependenceRecord). r.id) 0 records [];
  pair_positions = if mode == "append" then [] else positions_from independence_key 0 records [];
}

unfoldable pub merge_independence_records :
    List IndependenceRecord → List IndependenceRecord → String → String → List IndependenceRecord
unfolding independence_step independence_kept independence_start
merge_independence_records current incoming mode store_id =
    (foldl (independence_step mode)
      (independence_start (independence_kept current mode store_id) mode) incoming).records

pub record Merged : Type 0 where
  pub relations : List RelationRecord
  pub groups : List ExclusiveGroupRecord
  pub independence : List IndependenceRecord
  pub updated_relations : ℕ
  pub updated_groups : ℕ

-- The relations that an import leaves, and the number of updates.
unfoldable pub merge_import_relations :
    List RelationRecord → List RelationRecord → String → String → Result (List RelationRecord × ℕ)
merge_import_relations current incoming mode store_id =
    let upserted = upsert_relations current incoming in
    if mode == "append"
    then ok (current ++ incoming, 0)
    else if mode == "upsert"
    then ok (upserted.items, upserted.updated)
    else if mode == "replace_store"
    then ok (filter (λ (r : RelationRecord). not (r.store_id == store_id)) current ++ incoming, 0)
    else err (unsupported_mode mode)

unfoldable pub merge_import :
    List RelationRecord
    → List ExclusiveGroupRecord
    → List IndependenceRecord
    → List RelationRecord
    → List ExclusiveGroupRecord
    → List IndependenceRecord
    → String
    → String
    → Result Merged
merge_import relations groups independence in_relations in_groups in_independence mode store_id = do
  merged ← merge_import_relations relations in_relations mode store_id
  let merged_groups = merge_groups groups in_groups mode store_id
  ok (record {
    relations = merged.0;
    groups = merged_groups.items;
    independence = merge_independence_records independence in_independence mode store_id;
    updated_relations = merged.1;
    updated_groups = merged_groups.updated;
  })

unfoldable pub merge_context_metadata : Dict String Fields → Dict String Fields → Dict String Fields
merge_context_metadata merged [] = merged
merge_context_metadata merged ((context_id, metadata) ∷ rest) =
    merge_context_metadata (insert context_id metadata merged) rest
