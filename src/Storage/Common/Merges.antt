-- ===== src/Storage/Common/Merges.antt =====
-- storage/common.py: the merges by which relations are asserted and imported.
use nesy_reasoning_mcp.Prelude.{
  ℕ, String, not, List, ◌++◌, ◌==◌, text_key, pair_key, if◌then◌else◌, filter,
}
use nesy_reasoning_mcp.Schemas.{
  RelationRecord, ExclusiveGroupRecord, PropositionRecord, canonical_source, canonical_target,
}
use nesy_reasoning_mcp.Storage.Error.{unsupported_mode, Result, ok, err, ◌>>=◌}
use nesy_reasoning_mcp.Storage.Upsert.{Merge, merge_by}
use nesy_reasoning_mcp.Storage.Replace.{Replaced, replace_by}
use nesy_reasoning_mcp.Storage.Common.Aliases.{proposition_alias_index}

abbrev pub relation_id : RelationRecord → String
relation_id r = r.id

unfoldable pub upsert_relations :
    List RelationRecord → List RelationRecord → Merge RelationRecord String
unfolding merge_by
upsert_relations = merge_by relation_id

-- The key's four texts, as two pairs.
unfoldable pub relation_assert_key : RelationRecord → (String × String) × (String × String)
relation_assert_key r =
    ((canonical_source r.fields, canonical_target r.fields), (r.context_id, r.store_id))

unfoldable pub replace_same_pair_relations :
    List RelationRecord → List RelationRecord → Replaced RelationRecord
unfolding replace_by
replace_same_pair_relations = replace_by relation_assert_key

-- The merged relations and the number of updates.
unfoldable pub apply_assert_relations_mode :
    List RelationRecord → List RelationRecord → String → Result (List RelationRecord × ℕ)
apply_assert_relations_mode current incoming mode =
    let upserted = upsert_relations current incoming in
    let replaced = replace_same_pair_relations current incoming in
    if mode == "append"
    then ok (current ++ incoming, 0)
    else if mode == "upsert"
    then ok (upserted.items, upserted.updated)
    else if mode == "replace_same_pair"
    then ok (replaced.items, replaced.updated)
    else err (unsupported_mode mode)

unfoldable pub merge_propositions :
    List PropositionRecord → List PropositionRecord → Result (List PropositionRecord × ℕ)
merge_propositions current incoming = do
  let merged = merge_by (λ (p : PropositionRecord). p.id) current incoming
  index ← proposition_alias_index merged.items
  ok (merged.items, merged.updated)

abbrev pub group_key : ExclusiveGroupRecord → String × (String × String)
group_key g = (g.group_id, (g.context_id, g.store_id))

-- The groups that an import starts from.
unfoldable pub groups_kept : List ExclusiveGroupRecord → String → String → List ExclusiveGroupRecord
groups_kept current mode store_id =
    if mode == "replace_store"
    then filter (λ (g : ExclusiveGroupRecord). not (g.store_id == store_id)) current
    else current

unfoldable pub merge_groups :
    List ExclusiveGroupRecord
    → List ExclusiveGroupRecord
    → String
    → String
    → Merge ExclusiveGroupRecord (String × (String × String))
unfolding groups_kept merge_by
merge_groups current incoming mode store_id =
    merge_by group_key (groups_kept current mode store_id) incoming
