-- ===== src/Examples/Storage.antt =====
-- The theorems on the store at a store of three relations.
use nesy_reasoning_mcp.Prelude.{
  ◌+◌, String, ◌≡◌, ◌↔◌, refl, true, false, some, none, List, [], ◌∷◌, ◌++◌, Memᴰ, map, length,
  Dict, lookup, Distinct, text_key, pair_key,
}
use nesy_reasoning_mcp.Schemas.{
  RelationType, RelationInput, RelationRecord, RelationFilter, PropositionRecord, end, from_input,
  canonical_source, canonical_target,
}
use nesy_reasoning_mcp.Storage.Error.{Error, ok, err, unsupported_scope}
use nesy_reasoning_mcp.Storage.Upsert.{merge_by}
use nesy_reasoning_mcp.Storage.Upsert.LastWins.{find_last, find_last-merge_by}
use nesy_reasoning_mcp.Storage.Upsert.Shape.{Extends, merge_by_shape}
use nesy_reasoning_mcp.Storage.Replace.{replace_by}
use nesy_reasoning_mcp.Storage.Common.Merges.{
  relation_id, relation_assert_key, upsert_relations, replace_same_pair_relations,
  apply_assert_relations_mode, merge_groups, groups_kept, merge_propositions,
}
use nesy_reasoning_mcp.Storage.Common.Aliases.{
  proposition_alias_index, alias_index_onto, add_terms, add_term, fill_ids,
  normalize_input_identities, normalize_record_identities,
}
use nesy_reasoning_mcp.Storage.Common.Imports.{
  merge_import, merge_import_relations, merge_independence_records, independence_step,
  independence_kept, independence_start, relation_for_store, group_for_store,
  independence_for_store, merge_context_metadata,
}
use nesy_reasoning_mcp.Storage.Common.Aliases.Exact.{
  names_of, Conflict, proposition_alias_index_exact,
}
use nesy_reasoning_mcp.Storage.Memory.{MemoryStore, Stamps}
use nesy_reasoning_mcp.Storage.Memory.Relations.{Asserted, assert_relations, records_from}
use nesy_reasoning_mcp.Storage.Memory.Accounts.{assert_relations_accounts}
use nesy_reasoning_mcp.Storage.Memory.Clear.{ClearRequest, Cleared, clear_relations}
use nesy_reasoning_mcp.Storage.Memory.Clear.Exact.{known_scope, Clears, clear_relations_exact}
use nesy_reasoning_mcp.Storage.Memory.Import.{
  ImportRequest, Imported, import_records, finish_import, import_merge, incoming_relations,
}
use nesy_reasoning_mcp.Storage.Memory.Import.Scoped.{Replaces, import_records-Replaces}
use nesy_reasoning_mcp.Text.{strip}
use nesy_reasoning_mcp.Examples.Reasoning.{relation}

abbrev current : List RelationRecord
current =
    relation "r1" "a" "b" RelationType.sufficient 3
    ∷ relation "r2" "b" "c" RelationType.sufficient 2
    ∷ []

abbrev newer : List RelationRecord
newer =
    relation "r2" "b" "d" RelationType.sufficient 4
    ∷ relation "r3" "a" "b" RelationType.necessary 1
    ∷ []

find_last-merge_by_example :
    find_last relation_id "r2" (merge_by relation_id current newer).items
    ≡ find_last relation_id "r2" (current ++ newer)
find_last-merge_by_example = find_last-merge_by relation_id current newer "r2"

merge_by_shape_example :
    Extends relation_id
      (map relation_id current)
      (map relation_id (merge_by relation_id current newer).items)
    × ((merge_by relation_id current newer).updated
          + length (merge_by relation_id current newer).items
        ≡ length current + length newer)
    × (Distinct (map relation_id current)
        → Distinct (map relation_id (merge_by relation_id current newer).items))
merge_by_shape_example = merge_by_shape relation_id current newer

abbrev proposition : String → String → PropositionRecord
proposition id label = record {
  id = id;
  label = label;
  aliases = [];
  negates = none;
  metadata = end;
}

abbrev store : MemoryStore
store = record {
  relations = current;
  exclusive_groups = [];
  independence_records = [];
  propositions = proposition "p1" "a" ∷ proposition "p2" "b" ∷ [];
  context_metadata = [];
}

proposition_alias_index_exact_example :
    ((index : Dict String String)
      → proposition_alias_index store.propositions ≡ ok index
      → (key id : String)
      → (lookup key index ≡ some id) ↔ Memᴰ (key, id) (names_of store.propositions))
    × ((e : Error)
        → proposition_alias_index store.propositions ≡ err e
        → Conflict (λ key id. Memᴰ (key, id) (names_of store.propositions)) e)
proposition_alias_index_exact_example = proposition_alias_index_exact store.propositions

abbrev anything : RelationFilter
anything = record {
  source = none;
  target = none;
  relation_type = none;
  context_id = none;
  store_id = none;
  domain = none;
}

abbrev clear_one : ClearRequest
clear_one = record {
  scope = "filter";
  store_id = "default";
  context_id = "default";
  relation_filter = record anything { source = some "a" };
  dry_run = false;
  include_exclusive_groups = true;
}

clear_relations_exact_example :
    (known_scope clear_one.scope ≡ false
      → clear_relations store clear_one ≡ err (unsupported_scope clear_one.scope))
    × (known_scope clear_one.scope ≡ true
        → (out : Cleared) × (clear_relations store clear_one ≡ ok out) × Clears store clear_one out)
clear_relations_exact_example = clear_relations_exact store clear_one

abbrev input : RelationInput
input = record { id = none; fields = (relation "" "b" "a" RelationType.sufficient 1).fields }

abbrev stamps : Stamps
stamps i = record { fresh = "new"; now = "2026-01-02" }

abbrev asserted : Asserted
asserted = elim (assert_relations stamps store (input ∷ []) "replace_same_pair" false) [
  | ok a ↦ a
  | err e ↦ record { records = []; updated = 0; store = store }
]

assert_run :
    (assert_relations stamps store (input ∷ []) "replace_same_pair" false ≡ ok asserted)
    × (length asserted.store.relations ≡ 3)
    × (map (λ (r : RelationRecord). r.source_id) asserted.records ≡ some "p2" ∷ [])
unfolding assert_relations normalize_input_identities proposition_alias_index alias_index_onto
    add_terms add_term strip fill_ids records_from from_input apply_assert_relations_mode
    upsert_relations replace_same_pair_relations replace_by relation_assert_key canonical_source
    canonical_target
assert_run = (refl, refl, refl)

assert_relations_accounts_example :
    (length asserted.records ≡ length (input ∷ []))
    × (false ≡ true → asserted.store ≡ store)
    × (false ≡ false
        → (asserted.updated + length asserted.store.relations
            ≡ length store.relations + length (input ∷ []))
          × (asserted.store ≡ record store { relations = asserted.store.relations }))
assert_relations_accounts_example =
    assert_relations_accounts stamps store (input ∷ []) "replace_same_pair" false asserted
      assert_run.0

abbrev import_request : ImportRequest
import_request = record {
  relations = newer;
  exclusive_groups = [];
  independence_records = [];
  propositions = proposition "p3" "d" ∷ [];
  mode = "replace_store";
  store_id = "other";
  context_metadata = [];
  dry_run = false;
}

abbrev imported : Imported
imported = elim (import_records store import_request) [
  | ok i ↦ i
  | err e ↦ record {
    relation_count = 0;
    group_count = 0;
    updated_relations = 0;
    updated_groups = 0;
    store = store;
  }
]

import_run :
    (import_records store import_request ≡ ok imported)
    × (length imported.store.relations ≡ 4)
    × (length imported.store.propositions ≡ 3)
unfolding import_records finish_import import_merge incoming_relations merge_propositions
    normalize_record_identities proposition_alias_index alias_index_onto add_terms add_term strip
    fill_ids merge_import merge_import_relations upsert_relations merge_groups groups_kept
    merge_independence_records independence_step independence_kept independence_start merge_by
    relation_for_store group_for_store independence_for_store merge_context_metadata
import_run = (refl, refl, refl)

import_records-Replaces_example : Replaces store import_request imported
import_records-Replaces_example =
    import_records-Replaces store import_request imported refl refl import_run.0
