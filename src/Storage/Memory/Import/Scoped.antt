-- ===== src/Storage/Memory/Import/Scoped.antt =====
-- storage/memory.py: an import that replaces a store leaves the other stores alone.
use nesy_reasoning_mcp.Prelude.{
  ◌≡◌, refl, sym, ap, ◌∙◌, String, false, not, List, [], ◌∷◌, ◌++◌, map, foldl, filter, ◌==◌,
  text_key, Dict, length, length-map,
}
use mathlib.Core.Path.{subst}
use mathlib.Core.List.{append_assoc, append-nil}
use nesy_reasoning_mcp.Schemas.{RelationRecord, IndependenceRecord, PropositionRecord}
use nesy_reasoning_mcp.Storage.Error.{ok, bind_ok, ok_inj}
use nesy_reasoning_mcp.Storage.Memory.{MemoryStore}
use nesy_reasoning_mcp.Storage.Memory.Import.{
  ImportRequest, Imported, import_records, import_merge, incoming_relations, finish_import,
}
use nesy_reasoning_mcp.Storage.Common.Aliases.{
  proposition_alias_index, fill_ids, normalize_record_identities,
}
use nesy_reasoning_mcp.Storage.Common.Merges.{merge_propositions}
use nesy_reasoning_mcp.Storage.Common.Imports.{
  relation_for_store, independence_for_store, Merged, merge_import, merge_import_relations,
  IndependenceMerge, add_independence, independence_step, independence_kept, independence_start,
  merge_independence_records,
}

foldl-appends :
    (mode : String) (xs : List IndependenceRecord) (m : IndependenceMerge)
    → (mode == "upsert") ≡ false
    → (foldl (independence_step mode) m xs).records ≡ m.records ++ xs
unfolding independence_step add_independence
foldl-appends mode [] m h = sym (append-nil m.records)
foldl-appends mode (x ∷ xs) m h =
    foldl-appends mode xs (independence_step mode m x) h ∙ rw h (append_assoc m.records (x ∷ []) xs)

-- What the store keeps of other stores' records.
abbrev pub others : List RelationRecord → String → List RelationRecord
others rs id = filter (λ (r : RelationRecord). not (r.store_id == id)) rs

abbrev pub other_claims : List IndependenceRecord → String → List IndependenceRecord
other_claims rs id = filter (λ (r : IndependenceRecord). not (r.store_id == id)) rs

merge_independence-replaces :
    (current incoming : List IndependenceRecord) (id : String)
    → merge_independence_records current incoming "replace_store" id
      ≡ other_claims current id ++ incoming
unfolding merge_independence_records independence_kept independence_start
merge_independence-replaces current incoming id =
    foldl-appends "replace_store" incoming
      (independence_start (other_claims current id) "replace_store") refl

-- The relation that an import stores: its proposition ids filled in, in the given store.
abbrev pub stored_as : Dict String String → String → RelationRecord → RelationRecord
stored_as index id r = relation_for_store id (record r { fields = fill_ids index r.fields })

abbrev pub Replaces : MemoryStore → ImportRequest → Imported → Type 0
Replaces s q out =
    (index : Dict String String) × (proposition_alias_index out.store.propositions ≡ ok index)
    × (out.store.relations
        ≡ others s.relations q.store_id ++ map (stored_as index q.store_id) q.relations)
    × (out.store.independence_records
        ≡ other_claims s.independence_records q.store_id
          ++ map (independence_for_store q.store_id) q.independence_records)
    × (out.relation_count ≡ length q.relations)

merge_import-replaces :
    (s : MemoryStore) (q : ImportRequest) (normalized : List RelationRecord) (m : Merged)
    → q.mode ≡ "replace_store"
    → import_merge s q normalized ≡ ok m
    → (m.relations
        ≡ others s.relations q.store_id ++ map (relation_for_store q.store_id) normalized)
      × (m.independence
          ≡ other_claims s.independence_records q.store_id
            ++ map (independence_for_store q.store_id) q.independence_records)
unfolding import_merge merge_import merge_import_relations incoming_relations
merge_import-replaces s q normalized m mode h =
    let same = ok_inj _ m (rw mode at h) in
    (
      sym (ap (λ (x : Merged). x.relations) same),
      sym (ap (λ (x : Merged). x.independence) same)
          ∙ merge_independence-replaces s.independence_records
              (map (independence_for_store q.store_id) q.independence_records) q.store_id,
    )

map-stored_as :
    (index : Dict String String) (id : String) (rs : List RelationRecord)
    → map
        (relation_for_store id)
        (map (λ (r : RelationRecord). record r { fields = fill_ids index r.fields }) rs)
      ≡ map (stored_as index id) rs
map-stored_as index id [] = refl
map-stored_as index id (r ∷ rs) = ap (λ l. stored_as index id r ∷ l) (map-stored_as index id rs)

finish_import-Replaces :
    (s : MemoryStore) (q : ImportRequest) (ps : List PropositionRecord)
    (normalized : List RelationRecord) (m : Merged) (index : Dict String String)
    → q.mode ≡ "replace_store"
    → q.dry_run ≡ false
    → import_merge s q normalized ≡ ok m
    → proposition_alias_index ps ≡ ok index
    → map (λ (r : RelationRecord). record r { fields = fill_ids index r.fields }) q.relations
      ≡ normalized
    → Replaces s q (finish_import s q ps normalized m)
unfolding finish_import incoming_relations
finish_import-Replaces s q ps normalized m index mode wet merged indexed filled =
    let (rels, claims) = merge_import-replaces s q normalized m mode merged in
    let moved =
      ap (map (relation_for_store q.store_id)) (sym filled)
      ∙ map-stored_as index q.store_id q.relations in
    let count =
      length-map (relation_for_store q.store_id) normalized
      ∙ ap length (sym filled)
      ∙ length-map _ q.relations in
    rw wet
      (index, indexed, rels ∙ ap (λ l. others s.relations q.store_id ++ l) moved, claims, count)

-- An import in the mode `replace_store` that returns and is no dry run leaves the relations and
-- independence records of the other stores, in their order, followed by the imported ones, which
-- are moved to the given store and have their missing proposition ids filled in from the
-- propositions then stored; and it reports as many relations as were given.
pub import_records-Replaces :
    (s : MemoryStore) (q : ImportRequest) (out : Imported)
    → q.mode ≡ "replace_store"
    → q.dry_run ≡ false
    → import_records s q ≡ ok out
    → Replaces s q out
unfolding import_records normalize_record_identities incoming_relations
import_records-Replaces s q out mode wet h =
    let (ps, e1, h1) = bind_ok (merge_propositions s.propositions q.propositions) _ out h in
    let (normalized, e2, h2) = bind_ok (normalize_record_identities q.relations ps.0) _ out h1 in
    let (m, e3, h3) = bind_ok (import_merge s q normalized) _ out h2 in
    let (index, e4, e5) = bind_ok (proposition_alias_index ps.0) _ normalized e2 in
    subst (Replaces s q) (ok_inj _ out h3)
      (finish_import-Replaces s q ps.0 normalized m index mode wet e3 e4 (ok_inj _ normalized e5))
