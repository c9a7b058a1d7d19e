-- ===== src/Storage/Memory/Accounts.antt =====
-- storage/memory.py: what `assert_relations` does to the store, in every mode.
use nesy_reasoning_mcp.Prelude.{
  ℕ, suc, ◌+◌, ◌≡◌, refl, ap, ◌∙◌, String, Bool, true, false, List, [], ◌∷◌, arith, length,
  length-append, length-map, text_key, pair_key,
}
use mathlib.Core.Path.{subst}
use nesy_reasoning_mcp.Schemas.{RelationInput, RelationRecord}
use nesy_reasoning_mcp.Storage.Error.{ok, bind_ok, ok_inj}
use nesy_reasoning_mcp.Storage.Upsert.Shape.{merge_by_shape}
use nesy_reasoning_mcp.Storage.Replace.{replace_by_exact}
use nesy_reasoning_mcp.Storage.Memory.{MemoryStore, Stamps}
use nesy_reasoning_mcp.Storage.Memory.Relations.{Asserted, assert_relations, records_from}
use nesy_reasoning_mcp.Storage.Common.Aliases.{
  normalize_input_identities, proposition_alias_index, fill_ids,
}
use nesy_reasoning_mcp.Storage.Common.Merges.{
  apply_assert_relations_mode, relation_id, relation_assert_key, upsert_relations,
  replace_same_pair_relations,
}

length-records_from :
    (stamps : Stamps) (i : ℕ) (xs : List RelationInput)
    → length (records_from stamps i xs) ≡ length xs
unfolding records_from
length-records_from stamps i [] = refl
length-records_from stamps i (x ∷ xs) = ap suc (length-records_from stamps (suc i) xs)

normalize_input_identities-length :
    (inputs : List RelationInput) (ps : List _) (out : List RelationInput)
    → normalize_input_identities inputs ps ≡ ok out
    → length out ≡ length inputs
unfolding normalize_input_identities
normalize_input_identities-length inputs ps out h =
    let (index, _, e) = bind_ok (proposition_alias_index ps) _ out h in
    rw (ok_inj _ out e) at
      (length-map (λ (r : RelationInput). record r { fields = fill_ids index r.fields }) inputs)

upsert_relations-counted :
    (current incoming : List RelationRecord)
    → (upsert_relations current incoming).updated + length (upsert_relations current incoming).items
      ≡ length current + length incoming
unfolding upsert_relations
upsert_relations-counted current incoming = (merge_by_shape relation_id current incoming).1

replace_same_pair-counted :
    (current incoming : List RelationRecord)
    → (replace_same_pair_relations current incoming).updated
        + length (replace_same_pair_relations current incoming).items
      ≡ length current + length incoming
unfolding replace_same_pair_relations
replace_same_pair-counted current incoming =
    (replace_by_exact relation_assert_key current incoming).1

apply_mode-counted :
    (current incoming : List RelationRecord) (mode : String) (out : List RelationRecord × ℕ)
    → apply_assert_relations_mode current incoming mode ≡ ok out
    → out.1 + length out.0 ≡ length current + length incoming
unfolding apply_assert_relations_mode
apply_mode-counted current incoming mode out h = ground (
  arith,
  upsert_relations-counted current incoming,
  replace_same_pair-counted current incoming,
  length-append current incoming,
)

-- If `assert_relations` returns, in whatever mode, it returns one record for each input; a dry run
-- leaves the store as it is; and otherwise the number of updates and of the relations then stored
-- add up to the relations stored before and the inputs, and nothing but the relations changes.
pub assert_relations_accounts :
    (stamps : Stamps) (s : MemoryStore) (inputs : List RelationInput) (mode : String)
    (dry_run : Bool) (out : Asserted)
    → assert_relations stamps s inputs mode dry_run ≡ ok out
    → (length out.records ≡ length inputs)
      × (dry_run ≡ true → out.store ≡ s)
      × (dry_run ≡ false
          → (out.updated + length out.store.relations ≡ length s.relations + length inputs)
            × (out.store ≡ record s { relations = out.store.relations }))
unfolding assert_relations
assert_relations_accounts stamps s inputs mode dry_run out h =
    let (normalized, e1, h1) = bind_ok (normalize_input_identities inputs s.propositions) _ out h in
    let records = records_from stamps 0 normalized in
    let (merged, e2, h2) =
      bind_ok (apply_assert_relations_mode s.relations records mode) _ out h1 in
    let same = ok_inj _ out h2 in
    let count = length-records_from stamps 0 normalized in
    let inputs_count = normalize_input_identities-length inputs s.propositions normalized e1 in
    let total = apply_mode-counted s.relations records mode merged e2 in
    subst
      (λ (o : Asserted).
        (length o.records ≡ length inputs)
        × (dry_run ≡ true → o.store ≡ s)
        × (dry_run ≡ false
            → (o.updated + length o.store.relations ≡ length s.relations + length inputs)
              × (o.store ≡ record s { relations = o.store.relations })))
      same
      (
        count ∙ inputs_count,
        λ d. rw d refl,
        λ d. rw d (omega (arith, total, count, inputs_count), refl),
      )
