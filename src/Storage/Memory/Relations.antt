-- ===== src/Storage/Memory/Relations.antt =====
-- storage/memory.py: asserting and listing relations and exclusive groups, and the statistics.
use nesy_reasoning_mcp.Prelude.{
  ℕ, suc, String, Bool, true, Option, some, none, List, [], ◌∷◌, ◌++◌, if◌then◌else◌, filter,
  length, take, drop, text_key, pair_key,
}
use nesy_reasoning_mcp.Schemas.{
  RelationInput, RelationRecord, RelationFilter, ExclusiveGroupInput, ExclusiveGroupRecord,
  CanonicalImplicationEdge, from_input, group_from_input,
}
use nesy_reasoning_mcp.Normalization.{normalize_relation_edges}
use nesy_reasoning_mcp.Storage.Error.{Result, ok, ◌>>=◌}
use nesy_reasoning_mcp.Storage.Memory.{MemoryStore, Stamps}
use nesy_reasoning_mcp.Storage.Common.{GraphStats, graph_stats_for}
use nesy_reasoning_mcp.Storage.Common.Scopes.{matches_filter}
use nesy_reasoning_mcp.Storage.Common.Aliases.{normalize_input_identities}
use nesy_reasoning_mcp.Storage.Common.Merges.{apply_assert_relations_mode, group_key}
use nesy_reasoning_mcp.Storage.Replace.{replace_by}

pub record Asserted : Type 0 where
  pub records : List RelationRecord
  pub updated : ℕ
  pub store : MemoryStore

-- `[RelationRecord.from_input(item) for item in inputs]`, from the index `i` on
unfoldable pub records_from : Stamps → ℕ → List RelationInput → List RelationRecord
unfolding from_input
records_from stamps i [] = []
records_from stamps i (x ∷ xs) =
    from_input (stamps i).fresh (stamps i).now x ∷ records_from stamps (suc i) xs

unfoldable pub assert_relations :
    Stamps → MemoryStore → List RelationInput → String → Bool → Result Asserted
assert_relations stamps s inputs mode dry_run = do
  normalized ← normalize_input_identities inputs s.propositions
  let records = records_from stamps 0 normalized
  merged ← apply_assert_relations_mode s.relations records mode
  ok (record {
    records = records;
    updated = merged.1;
    store = if dry_run then s else record s { relations = merged.0 };
  })

pub record AssertedGroups : Type 0 where
  pub records : List ExclusiveGroupRecord
  pub updated : ℕ
  pub store : MemoryStore

unfoldable pub groups_from : Stamps → ℕ → List ExclusiveGroupInput → List ExclusiveGroupRecord
unfolding group_from_input
groups_from stamps i [] = []
groups_from stamps i (x ∷ xs) =
    group_from_input (stamps i).fresh (stamps i).now x ∷ groups_from stamps (suc i) xs

unfoldable pub assert_exclusive : Stamps → MemoryStore → List ExclusiveGroupInput → AssertedGroups
unfolding replace_by groups_from
assert_exclusive stamps s inputs =
    let records = groups_from stamps 0 inputs in
    let replaced = replace_by group_key s.exclusive_groups records in
    record {
      records = records;
      updated = replaced.updated;
      store = record s { exclusive_groups = replaced.items };
    }

-- An optional filter of records.
abbrev pub filter_allows : Option RelationFilter → RelationRecord → Bool
filter_allows none r = true
filter_allows (some f) r = matches_filter r f

abbrev pub limited {ℓ} : {A : Type ℓ} → Option ℕ → List A → List A
limited none xs = xs
limited (some n) xs = take n xs

unfoldable pub list_relations :
    MemoryStore → Option RelationFilter → Option ℕ → ℕ → List RelationRecord
unfolding matches_filter
list_relations s f limit offset = limited limit (drop offset (filter (filter_allows f) s.relations))

unfoldable pub implication_edges : List RelationRecord → List CanonicalImplicationEdge
unfolding normalize_relation_edges
implication_edges [] = []
implication_edges (r ∷ rs) = normalize_relation_edges r ++ implication_edges rs

unfoldable pub graph_stats : MemoryStore → GraphStats
unfolding graph_stats_for implication_edges
graph_stats s =
    graph_stats_for s.relations (implication_edges s.relations) (length s.exclusive_groups)
