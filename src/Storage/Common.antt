-- ===== src/Storage/Common.antt =====
-- storage/common.py: filters, scopes, statistics, and the merges of relations, groups and
-- propositions.
pub mod Scopes
pub mod Aliases
pub mod Merges
pub mod Imports
use nesy_reasoning_mcp.Prelude.{
  ℕ, String, List, [], ◌∷◌, ◌++◌, map, text_key, pair_key, dedupe, length,
}
use nesy_reasoning_mcp.Schemas.{
  RelationRecord, CanonicalImplicationEdge, canonical_source, canonical_target,
}

pub record GraphStats : Type 0 where
  pub relations : ℕ
  pub propositions : ℕ
  pub implication_edges : ℕ
  pub exclusive_groups : ℕ
  pub contexts : ℕ
  pub stores : ℕ

-- The size of a set that is built from a list.
abbrev set_size : List String → ℕ
set_size xs = length (dedupe xs)

unfoldable pub graph_stats_for :
    List RelationRecord → List CanonicalImplicationEdge → ℕ → GraphStats
graph_stats_for relations edges exclusive_group_count = record {
  relations = length relations;
  propositions = set_size (
      map (λ (r : RelationRecord). canonical_source r.fields) relations
      ++ map (λ (r : RelationRecord). canonical_target r.fields) relations);
  implication_edges = length edges;
  exclusive_groups = exclusive_group_count;
  contexts = set_size (map (λ (r : RelationRecord). r.context_id) relations);
  stores = set_size (map (λ (r : RelationRecord). r.store_id) relations);
}
