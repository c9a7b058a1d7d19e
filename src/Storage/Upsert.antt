-- ===== src/Storage/Upsert.antt =====
-- storage/common.py: the merge loop that `_upsert_relations`, `_merge_propositions` and
-- `_merge_groups` share: a list of records, and a dictionary from a record's key to its position.
pub mod Positions
pub mod LastWins
pub mod Shape
use nesy_reasoning_mcp.Prelude.{
  ℕ, suc, Option, some, none, List, [], ◌∷◌, ◌++◌, foldl, Key, length, set, Dict, lookup, insert,
}

pub record Merge (A K : Type 0) : Type 0 where
  pub items : List A
  pub positions : Dict K ℕ
  pub updated : ℕ

module _ {A K : Type 0} ⦃k : Key K⦄ (key : A → K) where
  -- {key(x): index for index, x in enumerate(xs)}, from the index `i` and the entries `d`
  unfoldable pub positions_from : ℕ → List A → Dict K ℕ → Dict K ℕ
  positions_from i [] d = d
  positions_from i (x ∷ xs) d = positions_from (suc i) xs (insert (key x) i d)

  pub merge_at : Merge A K → A → Option ℕ → Merge A K
  merge_at m x (some i) = record m { items = set m.items i x; updated = suc m.updated }
  merge_at m x none = record m {
    items = m.items ++ x ∷ [];
    positions = insert (key x) (length m.items) m.positions;
  }

  -- the body of the loop over the incoming records
  pub merge_step : Merge A K → A → Merge A K
  unfolding merge_at
  merge_step m x = merge_at m x (lookup (key x) m.positions)

  unfoldable pub merge_by : List A → List A → Merge A K
  unfolding merge_step positions_from
  merge_by current incoming =
      foldl merge_step
        (record { items = current; positions = positions_from 0 current []; updated = 0 }) incoming
