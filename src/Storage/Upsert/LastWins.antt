-- ===== src/Storage/Upsert/LastWins.antt =====
-- Merging is appending, seen through a lookup that takes the last record of a key.
use nesy_reasoning_mcp.Prelude.{
  ℕ, zero, suc, ◌≡◌, refl, sym, ◌∙◌, Option, some, none, List, [], ◌∷◌, ◌++◌, map, foldl, arith,
  Key, ◌==◌, set, lookup, if◌then◌else◌,
}
use nesy_reasoning_mcp.Storage.Upsert.{Merge, merge_at, merge_step, merge_by}
use nesy_reasoning_mcp.Storage.Upsert.Positions.{
  last_index, Tracks, positions_from-Tracks, merge_step-Tracks,
}

module _ {A K : Type 0} ⦃k : Key K⦄ (key : A → K) where
  -- The last record with a key.
  abbrev pub find_last : K → List A → Option A
  find_last a [] = none
  find_last a (x ∷ xs) = elim (find_last a xs) [
    | some y ↦ some y
    | none ↦ if key x == a then some x else none
  ]

  abbrev or_else : Option A → Option A → Option A
  or_else none o = o
  or_else (some x) o = some x

  find_last-append :
      (a : K) (xs ys : List A) → find_last a (xs ++ ys) ≡ or_else (find_last a ys) (find_last a xs)
  find_last-append a [] ys = ground arith
  find_last-append a (x ∷ xs) ys = ground (arith, find_last-append a xs ys)

  find_last-last_index :
      (a : K) (xs : List A) → last_index a (map key xs) ≡ none → find_last a xs ≡ none
  find_last-last_index a [] h = refl
  find_last-last_index a (x ∷ xs) h = ground (arith, find_last-last_index a xs)

  find_last-set :
      (a : K) (xs : List A) (i : ℕ) (x : A)
      → last_index (key x) (map key xs) ≡ some i
      → find_last a (set xs i x) ≡ (if key x == a then some x else find_last a xs)
  find_last-set a [] i x h = cc
  find_last-set a (y ∷ ys) zero x h = ground (
    arith,
    find_last-last_index (key x) ys,
    k.same_iff (key y) (key x),
    k.same_iff (key x) a,
    k.same_iff (key y) a,
  )
  find_last-set a (y ∷ ys) (suc i) x h =
      ground (arith, find_last-set a ys i x, k.same_iff (key x) a)

  merge_step-find_last :
      (a : K) (m : Merge A K) (x : A)
      → Tracks key m
      → find_last a (merge_step key m x).items
        ≡ (if key x == a then some x else find_last a m.items)
  unfolding merge_step
  merge_step-find_last a m x t = go (lookup (key x) m.positions) refl
    where
      go :
          (o : Option ℕ)
          → lookup (key x) m.positions ≡ o
          → find_last a (merge_at key m x o).items
            ≡ (if key x == a then some x else find_last a m.items)
      go (some i) e = find_last-set a m.items i x (sym (t.at_key (key x)) ∙ e)
      go none e = find_last-append a m.items (x ∷ []) ∙ ground arith

  foldl-find_last :
      (a : K) (m : Merge A K) (xs : List A)
      → Tracks key m
      → find_last a (foldl (merge_step key) m xs).items
        ≡ or_else (find_last a xs) (find_last a m.items)
  foldl-find_last a m [] t = refl
  foldl-find_last a m (x ∷ xs) t =
      foldl-find_last a (merge_step key m x) xs (merge_step-Tracks key m x t)
      ∙ ground (arith, merge_step-find_last a m x t)

  -- Under every key the merged list has the record that the current and the incoming records have
  -- last, as if the incoming ones were appended.
  pub find_last-merge_by :
      (current incoming : List A) (a : K)
      → find_last a (merge_by key current incoming).items ≡ find_last a (current ++ incoming)
  unfolding merge_by
  find_last-merge_by current incoming a =
      foldl-find_last a _ incoming (positions_from-Tracks key current)
      ∙ sym (find_last-append a current incoming)
