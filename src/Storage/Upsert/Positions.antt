-- ===== src/Storage/Upsert/Positions.antt =====
-- The dictionary of positions maps each key to its last position.
use nesy_reasoning_mcp.Prelude.{
  ℕ, zero, suc, ◌+◌, ◌≡◌, refl, Option, some, none, List, [], ◌∷◌, ◌++◌, map, arith, Key, ◌==◌,
  length, set, get_elem?, Dict, lookup, insert, lookup-insert, if◌then◌else◌, ap, sym, length-map,
  ◌∙◌,
}
use mathlib.Core.List.{map-append}
use nesy_reasoning_mcp.Storage.Upsert.{Merge, positions_from, merge_at, merge_step}

module _ {ℓ} {K : Type ℓ} ⦃k : Key K⦄ where
  abbrev pub last_index : K → List K → Option ℕ
  last_index a [] = none
  last_index a (b ∷ bs) = elim (last_index a bs) [
    | some i ↦ some (suc i)
    | none ↦ if b == a then some 0 else none
  ]

  pub last_index-concat :
      (a b : K) (bs : List K)
      → last_index a (bs ++ b ∷ []) ≡ (if b == a then some (length bs) else last_index a bs)
  last_index-concat a b [] = refl
  last_index-concat a b (c ∷ bs) = ground (arith, last_index-concat a b bs)

  pub get_elem?-last_index :
      (a : K) (bs : List K) (i : ℕ) → last_index a bs ≡ some i → get_elem? bs i ≡ some a
  get_elem?-last_index a [] i h = cc
  get_elem?-last_index a (b ∷ bs) zero h = ground (arith, k.same_iff b a)
  get_elem?-last_index a (b ∷ bs) (suc i) h = ground (arith, get_elem?-last_index a bs i)

module _ {A K : Type 0} ⦃k : Key K⦄ (key : A → K) where
  lookup-positions_from :
      (a : K) (i : ℕ) (xs : List A) (d : Dict K ℕ)
      → lookup a (positions_from key i xs d)
        ≡ elim (last_index a (map key xs)) [ some j ↦ some (i + j) | none ↦ lookup a d ]
  unfolding positions_from
  lookup-positions_from a i [] d = refl
  lookup-positions_from a i (x ∷ xs) d =
      ground (
        arith,
        lookup-positions_from a (suc i) xs (insert (key x) i d),
        lookup-insert (key x) a i d,
      )

  pub map-set :
      (xs : List A) (i : ℕ) (x : A)
      → get_elem? (map key xs) i ≡ some (key x)
      → map key (set xs i x) ≡ map key xs
  map-set [] i x h = refl
  map-set (y ∷ ys) zero x h = ground arith
  map-set (y ∷ ys) (suc i) x h = ap (λ r. key y ∷ r) (map-set ys i x h)

  -- The dictionary tells the last position of each key.
  pub record Tracks (m : Merge A K) : Type 0 where
    pub at_key : (a : K) → lookup a m.positions ≡ last_index a (map key m.items)

  pub positions_from-Tracks :
      (xs : List A)
      → Tracks (record { items = xs; positions = positions_from key 0 xs []; updated = 0 })
  positions_from-Tracks xs = record { at_key = λ a. lookup-positions_from a 0 xs [] ∙ ground arith }

  pub merge_step-Tracks : (m : Merge A K) (x : A) → Tracks m → Tracks (merge_step key m x)
  unfolding merge_step
  merge_step-Tracks m x t = record { at_key = λ a. go a (lookup (key x) m.positions) refl }
    where
      go :
          (a : K) (o : Option ℕ)
          → lookup (key x) m.positions ≡ o
          → lookup a (merge_at key m x o).positions
            ≡ last_index a (map key (merge_at key m x o).items)
      go a (some i) e =
          rw
            (map-set m.items i x
              (get_elem?-last_index (key x) (map key m.items) i (sym (t.at_key (key x)) ∙ e)))
            (t.at_key a)
      go a none e = ground (
        arith,
        lookup-insert (key x) a (length m.items) m.positions,
        last_index-concat a (key x) (map key m.items),
        length-map key m.items,
        t.at_key a,
        map-append key m.items (x ∷ []),
      )
