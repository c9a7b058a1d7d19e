-- ===== src/Storage/Upsert/Shape.antt =====
-- What merging does to the keys and the length of the list.
use nesy_reasoning_mcp.Prelude.{
  ℕ, suc, ◌+◌, ◌≡◌, refl, sym, ◌∙◌, inl, inr, Option, some, none, List, [], ◌∷◌, ◌++◌, map, foldl,
  arith, Key, length, lookup, ap, length-append, length-set, Memᴰ, Distinct, Memᴰ-cons,
}
use mathlib.Core.List.{map-append, append_assoc, append-nil}
use mathlib.Core.List.Memᴰ
use nesy_reasoning_mcp.Storage.Upsert.{Merge, positions_from, merge_at, merge_step, merge_by}
use nesy_reasoning_mcp.Storage.Upsert.Positions.{
  last_index, get_elem?-last_index, map-set, Tracks, positions_from-Tracks, merge_step-Tracks,
}

module _ {K : Type 0} ⦃k : Key K⦄ where
  not-mem_of_last_index : (a : K) (bs : List K) → last_index a bs ≡ none → ¬ Memᴰ a bs
  not-mem_of_last_index a [] h m = elim m [ ]
  not-mem_of_last_index a (b ∷ bs) h m =
      ground
        (arith, not-mem_of_last_index a bs, Memᴰ-cons a b bs, k.same_iff b a, k.same_iff a b, m)

  Distinct-concat : (bs : List K) (a : K) → Distinct bs → ¬ Memᴰ a bs → Distinct (bs ++ a ∷ [])
  Distinct-concat [] a d n = (Memᴰ.not-nil, tt)
  Distinct-concat (b ∷ bs) a (new, d) n = (
    λ m. elim (Memᴰ.append_cases bs m) [
      | inl old ↦ new old
      | inr e ↦ n (Memᴰ.head (sym (Memᴰ.eq_of_singleton e)))
    ],
    Distinct-concat bs a d (λ m. n (Memᴰ.tail m)),
  )

module _ {A K : Type 0} ⦃k : Key K⦄ (key : A → K) where
  -- The keys of the second list are those of the first, in their places, and new ones after them.
  abbrev pub Extends : List K → List K → Type 0
  Extends old new = (added : List K) × (new ≡ old ++ added)

  record IsStep (m n : Merge A K) : Type 0 where
    extends : Extends (map key m.items) (map key n.items)
    counted : n.updated + length n.items ≡ suc (m.updated + length m.items)
    distinct : Distinct (map key m.items) → Distinct (map key n.items)

  merge_step-IsStep : (m : Merge A K) (x : A) → Tracks key m → IsStep m (merge_step key m x)
  unfolding merge_step
  merge_step-IsStep m x t = go (lookup (key x) m.positions) refl
    where
      go : (o : Option ℕ) → lookup (key x) m.positions ≡ o → IsStep m (merge_at key m x o)
      go (some i) e =
          let same =
            map-set key m.items i x
              (get_elem?-last_index (key x) (map key m.items) i (sym (t.at_key (key x)) ∙ e)) in
          record {
            extends = ([], same ∙ sym (append-nil (map key m.items)));
            counted = omega (arith, length-set m.items i x);
            distinct = λ d. rw same d;
          }
      go none e = record {
        extends = (key x ∷ [], map-append key m.items (x ∷ []));
        counted = omega (arith, length-append m.items (x ∷ []));
        distinct = λ d. rw (map-append key m.items (x ∷ [])) (
            Distinct-concat (map key m.items) (key x) d
              (not-mem_of_last_index (key x) (map key m.items) (sym (t.at_key (key x)) ∙ e)));
      }

  Extends-trans : (a b c : List K) → Extends a b → Extends b c → Extends a c
  Extends-trans a b c (x, p) (y, q) = (x ++ y, q ∙ ap (λ l. l ++ y) p ∙ append_assoc a x y)

  record IsMerged (m n : Merge A K) (xs : List A) : Type 0 where
    extends : Extends (map key m.items) (map key n.items)
    counted : n.updated + length n.items ≡ m.updated + length m.items + length xs
    distinct : Distinct (map key m.items) → Distinct (map key n.items)

  foldl-IsMerged :
      (xs : List A) (m : Merge A K) → Tracks key m → IsMerged m (foldl (merge_step key) m xs) xs
  foldl-IsMerged [] m t = record {
    extends = ([], sym (append-nil (map key m.items)));
    counted = omega arith;
    distinct = λ d. d;
  }
  foldl-IsMerged (x ∷ xs) m t =
      let first = merge_step-IsStep m x t in
      let rest = foldl-IsMerged xs (merge_step key m x) (merge_step-Tracks key m x t) in
      record {
        extends = Extends-trans _ _ _ first.extends rest.extends;
        counted = let p = first.counted in let q = rest.counted in omega arith;
        distinct = λ d. rest.distinct (first.distinct d);
      }

  -- Merging keeps the current records' keys in their places and puts new keys behind them; the
  -- reported number of updates and the length of the result add up to the current and the incoming
  -- records; and if no two current records share a key, no two merged records do.
  pub merge_by_shape :
      (current incoming : List A)
      → Extends (map key current) (map key (merge_by key current incoming).items)
        × ((merge_by key current incoming).updated + length (merge_by key current incoming).items
            ≡ length current + length incoming)
        × (Distinct (map key current) → Distinct (map key (merge_by key current incoming).items))
  unfolding merge_by
  merge_by_shape current incoming =
      let h =
        foldl-IsMerged incoming
          (record { items = current; positions = positions_from key 0 current []; updated = 0 })
          (positions_from-Tracks key current) in
      (h.extends, (let p = h.counted in omega arith), h.distinct)
