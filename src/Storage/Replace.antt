-- ===== src/Storage/Replace.antt =====
-- storage/: the replacement that `_replace_same_pair_relations` and the queues share: what has the
-- key of an incoming record is dropped, and the incoming records are put at the end.
use mathlib.Core.List.{map-append}
use nesy_reasoning_mcp.Prelude.{
  Unique, filter-Unique, append-Distinct, Memᴰ-map, ℕ, ◌+◌, ◌≡◌, ◌↔◌, ◌⊎◌, inl, inr, Bool, not,
  List, ◌++◌, map, arith, Key, contains, filter, count_if, length, length-append, length-filter-not,
  Memᴰ, Memᴰ-filter, contains_iff, true,
}
use mathlib.Core.List.Memᴰ
use mathlib.Core.Bool.{false≢true}

pub record Replaced (A : Type 0) : Type 0 where
  pub items : List A
  pub updated : ℕ

module _ {A K : Type 0} ⦃k : Key K⦄ (key : A → K) where
  -- `key(x) in {key(y) for y in incoming}`
  abbrev pub replaced_by : List A → A → Bool
  replaced_by incoming x = contains (map key incoming) (key x)

  unfoldable pub replace_by : List A → List A → Replaced A
  replace_by current incoming = record {
    items = filter (λ x. not (replaced_by incoming x)) current ++ incoming;
    updated = count_if (replaced_by incoming) current;
  }

  replaced_by_iff :
      (incoming : List A) (x : A)
      → (replaced_by incoming x ≡ true) ↔ Memᴰ (key x) (map key incoming)
  replaced_by_iff incoming x = contains_iff (map key incoming) (key x)

  kept_iff :
      (incoming : List A) (x : A)
      → (not (replaced_by incoming x) ≡ true) ↔ (¬ Memᴰ (key x) (map key incoming))
  kept_iff incoming x = (
    λ h m. false≢true (ground (arith, (replaced_by_iff incoming x).1 m, h)),
    λ n. ground (arith, replaced_by_iff incoming x, n),
  )

  -- The result holds the incoming records and those current records that share no key with one of
  -- them, and no others; and the reported number of updates and the length of the result add up to
  -- the current and the incoming records.
  pub replace_by_exact :
      (current incoming : List A)
      → ((x : A)
          → Memᴰ x (replace_by current incoming).items
            ↔ (Memᴰ x current × (¬ Memᴰ (key x) (map key incoming)) ⊎ Memᴰ x incoming))
        × ((replace_by current incoming).updated + length (replace_by current incoming).items
            ≡ length current + length incoming)
  unfolding replace_by
  replace_by_exact current incoming = (
    λ x.
        let kept = filter (λ x. not (replaced_by incoming x)) current in
        let (f, g) = Memᴰ-filter (λ x. not (replaced_by incoming x)) x current in
        (
          λ m. elim (Memᴰ.append_cases kept m) [
            | inl old ↦ let (p, q) = f old in inl (p, (kept_iff incoming x).0 q)
            | inr new ↦ inr new
          ],
          λ m. elim m [
            | inl old ↦ Memᴰ.append_left incoming (g (old.0, (kept_iff incoming x).1 old.1))
            | inr new ↦ Memᴰ.append_right kept new
          ],
        ),
    omega (
      arith,
      length-append (filter (λ x. not (replaced_by incoming x)) current) incoming,
      length-filter-not (replaced_by incoming) current,
    ),
  )

  -- Replacing keeps the keys of the list distinct.
  pub replace_by-Unique :
      (current incoming : List A)
      → Unique key current
      → Unique key incoming
      → Unique key (replace_by current incoming).items
  unfolding replace_by
  replace_by-Unique current incoming u v =
      let kept = filter (λ x. not (replaced_by incoming x)) current in
      rw (map-append key kept incoming) (
        append-Distinct (map key kept) (map key incoming)
          (filter-Unique key (λ x. not (replaced_by incoming x)) current u) v
          (λ a m n.
            let (x, p, e) = Memᴰ-map key kept a m in
            let q = ((Memᴰ-filter (λ x. not (replaced_by incoming x)) x current).0 p).1 in
            (kept_iff incoming x).0 q (rw e at n)))
