-- ===== src/Reasoning/Exclusive/Groups.antt =====
-- The hard contradictions over all exclusive groups that a filter lets through.
use nesy_reasoning_mcp.Prelude.{
  ℕ, ◌≤◌, ◌≡◌, refl, Bool, true, false, Option, some, List, [], ◌∷◌, ◌++◌, All, All-append, All-map,
  All-of_Memᴰ, Memᴰ, filter, Memᴰ-filter, ◌>>=◌, bind_some, some_inj, not, if◌then◌else◌, text_key,
}
use nesy_reasoning_mcp.Schemas.{RelationRecord, ExclusiveGroupRecord, ContextFilter}
use nesy_reasoning_mcp.Normalization.Meaning.{Valuation, Holds}
use nesy_reasoning_mcp.Reasoning.Networkx.{Host}
use nesy_reasoning_mcp.Reasoning.Scope.{
  is_same_context, context_compatible, relations_compatible_with_filter, exclusive_group_compatible,
  relations_for_group,
}
use nesy_reasoning_mcp.Reasoning.Paths.Valid.{HoldsUnder}
use nesy_reasoning_mcp.Reasoning.Exclusive.{
  GroupContradiction, hard_group_contradictions, find_group_contradictions,
}
use nesy_reasoning_mcp.Reasoning.Exclusive.Sound.{
  AtMostOne, Refutes, hard_group_contradictions_sound,
}

module _ (v : Valuation) (host : Host) where
  pub compatible-Holds :
      (relations : List RelationRecord) (f : ContextFilter)
      → HoldsUnder v host relations (some f)
      → (r : RelationRecord) → Memᴰ r (relations_compatible_with_filter host.iso relations f)
      → Holds v r
  unfolding relations_compatible_with_filter
  compatible-Holds relations f h r m =
      let (p, q) = (Memᴰ-filter (λ x. context_compatible host.iso x (some f)) r relations).0 m in
      h r p q

  filter-Holds :
      (p : RelationRecord → Bool) (rs : List RelationRecord)
      → ((r : RelationRecord) → Memᴰ r rs → Holds v r)
      → All (Holds v) (filter p rs)
  filter-Holds p rs h =
      All-of_Memᴰ (Holds v) (filter p rs) (λ r m. h r ((Memᴰ-filter p r rs).0 m).0)

  All-if :
      (b : Bool) (xs ys : List RelationRecord)
      → All (Holds v) xs
      → All (Holds v) ys
      → All (Holds v) (if b then xs else ys)
  All-if true xs ys hx hy = hx
  All-if false xs ys hx hy = hy

  pub relations_for_group-Holds :
      (relations : List RelationRecord) (group : ExclusiveGroupRecord) (f : ContextFilter)
      → HoldsUnder v host relations (some f)
      → All (Holds v) (relations_for_group host.iso relations group f)
  unfolding relations_for_group
  relations_for_group-Holds relations group f h =
      All-if (is_same_context group.scope) _ _
        (filter-Holds _ (relations_compatible_with_filter host.iso relations f)
          (compatible-Holds relations f h))
        (filter-Holds _ (relations_compatible_with_filter host.iso relations f)
          (compatible-Holds relations f h))

  -- The contradiction refutes its source by one of the groups that the filter lets through.
  abbrev pub RefutesBySome : List ExclusiveGroupRecord → ContextFilter → GroupContradiction → Type 0
  RefutesBySome groups f c =
      (group : ExclusiveGroupRecord) × Memᴰ group groups
      × (exclusive_group_compatible group f ≡ true)
      × Refutes v group c

  module _ (group : ExclusiveGroupRecord) (groups : List ExclusiveGroupRecord) (f : ContextFilter)
      (cs : List GroupContradiction) where
    later-RefutesBySome :
        All (RefutesBySome groups f) cs → All (RefutesBySome (group ∷ groups) f) cs
    later-RefutesBySome =
        All-map (RefutesBySome groups f) (RefutesBySome (group ∷ groups) f) cs
          (λ c (g, m, ok, r). (g, Memᴰ.tail m, ok, r))

    first-RefutesBySome :
        exclusive_group_compatible group f ≡ true
        → All (Refutes v group) cs
        → All (RefutesBySome (group ∷ groups) f) cs
    first-RefutesBySome ok =
        All-map (Refutes v group) (RefutesBySome (group ∷ groups) f) cs
          (λ c r. (group, Memᴰ.head refl, ok, r))

  -- one round of the loop over the groups
  group-RefutesBySome :
      (group : ExclusiveGroupRecord) (groups : List ExclusiveGroupRecord) (f : ContextFilter)
      (cs : List GroupContradiction) (b : Bool) (found later : Option (List GroupContradiction))
      → exclusive_group_compatible group f ≡ b
      → (b ≡ true → (xs : List GroupContradiction) → found ≡ some xs → All (Refutes v group) xs)
      → ((xs : List GroupContradiction) → later ≡ some xs → All (RefutesBySome groups f) xs)
      → (if not b then later else do xs ← found; ys ← later; some (xs ++ ys)) ≡ some cs
      → All (RefutesBySome (group ∷ groups) f) cs
  group-RefutesBySome group groups f cs false found later c hx hy e =
      later-RefutesBySome group groups f cs (hy cs e)
  group-RefutesBySome group groups f cs true found later c hx hy e =
      let (xs, p, e') = bind_some found (λ xs. do ys ← later; some (xs ++ ys)) cs e in
      let (ys, q, e'') = bind_some later (λ ys. some (xs ++ ys)) cs e' in
      rw (some_inj (xs ++ ys) cs e'') at (
        All-append (RefutesBySome (group ∷ groups) f) xs ys
          (first-RefutesBySome group groups f xs c (hx refl xs p))
          (later-RefutesBySome group groups f ys (hy ys q)))

  -- Every hard contradiction that is found under a context filter refutes its source: there is a
  -- group that the filter lets through of which it names at least two members, and the source is
  -- false under every valuation in which the relations that the filter lets through hold and each
  -- such group has at most one true member.
  pub find_group_contradictions_sound :
      (relations : List RelationRecord) (groups : List ExclusiveGroupRecord) (f : ContextFilter)
      (max_depth min_confidence : ℕ) (cs : List GroupContradiction)
      → 1 ≤ max_depth
      → HoldsUnder v host relations (some f)
      → ((group : ExclusiveGroupRecord)
          → Memᴰ group groups
          → exclusive_group_compatible group f ≡ true
          → AtMostOne v group.members)
      → find_group_contradictions host relations groups f max_depth min_confidence ≡ some cs
      → All (RefutesBySome groups f) cs
  unfolding find_group_contradictions
  find_group_contradictions_sound relations [] f d m cs deep h one e = rw (← some_inj [] cs e) tt
  find_group_contradictions_sound relations (group ∷ groups) f d m cs deep h one e =
      group-RefutesBySome group groups f cs (exclusive_group_compatible group f)
        (hard_group_contradictions host (relations_for_group host.iso relations group f) group d m)
        (find_group_contradictions host relations groups f d m) refl
        (λ c xs.
          hard_group_contradictions_sound v host (relations_for_group host.iso relations group f) d
            m deep (relations_for_group-Holds relations group f h) group xs
            (one group (Memᴰ.head refl) c))
        (λ xs.
          find_group_contradictions_sound relations groups f d m xs deep h
            (λ g p. one g (Memᴰ.tail p)))
        e
