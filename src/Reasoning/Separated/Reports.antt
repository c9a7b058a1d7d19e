-- ===== src/Reasoning/Separated/Reports.antt =====
-- A reported conflict, from what the loops collected.
use nesy_reasoning_mcp.Prelude.{
  ◌≤◌, String, refl, inl, inr, List, [], ◌∷◌, All, All-Memᴰ, All-of_Memᴰ, Memᴰ, Memᴰ-map,
  Memᴰ-sort_by, dedupe-Memᴰ, concat_map-Memᴰ, concat_map, dedupe, keys, Distinct, sort_by-Distinct,
  dedupe-Distinct, Bool-cases, text_key, pair_key, list_key, length, length-map, length-sort_by,
  ltb, sort_by, text_le, arith,
}
use nesy_reasoning_mcp.Schemas.{RelationRecord, ExclusiveGroupRecord}
use nesy_reasoning_mcp.Reasoning.Separated.{
  SeparatedConflict, MemberContexts, involved_contexts, conflict_of,
}
use nesy_reasoning_mcp.Reasoning.Separated.Collected.{ImpliedIn, IsMember, AreMembers}

module _ (compatible : List RelationRecord) (group : ExclusiveGroupRecord) where
  -- What is reported: at least two different members of the group and two different contexts, each
  -- member implied by the source in one of the contexts.
  pub record Separated (c : SeparatedConflict) : Type 0 where
    pub several : 2 ≤ length c.targets
    pub different : Distinct c.targets
    pub across : 2 ≤ length c.contexts
    pub apart : Distinct c.contexts
    pub implied :
        All
          (λ t.
            Memᴰ t group.members
            × (context : String) × Memᴰ context c.contexts
            × ImpliedIn compatible group context c.source t)
          c.targets

  involved :
      (hits : MemberContexts) (member context : String) (cs : List String)
      → Memᴰ (member, cs) hits
      → Memᴰ context cs
      → Memᴰ context (involved_contexts hits)
  involved hits member context cs m n =
      (Memᴰ-sort_by text_le context (dedupe (concat_map (λ entry. entry.1) hits))).1 (
        dedupe-Memᴰ (concat_map (λ entry. entry.1) hits) context
          (concat_map-Memᴰ (λ entry. entry.1) hits (member, cs) context m n))

  first_of : (cs : List String) → 1 ≤ length cs → (c : String) × Memᴰ c cs
  first_of [] h = absurd (omega arith)
  first_of (c ∷ cs) h = (c, Memᴰ.head refl)

  target-implied :
      (source : String) (hits : MemberContexts)
      → All (IsMember compatible group source) hits
      → (t : String) → Memᴰ t (keys hits)
      → Memᴰ t group.members
        × (context : String) × Memᴰ context (involved_contexts hits)
        × ImpliedIn compatible group context source t
  target-implied source hits h t m =
      let ((member, cs), inside, e) = Memᴰ-map (λ (x : String × List String). x.0) hits t m in
      let (in_group, l, all_implied) = All-Memᴰ (IsMember compatible group source) hits h inside in
      let (context, n) = first_of cs l in
      rw e (
        in_group,
        context,
        involved hits member context cs inside n,
        All-Memᴰ (λ c. ImpliedIn compatible group c source member) cs all_implied n,
      )

  pub conflict_of-Separated :
      (source : String) (hits : MemberContexts)
      → AreMembers compatible group source hits
      → All Separated (conflict_of group (source, hits))
  unfolding conflict_of
  conflict_of-Separated source hits (h, u) = elim (Bool-cases (ltb (length hits) 2)) [
    | inl few ↦ rw few tt
    | inr many ↦ elim (Bool-cases (ltb (length (involved_contexts hits)) 2)) [
      | inl one ↦ rw (many, one) tt
      | inr across ↦
          rw (many, across)
            (
              record {
                several = ground (
                  arith,
                  length-sort_by text_le (keys hits),
                  length-map (λ (x : String × List String). x.0) hits,
                );
                different = sort_by-Distinct text_le (keys hits) u;
                across = ground arith;
                apart =
                    sort_by-Distinct text_le (dedupe (concat_map (λ entry. entry.1) hits))
                      (dedupe-Distinct (concat_map (λ entry. entry.1) hits));
                implied = All-of_Memᴰ _ (sort_by text_le (keys hits)) (λ t m.
                    target-implied source hits h t ((Memᴰ-sort_by text_le t (keys hits)).0 m));
              },
              tt,
            )
    ]
  ]
