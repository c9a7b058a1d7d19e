-- ===== src/Reasoning/Exclusive/Siblings/Sound.antt =====
-- A classification contradiction is a proof that its source is false.
use mathlib.Core.Bool.{false≢true}
use nesy_reasoning_mcp.Prelude.{
  ◌≤◌, String, ◌≡◌, refl, Bool, true, false, not, ◌||◌, inl, inr, Option, some, none, List, [], ◌∷◌,
  All, All-Memᴰ, All-of_Memᴰ, Memᴰ, Memᴰ-filter, Memᴰ-sort_by, filter, Bool-cases, contains,
  contains_iff, if◌then◌else◌, ◌==◌, text_key, eq→same, some_inj, bind_some, text_le, is_empty,
  arith, ◌∙◌, ◌>>=◌,
}
use nesy_reasoning_mcp.Schemas.{RelationRecord, ExclusiveGroupRecord, ContextFilter}
use nesy_reasoning_mcp.Normalization.Meaning.{Valuation, Implies, Holds}
use nesy_reasoning_mcp.Reasoning.Networkx.{Host}
use nesy_reasoning_mcp.Reasoning.Scope.{exclusive_group_compatible, relations_for_group}
use nesy_reasoning_mcp.Reasoning.Index.{GraphIndex, build_graph}
use nesy_reasoning_mcp.Reasoning.Paths.{ReasoningPath, PathQuery, find_paths}
use nesy_reasoning_mcp.Reasoning.Paths.Valid.{HoldsUnder, find_paths_valid}
use nesy_reasoning_mcp.Reasoning.Temporal.{paths_temporally_compatible}
use nesy_reasoning_mcp.Reasoning.Exclusive.Sound.{AtMostOne}
use nesy_reasoning_mcp.Reasoning.Exclusive.Groups.{relations_for_group-Holds}
use nesy_reasoning_mcp.Reasoning.Exclusive.Siblings.{
  ClassificationContradiction, Found, sibling_step, conflicting_sibling, siblings, from_target,
  group_sibling, first_found, find_classification_contradiction,
}

module _ (v : Valuation) (source target : String) where
  -- What a contradiction that a group explains proves.
  pub record Conflicts (group : ExclusiveGroupRecord) (c : ClassificationContradiction)
      : Type 0 where
    pub refuted : ¬ (v source ≡ true)
    pub target_named : c.target ≡ target
    pub target_in_group : Memᴰ target group.members
    pub sibling_in_group : Memᴰ c.conflicting_target group.members
    pub different : ¬ (c.conflicting_target ≡ target)
    pub group_named : c.exclusive_group_id ≡ group.group_id

  abbrev pub ConflictsBySome :
      List ExclusiveGroupRecord → ContextFilter → ClassificationContradiction → Type 0
  ConflictsBySome groups f c =
      (group : ExclusiveGroupRecord) × Memᴰ group groups
      × (exclusive_group_compatible group f ≡ true)
      × Conflicts group c

  module _ (host : Host) (q : PathQuery) where
    abbrev Sibling : ExclusiveGroupRecord → String → Type 0
    Sibling group member = Memᴰ member group.members × ¬ (member ≡ target)

    module _ (index : GraphIndex host) (group : ExclusiveGroupRecord)
        (one : AtMostOne v group.members) (target_in : Memᴰ target group.members)
        (reaches : (member : String) (path : ReasoningPath) (rest : List ReasoningPath)
          → find_paths host index source member q ≡ some (path ∷ rest)
          → Implies v source member) where
      step-Conflicts :
          (target_path : ReasoningPath) (member : String)
          (later : Option (Found host source target q)) (paths : List ReasoningPath)
          (c : ClassificationContradiction)
          → Implies v source target
          → Sibling group member
          → find_paths host index source member q ≡ some paths
          → (later ≡ some (some c) → Conflicts group c)
          → sibling_step host source target q group target_path member later paths ≡ some (some c)
          → Conflicts group c
      unfolding sibling_step
      step-Conflicts target_path member later [] c t s found rest e = rest e
      step-Conflicts target_path member later (path ∷ paths) c t (m, other) found rest e =
          elim (Bool-cases (paths_temporally_compatible host.iso (target_path ∷ path ∷ []))) [
            | inr apart ↦ rest (rw apart at e)
            | inl joint ↦ rw (← some_inj _ c (some_inj _ (some c) (rw joint at e))) (record {
              refuted = λ h.
                  other (one member target m target_in (reaches member path paths found h) (t h));
              target_named = refl;
              target_in_group = target_in;
              sibling_in_group = m;
              different = other;
              group_named = refl;
            })
          ]

      siblings-Conflict :
          (target_path : ReasoningPath) (members : List String) (c : ClassificationContradiction)
          → Implies v source target
          → All (Sibling group) members
          → conflicting_sibling host source target q index group target_path members ≡ some (some c)
          → Conflicts group c
      unfolding conflicting_sibling
      siblings-Conflict target_path [] c t h e = cc
      siblings-Conflict target_path (member ∷ members) c t (s, h) e =
          let (paths, found, e') = bind_some (find_paths host index source member q) _ (some c) e in
          step-Conflicts target_path member
            (conflicting_sibling host source target q index group target_path members) paths c t s
            found (siblings-Conflict target_path members c t h) e'

      siblings-Sibling : All (Sibling group) (siblings host source target q group)
      siblings-Sibling = All-of_Memᴰ (Sibling group) (siblings host source target q group) (λ m p.
          let (inside, other) =
            (Memᴰ-filter (λ item. not (item == target)) m group.members).0 (
              (Memᴰ-sort_by text_le m (filter (λ item. not (item == target)) group.members)).0 p) in
          (inside, λ e. false≢true (ground (arith, eq→same m target e, other))))

      from_target-Conflicts :
          (paths : List ReasoningPath) (c : ClassificationContradiction)
          → find_paths host index source target q ≡ some paths
          → from_target host source target q index group paths ≡ some (some c)
          → Conflicts group c
      unfolding from_target
      from_target-Conflicts [] c found e = cc
      from_target-Conflicts (path ∷ paths) c found e =
          siblings-Conflict path (siblings host source target q group) c
            (reaches target path paths found) siblings-Sibling e

    -- the guards of the loop over the groups, with the two lists that they test
    guarded :
        (outside empty : Bool) (found : Option (Found host source target q))
        (c : ClassificationContradiction)
        → (if outside then some none else if empty then some none else found) ≡ some (some c)
        → (outside ≡ false) × (found ≡ some (some c))
    guarded true empty found c e = cc
    guarded false true found c e = cc
    guarded false false found c e = (refl, e)

    module _ (relations : List RelationRecord) (f : ContextFilter) (deep : 1 ≤ q.max_depth)
        (hold : HoldsUnder v host relations (some f)) where
      group-Conflicts :
          (group : ExclusiveGroupRecord) (c : ClassificationContradiction)
          → (exclusive_group_compatible group f ≡ true → AtMostOne v group.members)
          → group_sibling host source target q relations group f ≡ some (some c)
          → (exclusive_group_compatible group f ≡ true) × Conflicts group c
      unfolding group_sibling
      group-Conflicts group c one e =
          let rs = relations_for_group host.iso relations group f in
          let index = build_graph host rs none in
          let (inside, e') =
            guarded
              (not (contains group.members target) || not (exclusive_group_compatible group f))
              (is_empty rs)
              (find_paths host index source target q
                >>= from_target host source target q index group)
              c e in
          let (paths, found, e'') =
            bind_some (find_paths host index source target q)
              (from_target host source target q index group) (some c) e' in
          let ok : exclusive_group_compatible group f ≡ true = ground (arith, inside) in
          let member : contains group.members target ≡ true = ground (arith, inside) in
          (
            ok,
            from_target-Conflicts index group (one ok)
                ((contains_iff group.members target).0 member)
                (λ m path rest p.
                  find_paths_valid v host rs none q source m (path ∷ rest) path deep
                    (λ r i _.
                      All-Memᴰ (Holds v) rs
                        (relations_for_group-Holds v host relations group f hold) i)
                    p (Memᴰ.head refl))
                paths c found e'',
          )

      -- A contradiction that `find_classification_contradiction` reports refutes its source: a group
      -- that the context filter lets through has the target and, apart from it, the conflicting
      -- target as members, and the source is false under every valuation in which the relations
      -- that the filter lets through hold and each such group has at most one true member. The depth
      -- limit is at least 1.
      pub find_classification_contradiction_sound :
          (groups : List ExclusiveGroupRecord) (c : ClassificationContradiction)
          → ((group : ExclusiveGroupRecord)
              → Memᴰ group groups
              → exclusive_group_compatible group f ≡ true
              → AtMostOne v group.members)
          → find_classification_contradiction host source target q relations groups f
            ≡ some (some c)
          → ConflictsBySome groups f c
      unfolding find_classification_contradiction
      find_classification_contradiction_sound [] c one e = cc
      find_classification_contradiction_sound (group ∷ groups) c one e =
          let later = find_classification_contradiction host source target q relations groups f in
          let (found, p, e') =
            bind_some (group_sibling host source target q relations group f)
              (first_found host source target q later) (some c) e in
          split found p e' (group-Conflicts group c (one group (Memᴰ.head refl)))
            (find_classification_contradiction_sound groups c (λ g m. one g (Memᴰ.tail m)))
        where
          split :
              (found : Found host source target q)
              → group_sibling host source target q relations group f ≡ some found
              → first_found host source target q
                  (find_classification_contradiction host source target q relations groups f)
                  found
                ≡ some (some c)
              → (group_sibling host source target q relations group f ≡ some (some c)
                  → (exclusive_group_compatible group f ≡ true) × Conflicts group c)
              → (find_classification_contradiction host source target q relations groups f
                    ≡ some (some c)
                  → ConflictsBySome groups f c)
              → ConflictsBySome (group ∷ groups) f c
          split none p e here rest = let (g, m, ok, k) = rest e in (g, Memᴰ.tail m, ok, k)
          split (some d) p e here rest =
              let (ok, k) = here (p ∙ e) in (group, Memᴰ.head refl, ok, k)
