-- ===== src/Reasoning/Exclusive/Sound.antt =====
-- A hard contradiction of a group is a proof that its source is false.
use nesy_reasoning_mcp.Prelude.{
  ℕ, ◌≤◌, String, ◌≡◌, refl, Bool, true, false, inl, inr, Option, some, none, List, [], ◌∷◌, ◌++◌,
  arith, All, All-append, Memᴰ, length, length-map, Dict, keys, Distinct, insert-Distinct,
  All-insert, All-Memᴰ, Bool-cases, if◌then◌else◌, ltb, some_inj, bind_some, sort_by, text_le,
  text_key, is_empty,
}
use nesy_reasoning_mcp.Schemas.{RelationRecord, ExclusiveGroupRecord}
use nesy_reasoning_mcp.Normalization.Meaning.{Valuation, Implies, Holds}
use nesy_reasoning_mcp.Reasoning.Networkx.{Host}
use nesy_reasoning_mcp.Reasoning.Index.{GraphIndex, build_graph}
use nesy_reasoning_mcp.Reasoning.Paths.{ReasoningPath, find_paths}
use nesy_reasoning_mcp.Reasoning.Paths.Valid.{HoldsUnder, find_paths_valid}
use nesy_reasoning_mcp.Reasoning.Temporal.{paths_temporally_compatible}
use nesy_reasoning_mcp.Reasoning.Exclusive.{
  GroupContradiction, hit_paths, hit_members, member_query, add_hit, reachable_members_onto,
  reachable_group_members, source_contradictions, contradictions_from, hard_group_contradictions,
}

-- No two members of the group are true.
abbrev pub AtMostOne : Valuation → List String → Type 0
AtMostOne v members =
    (a b : String) → Memᴰ a members → Memᴰ b members → v a ≡ true → v b ≡ true → a ≡ b

module _ (v : Valuation) where
  -- Each hit is a member that the source implies.
  abbrev pub IsHit : List String → String → String × ReasoningPath → Type 0
  IsHit members source hit = Memᴰ hit.0 members × Implies v source hit.0

  two_hits :
      (members : List String) (source : String) (hits : Dict String ReasoningPath)
      → All (IsHit members source) hits
      → Distinct (keys hits)
      → AtMostOne v members
      → ltb (length hits) 2 ≡ false
      → ¬ (v source ≡ true)
  two_hits members source [] h d one l = absurd (ground arith)
  two_hits members source (x ∷ []) h d one l = absurd (ground arith)
  two_hits members source (x ∷ y ∷ hits) (hx, (hy, h)) (new, d) one l =
      λ t. new (Memᴰ.head (one x.0 y.0 hx.0 hy.0 (hx.1 t) (hy.1 t)))

  -- What a reported contradiction proves.
  pub record Refutes (group : ExclusiveGroupRecord) (c : GroupContradiction) : Type 0 where
    pub refuted : ¬ (v c.source ≡ true)
    pub in_group : All (λ t. Memᴰ t group.members) c.targets
    pub several : 2 ≤ length c.targets
    pub different : Distinct c.targets
    pub named : c.exclusive_group_id ≡ group.group_id

  IsHit-members :
      (members : List String) (source : String) (hits : Dict String ReasoningPath)
      → All (IsHit members source) hits
      → All (λ t. Memᴰ t members) (hit_members hits)
  IsHit-members members source [] h = tt
  IsHit-members members source (x ∷ hits) (hx, h) = (hx.0, IsHit-members members source hits h)

  module _ (host : Host) where
    source-Refutes :
        (group : ExclusiveGroupRecord) (source : String) (hits : Dict String ReasoningPath)
        → AtMostOne v group.members
        → All (IsHit group.members source) hits
        → Distinct (keys hits)
        → All (Refutes group) (source_contradictions host group source hits)
    unfolding source_contradictions
    source-Refutes group source hits one h d = elim (Bool-cases (ltb (length hits) 2)) [
      | inl few ↦ rw few tt
      | inr many ↦ elim (Bool-cases (paths_temporally_compatible host.iso (hit_paths hits))) [
        | inr apart ↦ rw (many, apart) tt
        | inl joint ↦
            rw (many, joint)
              (
                record {
                  refuted = two_hits group.members source hits h d one many;
                  in_group = IsHit-members group.members source hits h;
                  several =
                      ground (arith, length-map (λ (hit : String × ReasoningPath). hit.0) hits);
                  different = d;
                  named = refl;
                },
                tt,
              )
      ]
    ]

    module _ (relations : List RelationRecord) (max_depth min_confidence : ℕ) (deep : 1 ≤ max_depth)
        (hold : All (Holds v) relations) where
      abbrev index : GraphIndex host
      index = build_graph host relations none

      holds_all : HoldsUnder v host relations none
      holds_all r m c = All-Memᴰ (Holds v) relations hold m

      found-Implies :
          (source member : String) (path : ReasoningPath) (rest : List ReasoningPath)
          → find_paths host index source member (member_query max_depth min_confidence)
            ≡ some (path ∷ rest)
          → Implies v source member
      found-Implies source member path rest e =
          find_paths_valid v host relations none (member_query max_depth min_confidence) source
            member (path ∷ rest) path deep holds_all e (Memᴰ.head refl)

      abbrev pub Hits : List String → String → Dict String ReasoningPath → Type 0
      Hits members source hits = All (IsHit members source) hits × Distinct (keys hits)

      add_hit-Hits :
          (members : List String) (source member : String) (paths : List ReasoningPath)
          (hits : Dict String ReasoningPath)
          → Memᴰ member members
          → find_paths host index source member (member_query max_depth min_confidence) ≡ some paths
          → Hits members source hits
          → Hits members source (add_hit member paths hits)
      add_hit-Hits members source member [] hits m e h = h
      add_hit-Hits members source member (p ∷ ps) hits m e (h, d) = (
        All-insert (IsHit members source) member p hits
            (λ j q. rw q (m, found-Implies source member p ps e)) h,
        insert-Distinct member p hits d,
      )

      pub reachable-Hits :
          (all_members : List String) (source : String) (members : List String)
          (hits result : Dict String ReasoningPath)
          → ((m : String) → Memᴰ m members → Memᴰ m all_members)
          → Hits all_members source hits
          → reachable_members_onto host index source
              (member_query max_depth min_confidence)
              hits
              members
            ≡ some result
          → Hits all_members source result
      unfolding reachable_members_onto
      reachable-Hits all_members source [] hits result inside h e = rw (some_inj hits result e) at h
      reachable-Hits all_members source (member ∷ members) hits result inside h e =
          let (paths, found, rest) =
            bind_some (find_paths host index source member (member_query max_depth min_confidence))
              (λ paths.
                reachable_members_onto host index source (member_query max_depth min_confidence)
                  (add_hit member paths hits) members)
              result e in
          reachable-Hits all_members source members (add_hit member paths hits) result
            (λ m q. inside m (Memᴰ.tail q))
            (add_hit-Hits all_members source member paths hits (inside member (Memᴰ.head refl))
              found h)
            rest

      contradictions-Refutes :
          (group : ExclusiveGroupRecord) (sources : List String) (cs : List GroupContradiction)
          → AtMostOne v group.members
          → contradictions_from host index group max_depth min_confidence sources ≡ some cs
          → All (Refutes group) cs
      unfolding contradictions_from reachable_group_members
      contradictions-Refutes group [] cs one e = rw (← some_inj [] cs e) tt
      contradictions-Refutes group (source ∷ sources) cs one e =
          let (hits, reached, e') =
            bind_some
              (reachable_group_members host index source group.members max_depth min_confidence) _
              cs e in
          let (rest, others, e'') =
            bind_some (contradictions_from host index group max_depth min_confidence sources) _ cs
              e' in
          let (h, d) =
            reachable-Hits group.members source group.members [] hits (λ m q. q) (tt, tt) reached in
          rw (some_inj (source_contradictions host group source hits ++ rest) cs e'') at (
            All-append (Refutes group) (source_contradictions host group source hits) rest
              (source-Refutes group source hits one h d)
              (contradictions-Refutes group sources rest one others))

      -- Each contradiction that `_hard_group_contradictions` reports for a group names at least two
      -- different members of the group as its targets, and its source is false under every valuation
      -- in which the given relations hold and at most one member of the group is true.
      pub hard_group_contradictions_sound :
          (group : ExclusiveGroupRecord) (cs : List GroupContradiction)
          → AtMostOne v group.members
          → hard_group_contradictions host relations group max_depth min_confidence ≡ some cs
          → All (Refutes group) cs
      unfolding hard_group_contradictions
      hard_group_contradictions_sound group cs one e =
          go (is_empty relations)
            (contradictions_from host index group max_depth min_confidence
              (sort_by text_le (host.nodes index.graph)))
            e (contradictions-Refutes group (sort_by text_le (host.nodes index.graph)) cs one)
        where
          go :
              (b : Bool) (o : Option (List GroupContradiction))
              → (if b then some [] else o) ≡ some cs
              → (o ≡ some cs → All (Refutes group) cs)
              → All (Refutes group) cs
          go true o h rest = rw (← some_inj [] cs h) tt
          go false o h rest = rest h
