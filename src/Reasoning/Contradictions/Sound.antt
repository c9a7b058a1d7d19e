-- ===== src/Reasoning/Contradictions/Sound.antt =====
-- Every contradiction of a store is justified by its relations, its groups and its propositions.
use nesy_reasoning_mcp.Prelude.{
  ℕ, ◌≤◌, ◌≡◌, refl, ap, Bool, true, false, inl, inr, some, List, [], ◌∷◌, ◌++◌, map, All, All-map,
  All-append, All-of_Memᴰ, Memᴰ, Bool-cases, if◌then◌else◌, text_key, pair_key, list_key, contains,
  some_inj, bind_some,
}
use nesy_reasoning_mcp.Schemas.{
  RelationRecord, ExclusiveGroupRecord, ContextFilter, PropositionRecord,
}
use nesy_reasoning_mcp.Normalization.Meaning.{Valuation, Holds}
use nesy_reasoning_mcp.Reasoning.Networkx.{Host}
use nesy_reasoning_mcp.Reasoning.Scope.{
  is_same_context, exclusive_group_compatible, relations_for_group,
  relations_compatible_with_filter,
}
use nesy_reasoning_mcp.Reasoning.Paths.Valid.{HoldsUnder}
use nesy_reasoning_mcp.Reasoning.Exclusive.{
  GroupContradiction, hard_group_contradictions, find_group_contradictions,
}
use nesy_reasoning_mcp.Reasoning.Exclusive.Sound.{AtMostOne}
use nesy_reasoning_mcp.Reasoning.Exclusive.Groups.{
  RefutesBySome, compatible-Holds, find_group_contradictions_sound,
}
use nesy_reasoning_mcp.Reasoning.Negation.{explicit_negation_contradictions}
use nesy_reasoning_mcp.Reasoning.Negation.Pairs.{Respects, RefutesNegation}
use nesy_reasoning_mcp.Reasoning.Negation.Sound.{explicit_negation_contradictions_sound}
use nesy_reasoning_mcp.Reasoning.Tensions.{ConfidenceTension, confidence_tensions}
use nesy_reasoning_mcp.Reasoning.Tensions.Exact.{Divergent, confidence_tensions-Exact}
use nesy_reasoning_mcp.Reasoning.Separated.{
  SeparatedConflict, SeparatedKey, separated_key, separated_from, context_separated_conflicts,
  dedupe_context_separated,
}
use nesy_reasoning_mcp.Reasoning.Separated.Reports.{Separated}
use nesy_reasoning_mcp.Reasoning.Separated.Sound.{context_separated_conflicts_sound}
use nesy_reasoning_mcp.Reasoning.Contradictions.{
  Contradiction, negated, tense, exclusive, groups_contradictions, find_exclusive_contradictions,
}

map-All :
    {A B : Type 0} (f : A → B) (P : B → Type 0) (xs : List A)
    → All (λ x. P (f x)) xs
    → All P (map f xs)
map-All f P [] h = tt
map-All f P (x ∷ xs) (p, h) = (p, map-All f P xs h)

separated_from-All :
    (P : SeparatedConflict → Type 0) (seen : List SeparatedKey) (items : List SeparatedConflict)
    → All P items
    → All P (separated_from seen items)
separated_from-All P seen [] h = tt
separated_from-All P seen (item ∷ items) (p, h) =
    go (contains seen (separated_key item)) (separated_from seen items)
      (item ∷ separated_from (separated_key item ∷ seen) items) (separated_from-All P seen items h)
      (p, separated_from-All P (separated_key item ∷ seen) items h)
  where
    go :
        (b : Bool) (xs ys : List SeparatedConflict)
        → All P xs
        → All P ys
        → All P (if b then xs else ys)
    go true xs ys hx hy = hx
    go false xs ys hx hy = hy

module _ (host : Host) (relations : List RelationRecord) (f : ContextFilter)
    (max_depth min_confidence : ℕ) where
  abbrev compatible : List RelationRecord
  compatible = relations_compatible_with_filter host.iso relations f

  abbrev pub SeparatedBySome : List ExclusiveGroupRecord → SeparatedConflict → Type 0
  SeparatedBySome groups c =
      (group : ExclusiveGroupRecord) × Memᴰ group groups × Separated compatible group c

  -- The two lists of the loop over the groups: the hard contradictions, and conflicts of a group.
  abbrev Loops :
      List ExclusiveGroupRecord → List GroupContradiction → List SeparatedConflict → Type 0
  Loops groups hard separated =
      (find_group_contradictions host relations groups f max_depth min_confidence ≡ some hard)
      × All (SeparatedBySome groups) separated

  later-Separated :
      (group : ExclusiveGroupRecord) (groups : List ExclusiveGroupRecord)
      (cs : List SeparatedConflict)
      → All (SeparatedBySome groups) cs
      → All (SeparatedBySome (group ∷ groups)) cs
  later-Separated group groups cs =
      All-map (SeparatedBySome groups) (SeparatedBySome (group ∷ groups)) cs
        (λ c (g, m, s). (g, Memᴰ.tail m, s))

  scope-Separated :
      (deep : 1 ≤ max_depth) (group : ExclusiveGroupRecord) (b : Bool) (cs : List SeparatedConflict)
      → (if b
          then context_separated_conflicts host group max_depth min_confidence relations f
          else some [])
        ≡ some cs
      → All (Separated compatible group) cs
  scope-Separated deep group true cs e =
      context_separated_conflicts_sound host group max_depth min_confidence deep relations f cs e
  scope-Separated deep group false cs e = rw (← some_inj [] cs e) tt

  groups-Loops :
      (deep : 1 ≤ max_depth) (groups : List ExclusiveGroupRecord) (hard : List GroupContradiction)
      (separated : List SeparatedConflict)
      → groups_contradictions host relations groups f max_depth min_confidence
        ≡ some (hard, separated)
      → Loops groups hard separated
  unfolding groups_contradictions find_group_contradictions
  groups-Loops deep [] hard separated e =
      let p = some_inj ([], []) (hard, separated) e in
      (ap (λ q. some q.0) p, rw (← ap (λ q. q.1) p) tt)
  groups-Loops deep (group ∷ groups) hard separated e =
      elim (Bool-cases (exclusive_group_compatible group f)) [
        | inr out ↦
            let (p, q) = groups-Loops deep groups hard separated (rw out at e) in
            (rw out p, later-Separated group groups separated q)
        | inl ok ↦
            let (xs, px, e1) =
              bind_some
                (hard_group_contradictions host (relations_for_group host.iso relations group f)
                  group max_depth min_confidence)
                _ (hard, separated) (rw ok at e) in
            let (ss, ps, e2) = bind_some _ _ (hard, separated) e1 in
            let ((ys, ts), pl, e3) =
              bind_some (groups_contradictions host relations groups f max_depth min_confidence) _
                (hard, separated) e2 in
            let (p, q) = groups-Loops deep groups ys ts pl in
            let r = some_inj (xs ++ ys, ss ++ ts) (hard, separated) e3 in
            (
              rw (ok, px, p) (ap (λ z. some z.0) r),
              rw (← ap (λ z. z.1) r) (
                  All-append (SeparatedBySome (group ∷ groups)) ss ts
                    (All-map (Separated compatible group) (SeparatedBySome (group ∷ groups)) ss
                      (λ c s. (group, Memᴰ.head refl, s))
                      (scope-Separated deep group (is_same_context group.scope) ss ps))
                    (later-Separated group groups ts q)),
            )
      ]

  module _ (v : Valuation) (groups : List ExclusiveGroupRecord)
      (propositions : List PropositionRecord) where
    -- A negation or an exclusive group refutes the source; a tension has two divergent records.
    abbrev pub Justified : Contradiction → Type 0
    Justified (negated c) = RefutesNegation v propositions c
    Justified (tense t) = Divergent compatible t.claim
    Justified (exclusive c) = RefutesBySome v host groups f c

    tensions-Justified :
        (b : Bool)
        → All
            (λ (t : ConfidenceTension). Divergent compatible t.claim)
            (if b then confidence_tensions compatible else [])
    tensions-Justified true = (confidence_tensions-Exact compatible).sound
    tensions-Justified false = tt

    -- What `find_exclusive_contradictions` returns is justified: each negation contradiction and
    -- each group contradiction refutes its source, each tension has two records of its claim whose
    -- confidences differ, rounded to a double, by at least 0.5, and each separated conflict names at
    -- least two different members of one of the groups and at least two different contexts, each
    -- member following in one of them. This is under a valuation in which the relations that the
    -- filter lets through hold, each group that it lets through has at most one true member, and no
    -- proposition is true together with a negation of it. The depth limit is at least 1.
    pub find_exclusive_contradictions_sound :
        (include_soft : Bool) (found : List Contradiction) (separated : List SeparatedConflict)
        → 1 ≤ max_depth
        → HoldsUnder v host relations (some f)
        → Respects v propositions
        → ((group : ExclusiveGroupRecord)
            → Memᴰ group groups
            → exclusive_group_compatible group f ≡ true
            → AtMostOne v group.members)
        → find_exclusive_contradictions host relations groups f max_depth include_soft
            min_confidence propositions
          ≡ some (found, separated)
        → All Justified found × All (SeparatedBySome groups) separated
    unfolding find_exclusive_contradictions dedupe_context_separated
    find_exclusive_contradictions_sound soft found separated deep hold respects one e =
        let (ns, pn, e1) =
          bind_some
            (explicit_negation_contradictions host compatible max_depth min_confidence propositions)
            _ (found, separated) e in
        let ((hard, ss), pg, e2) =
          bind_some (groups_contradictions host relations groups f max_depth min_confidence) _
            (found, separated) e1 in
        let (p, q) = groups-Loops deep groups hard ss pg in
        let ts = if soft then confidence_tensions compatible else [] in
        let r =
          some_inj (map negated ns ++ (map tense ts ++ map exclusive hard), separated_from [] ss)
            (found, separated) e2 in
        let holds : All (Holds v) compatible =
          All-of_Memᴰ (Holds v) compatible (compatible-Holds v host relations f hold) in
        (
          rw (← ap (λ z. z.0) r) (
              All-append Justified (map negated ns) (map tense ts ++ map exclusive hard)
                (map-All negated Justified ns (
                  explicit_negation_contradictions_sound v propositions respects host max_depth
                    min_confidence deep compatible ns holds pn))
                (All-append Justified (map tense ts) (map exclusive hard)
                  (map-All tense Justified ts (tensions-Justified soft))
                  (map-All exclusive Justified hard (
                    find_group_contradictions_sound v host relations groups f max_depth
                      min_confidence hard deep hold one p)))),
          rw (← ap (λ z. z.1) r) (separated_from-All (SeparatedBySome groups) [] ss q),
        )
