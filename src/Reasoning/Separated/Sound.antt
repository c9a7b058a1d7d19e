-- ===== src/Reasoning/Separated/Sound.antt =====
-- What a conflict across contexts says of its source and its targets.
use nesy_reasoning_mcp.Prelude.{
  ℕ, ◌≤◌, String, ◌≡◌, Bool, true, false, Option, some, none, List, [], ◌∷◌, All, All-Memᴰ,
  All-of_Memᴰ, All-concat_map, Memᴰ-map, concat_map, Dict, keys, if◌then◌else◌, text_key, pair_key,
  list_key, is_empty, sort_by, text_le, some_inj, bind_some,
}
use nesy_reasoning_mcp.Schemas.{
  RelationType, RelationRecord, ExclusiveGroupRecord, ContextFilter, canonical_source,
  canonical_target,
}
use nesy_reasoning_mcp.Normalization.Meaning.{Valuation, Holds, Claims}
use nesy_reasoning_mcp.Reasoning.Networkx.{Host}
use nesy_reasoning_mcp.Reasoning.Scope.{relations_compatible_with_filter}
use nesy_reasoning_mcp.Reasoning.Index.{GraphIndex, build_graph}
use nesy_reasoning_mcp.Reasoning.Paths.{ReasoningPath}
use nesy_reasoning_mcp.Reasoning.Exclusive.{reachable_group_members}
use nesy_reasoning_mcp.Reasoning.Exclusive.Sound.{IsHit, reachable-Hits}
use nesy_reasoning_mcp.Reasoning.Separated.{
  SeparatedConflict, MemberContexts, context_relations, contexts_of, conflict_of, record_hits,
  hits_of_sources, hits_of_context, hits_of_contexts, context_separated_conflicts,
}
use nesy_reasoning_mcp.Reasoning.Separated.Collected.{
  AreMembers, Implied, AreSources, add_source-AreSources,
}
use nesy_reasoning_mcp.Reasoning.Separated.Reports.{Separated, conflict_of-Separated}

-- Under the valuation that makes everything true every relation holds.
abbrev everything : Valuation
everything _ = true

everything-Claims : (s t : String) (k : RelationType) → Claims everything s t k
everything-Claims s t RelationType.sufficient = λ h. h
everything-Claims s t RelationType.necessary = λ h. h
everything-Claims s t RelationType.equivalent = (λ h. h, λ h. h)

everything-Holds : (r : RelationRecord) → Holds everything r
everything-Holds r =
    everything-Claims (canonical_source r.fields) (canonical_target r.fields) r.relation_type

module _ (compatible : List RelationRecord) (group : ExclusiveGroupRecord) where
  module _ (host : Host) (max_depth min_confidence : ℕ) (deep : 1 ≤ max_depth) where
    module _ (context : String) where
      abbrev given : List RelationRecord
      given = context_relations compatible group context

      abbrev index : GraphIndex host
      index = build_graph host given none

      -- The hits of a source are members that it implies under every valuation.
      reached-Implied :
          (source : String) (hits : Dict String ReasoningPath)
          → reachable_group_members host index source group.members max_depth min_confidence
            ≡ some hits
          → All (Implied compatible group context source) (keys hits)
      unfolding reachable_group_members
      reached-Implied source hits e =
          All-of_Memᴰ (Implied compatible group context source) (keys hits) (λ m p.
            let (hit, inside, q) = Memᴰ-map (λ (x : String × ReasoningPath). x.0) hits m p in
            let hit_under : (v : Valuation)
                → All (Holds v) given
                → IsHit v group.members source hit =
              λ v hold.
                All-Memᴰ (IsHit v group.members source) hits
                  (reachable-Hits v host given max_depth min_confidence deep hold group.members
                    source group.members [] hits (λ _ i. i) (tt, tt) e).0
                  inside in
            rw q (
              (hit_under everything
                  (All-of_Memᴰ (Holds everything) given (λ r _. everything-Holds r))).0,
              λ v hold. (hit_under v hold).1,
            ))

      record_hits-AreSources :
          (source : String) (found : Dict String MemberContexts) (hits : Dict String ReasoningPath)
          → All (Implied compatible group context source) (keys hits)
          → AreSources compatible group found
          → AreSources compatible group
              (record_hits host group max_depth min_confidence context source found hits)
      record_hits-AreSources source found [] h p = p
      record_hits-AreSources source found (hit ∷ hits) h p =
          add_source-AreSources compatible group context source (keys (hit ∷ hits)) found h p

      sources-AreSources :
          (sources : List String) (found result : Dict String MemberContexts)
          → AreSources compatible group found
          → hits_of_sources host group max_depth min_confidence index context sources found
            ≡ some result
          → AreSources compatible group result
      unfolding hits_of_sources
      sources-AreSources [] found result p e = rw (← some_inj found result e) p
      sources-AreSources (source ∷ sources) found result p e =
          let (hits, reached, e') =
            bind_some
              (reachable_group_members host index source group.members max_depth min_confidence) _
              result e in
          sources-AreSources sources
            (record_hits host group max_depth min_confidence context source found hits) result
            (record_hits-AreSources source found hits (reached-Implied source hits reached) p) e'

      context-AreSources :
          (found result : Dict String MemberContexts)
          → AreSources compatible group found
          → hits_of_context host group max_depth min_confidence compatible context found
            ≡ some result
          → AreSources compatible group result
      unfolding hits_of_context
      context-AreSources found result p e =
          go (is_empty given)
            (hits_of_sources host group max_depth min_confidence index context
              (sort_by text_le (host.nodes index.graph)) found)
            e (sources-AreSources (sort_by text_le (host.nodes index.graph)) found result p)
        where
          go :
              (b : Bool) (o : Option (Dict String MemberContexts))
              → (if b then some found else o) ≡ some result
              → (o ≡ some result → AreSources compatible group result)
              → AreSources compatible group result
          go true o h rest = rw (← some_inj found result h) p
          go false o h rest = rest h

    contexts-AreSources :
        (contexts : List String) (found result : Dict String MemberContexts)
        → AreSources compatible group found
        → hits_of_contexts host group max_depth min_confidence compatible contexts found
          ≡ some result
        → AreSources compatible group result
    unfolding hits_of_contexts
    contexts-AreSources [] found result p e = rw (← some_inj found result e) p
    contexts-AreSources (context ∷ contexts) found result p e =
        let (more, h, e') =
          bind_some (hits_of_context host group max_depth min_confidence compatible context found) _
            result e in
        contexts-AreSources contexts more result (context-AreSources context found more p h) e'

module _ (host : Host) (group : ExclusiveGroupRecord) (max_depth min_confidence : ℕ)
    (deep : 1 ≤ max_depth) where
  -- Each conflict that `_context_separated_conflicts` reports names at least two different members
  -- of the group and at least two different contexts, and each named member follows from the source by the
  -- relations of one of the named contexts, in the group's store, that the filter lets through.
  -- The depth limit is at least 1.
  pub context_separated_conflicts_sound :
      (relations : List RelationRecord) (f : ContextFilter) (cs : List SeparatedConflict)
      → context_separated_conflicts host group max_depth min_confidence relations f ≡ some cs
      → All (Separated (relations_compatible_with_filter host.iso relations f) group) cs
  unfolding context_separated_conflicts
  context_separated_conflicts_sound relations f cs e =
      let compatible = relations_compatible_with_filter host.iso relations f in
      let (hits, collected, e') =
        bind_some
          (hits_of_contexts host group max_depth min_confidence compatible
            (contexts_of compatible group) [])
          _ cs e in
      rw (← some_inj (concat_map (conflict_of group) hits) cs e') (
        All-concat_map (conflict_of group) (Separated compatible group) hits (λ entry m.
          conflict_of-Separated compatible group entry.0 entry.1 (
            All-Memᴰ (λ (x : String × MemberContexts). AreMembers compatible group x.0 x.1) hits
              (contexts-AreSources compatible group host max_depth min_confidence deep
                (contexts_of compatible group) [] hits tt collected)
              m)))
