-- ===== src/Reasoning/Negation/Sound.antt =====
-- A contradiction with an explicit negation is a proof that its source is false.
use nesy_reasoning_mcp.Prelude.{
  ℕ, ◌≤◌, String, ◌≡◌, refl, Bool, true, false, Option, some, none, List, [], ◌∷◌, ◌++◌, All,
  All-append, All-map, All-Memᴰ, Memᴰ, Dict, if◌then◌else◌, some_inj, bind_some, sort_by, text_le,
  text_key, pair_key, list_key, is_empty, contains, group_by-Keyed, Keyed,
}
use nesy_reasoning_mcp.Schemas.{RelationRecord, PropositionRecord}
use nesy_reasoning_mcp.Normalization.Meaning.{Valuation, Holds}
use nesy_reasoning_mcp.Reasoning.Networkx.{Host}
use nesy_reasoning_mcp.Reasoning.Index.{build_graph}
use nesy_reasoning_mcp.Reasoning.Paths.Valid.{find_paths_valid}
use nesy_reasoning_mcp.Reasoning.Exclusive.{member_query}
use nesy_reasoning_mcp.Reasoning.Negation.{
  NegationContradiction, negation_pairs_for_nodes, dedupe_contradictions, dedupe_from, NegationKey,
  negation_key, search_paths, scope_negations, scopes_negations, relations_by_scope,
  explicit_negation_contradictions,
}
use nesy_reasoning_mcp.Reasoning.Negation.Pairs.{Respects, RefutesNegation, pairs-IsPair}
use nesy_reasoning_mcp.Reasoning.Negation.Searches.{sources-refute}

module _ (v : Valuation) (propositions : List PropositionRecord)
    (respects : Respects v propositions) where
  dedupe_from-All :
      (P : NegationContradiction → Type 0) (seen : List NegationKey)
      (items : List NegationContradiction)
      → All P items
      → All P (dedupe_from seen items)
  unfolding dedupe_from
  dedupe_from-All P seen [] h = tt
  dedupe_from-All P seen (item ∷ items) (p, h) =
      go _ _ (contains seen (negation_key item)) (dedupe_from-All P seen items h)
        (p, dedupe_from-All P (negation_key item ∷ seen) items h)
    where
      go :
          (xs ys : List NegationContradiction) (b : Bool)
          → All P xs
          → All P ys
          → All P (elim b [ true ↦ xs | false ↦ ys ])
      go xs ys true hx hy = hx
      go xs ys false hx hy = hy

  module _ (host : Host) where
    abbrev scope_of : RelationRecord → String × String
    scope_of r = (r.fields.store_id, r.fields.context_id)

    ungroup :
        (entries : Dict (String × String) (List RelationRecord))
        → Keyed scope_of (Holds v) entries
        → All (λ (entry : (String × String) × List RelationRecord). All (Holds v) entry.1) entries
    ungroup [] h = tt
    ungroup ((scope, rs) ∷ entries) (h, hs) = (
      All-map (λ r. (scope_of r ≡ scope) × Holds v r) (Holds v) rs (λ r p. p.1) h,
      ungroup entries hs,
    )

    module _ (max_depth min_confidence : ℕ) (deep : 1 ≤ max_depth) where
      scope-refutes :
          (scope : String × String) (relations : List RelationRecord)
          (cs : List NegationContradiction)
          → All (Holds v) relations
          → scope_negations host propositions max_depth min_confidence (scope, relations) ≡ some cs
          → All (RefutesNegation v propositions) cs
      unfolding scope_negations search_paths
      scope-refutes scope relations cs hold e =
          go (is_empty (negation_pairs_for_nodes nodes propositions)) _ e (
            sources-refute v propositions respects host _
              (negation_pairs_for_nodes nodes propositions) nodes cs
              (λ source target path rest found.
                find_paths_valid v host relations none (member_query max_depth min_confidence)
                  source target (path ∷ rest) path deep
                  (λ r m c. All-Memᴰ (Holds v) relations hold m) found (Memᴰ.head refl))
              (pairs-IsPair propositions nodes))
        where
          nodes : List String
          nodes = sort_by text_le (host.nodes (build_graph host relations none).graph)

          go :
              (b : Bool) (o : Option (List NegationContradiction))
              → (if b then some [] else o) ≡ some cs
              → (o ≡ some cs → All (RefutesNegation v propositions) cs)
              → All (RefutesNegation v propositions) cs
          go true o h rest = rw (← some_inj [] cs h) tt
          go false o h rest = rest h

      scopes-refute :
          (entries : Dict (String × String) (List RelationRecord)) (cs : List NegationContradiction)
          → All (λ entry. All (Holds v) entry.1) entries
          → scopes_negations host propositions max_depth min_confidence entries ≡ some cs
          → All (RefutesNegation v propositions) cs
      unfolding scopes_negations
      scopes-refute [] cs h e = rw (← some_inj [] cs e) tt
      scopes-refute ((scope, relations) ∷ entries) cs (hold, h) e =
          let (found, ef, e1) =
            bind_some
              (scope_negations host propositions max_depth min_confidence (scope, relations)) _ cs
              e in
          let (rest, others, e2) =
            bind_some (scopes_negations host propositions max_depth min_confidence entries) _ cs
              e1 in
          rw (some_inj (found ++ rest) cs e2) at (
            All-append (RefutesNegation v propositions) found rest
              (scope-refutes scope relations found hold ef) (scopes-refute entries rest h others))

      -- Each contradiction that `_explicit_negation_contradictions` reports names a proposition and a
      -- negation of it as its targets, and its source is false under every valuation in which the
      -- given relations hold and no proposition is true together with a negation of it. The depth
      -- limit is at least 1.
      pub explicit_negation_contradictions_sound :
          (relations : List RelationRecord) (cs : List NegationContradiction)
          → All (Holds v) relations
          → explicit_negation_contradictions host relations max_depth min_confidence propositions
            ≡ some cs
          → All (RefutesNegation v propositions) cs
      unfolding explicit_negation_contradictions dedupe_contradictions
      explicit_negation_contradictions_sound relations cs hold e =
          let (found, ef, e1) =
            bind_some
              (scopes_negations host propositions max_depth min_confidence
                (relations_by_scope relations))
              _ cs e in
          let groups = group_by-Keyed scope_of (Holds v) relations hold in
          rw (some_inj (dedupe_contradictions found) cs e1) at (
            dedupe_from-All (RefutesNegation v propositions) [] found (
              scopes-refute (relations_by_scope relations) found
                (ungroup (relations_by_scope relations) groups) ef))
