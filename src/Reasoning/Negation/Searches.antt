-- ===== src/Reasoning/Negation/Searches.antt =====
-- The contradictions found from one source refute it.
use nesy_reasoning_mcp.Prelude.{
  String, ◌≡◌, refl, inl, inr, some, List, [], ◌∷◌, ◌++◌, All, All-append, Bool-cases,
  if◌then◌else◌, some_inj, bind_some, text_key, pair_key, list_key, ◌==◌, same→eq, ◌&&◌, leb, ltb,
  length,
}
use nesy_reasoning_mcp.Schemas.{PropositionRecord}
use nesy_reasoning_mcp.Normalization.Meaning.{Valuation, Implies}
use nesy_reasoning_mcp.Reasoning.Networkx.{Host}
use nesy_reasoning_mcp.Reasoning.Paths.{ReasoningPath}
use nesy_reasoning_mcp.Reasoning.Temporal.{paths_temporally_compatible}
use nesy_reasoning_mcp.Reasoning.Negation.{
  NegationContradiction, SourceSearch, search_paths, cycle_of, cycle_to_exclusion_contradictions,
  opposition_of, direct_opposition_contradictions, negations_from,
}
use nesy_reasoning_mcp.Reasoning.Negation.Pairs.{Opposed, Respects, RefutesNegation, IsPair}

module _ (v : Valuation) (propositions : List PropositionRecord)
    (respects : Respects v propositions) where
  module _ (host : Host) where
    -- The first path found to each target shows that the source implies the target.
    abbrev pub Reaches : SourceSearch host → Type 0
    Reaches q =
        (target : String) (path : ReasoningPath) (rest : List ReasoningPath)
        → search_paths host q target ≡ some (path ∷ rest)
        → Implies v q.source target

    cycle_of-refutes :
        (q : SourceSearch host) (negated : String) (paths : List ReasoningPath)
        → Reaches q
        → Opposed propositions negated q.source
        → search_paths host q negated ≡ some paths
        → All (RefutesNegation v propositions) (cycle_of host q negated paths)
    unfolding cycle_of
    cycle_of-refutes q negated [] reaches o e = tt
    cycle_of-refutes q negated (path ∷ rest) reaches o e =
        elim (Bool-cases (leb (length path.edges) 1)) [
          | inl short ↦ rw short tt
          | inr long ↦ elim (Bool-cases (paths_temporally_compatible host.iso (path ∷ []))) [
            | inr apart ↦ rw (long, apart) tt
            | inl joint ↦
                rw (long, joint)
                  (
                    record {
                      refuted = λ t. respects negated q.source o (reaches negated path rest e t) t;
                      base = q.source;
                      negated = negated;
                      opposed = o;
                      named = refl;
                    },
                    tt,
                  )
          ]
        ]

    opposition_of-refutes :
        (q : SourceSearch host) (negated base : String) (positive negative : List ReasoningPath)
        → Reaches q
        → Opposed propositions negated base
        → search_paths host q base ≡ some positive
        → search_paths host q negated ≡ some negative
        → All (RefutesNegation v propositions) (opposition_of host q negated base positive negative)
    unfolding opposition_of
    opposition_of-refutes q negated base [] negative reaches o ep en = tt
    opposition_of-refutes q negated base (p ∷ ps) [] reaches o ep en = tt
    opposition_of-refutes q negated base (p ∷ ps) (n ∷ ns) reaches o ep en =
        elim (Bool-cases (q.source == base && ltb 1 (length n.edges))) [
          | inl cycle ↦ rw cycle tt
          | inr other ↦ elim (Bool-cases (paths_temporally_compatible host.iso (p ∷ n ∷ []))) [
            | inr apart ↦ rw (other, apart) tt
            | inl joint ↦
                rw (other, joint)
                  (
                    record {
                      refuted = λ t.
                          respects negated base o (reaches negated n ns en t)
                            (reaches base p ps ep t);
                      base = base;
                      negated = negated;
                      opposed = o;
                      named = refl;
                    },
                    tt,
                  )
          ]
        ]

    cycles-refute :
        (q : SourceSearch host) (pairs : List (String × String)) (cs : List NegationContradiction)
        → Reaches q
        → All (IsPair propositions) pairs
        → cycle_to_exclusion_contradictions host q pairs ≡ some cs
        → All (RefutesNegation v propositions) cs
    unfolding cycle_to_exclusion_contradictions cycle_of
    cycles-refute q [] cs reaches h e = rw (← some_inj [] cs e) tt
    cycles-refute q ((negated, base) ∷ pairs) cs reaches (o, h) e =
        let (paths, found, e') =
          bind_some (if base == q.source then search_paths host q negated else some []) _ cs e in
        let (rest, others, e'') =
          bind_some (cycle_to_exclusion_contradictions host q pairs) _ cs e' in
        rw (some_inj (cycle_of host q negated paths ++ rest) cs e'') at (
          All-append (RefutesNegation v propositions) (cycle_of host q negated paths) rest
            (elim (Bool-cases (base == q.source)) [
              | inl own ↦
                  cycle_of-refutes q negated paths reaches (rw (← same→eq base q.source own) o)
                    (rw own at found)
              | inr not_own ↦ no_paths paths (rw not_own at found)
            ])
            (cycles-refute q pairs rest reaches h others))
      where
        no_paths :
            (paths : List ReasoningPath)
            → some [] ≡ some paths
            → All (RefutesNegation v propositions) (cycle_of host q negated paths)
        no_paths paths e = rw (← some_inj [] paths e) tt

    oppositions-refute :
        (q : SourceSearch host) (pairs : List (String × String)) (cs : List NegationContradiction)
        → Reaches q
        → All (IsPair propositions) pairs
        → direct_opposition_contradictions host q pairs ≡ some cs
        → All (RefutesNegation v propositions) cs
    unfolding direct_opposition_contradictions
    oppositions-refute q [] cs reaches h e = rw (← some_inj [] cs e) tt
    oppositions-refute q ((negated, base) ∷ pairs) cs reaches (o, h) e =
        let (positive, ep, e1) = bind_some (search_paths host q base) _ cs e in
        let (negative, en, e2) = bind_some (search_paths host q negated) _ cs e1 in
        let (rest, others, e3) =
          bind_some (direct_opposition_contradictions host q pairs) _ cs e2 in
        rw (some_inj (opposition_of host q negated base positive negative ++ rest) cs e3) at (
          All-append (RefutesNegation v propositions)
            (opposition_of host q negated base positive negative) rest
            (opposition_of-refutes q negated base positive negative reaches o ep en)
            (oppositions-refute q pairs rest reaches h others))

    pub sources-refute :
        (at_source : String → SourceSearch host) (pairs : List (String × String))
        (sources : List String) (cs : List NegationContradiction)
        → ((source : String) → Reaches (at_source source))
        → All (IsPair propositions) pairs
        → negations_from host at_source pairs sources ≡ some cs
        → All (RefutesNegation v propositions) cs
    unfolding negations_from
    sources-refute at_source pairs [] cs reaches h e = rw (← some_inj [] cs e) tt
    sources-refute at_source pairs (source ∷ sources) cs reaches h e =
        let (cycles, ec, e1) =
          bind_some (cycle_to_exclusion_contradictions host (at_source source) pairs) _ cs e in
        let (oppositions, eo, e2) =
          bind_some (direct_opposition_contradictions host (at_source source) pairs) _ cs e1 in
        let (rest, others, e3) = bind_some (negations_from host at_source pairs sources) _ cs e2 in
        rw (some_inj (cycles ++ (oppositions ++ rest)) cs e3) at (
          All-append (RefutesNegation v propositions) cycles (oppositions ++ rest)
            (cycles-refute (at_source source) pairs cycles (reaches source) h ec)
            (All-append (RefutesNegation v propositions) oppositions rest
              (oppositions-refute (at_source source) pairs oppositions (reaches source) h eo)
              (sources-refute at_source pairs sources rest reaches h others)))
