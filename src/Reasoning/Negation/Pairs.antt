-- ===== src/Reasoning/Negation/Pairs.antt =====
-- What a pair of a node and its negation says, and what a contradiction refutes.
use nesy_reasoning_mcp.Prelude.{
  String, ◌≡◌, refl, true, ◌⊎◌, inl, inr, Option, some, none, List, [], ◌∷◌, ◌++◌, All, All-append,
  All-Memᴰ, All-of_Memᴰ, Memᴰ, Bool-cases, Option-cases, if◌then◌else◌, sort_by, Memᴰ-sort_by,
  pair_le, text_key, pair_key, list_key, ◌&&◌, contains, dedupe, dedupe-All, concat_map,
  All-concat_map,
}
use nesy_reasoning_mcp.Schemas.{PropositionRecord}
use nesy_reasoning_mcp.Normalization.Meaning.{Valuation}
use nesy_reasoning_mcp.Reasoning.Negation.{
  NegationContradiction, explicit_negation_base, declared_pair, spelled_pair,
  negation_pairs_for_nodes,
}

-- The first text is a negation of the second: a proposition says so, or its own spelling does.
abbrev pub Opposed : List PropositionRecord → String → String → Type 0
Opposed propositions negated base =
    ((p : PropositionRecord) × Memᴰ p propositions × (p.id ≡ negated) × (p.negates ≡ some base))
    ⊎ (explicit_negation_base negated ≡ some base)

-- No text is true together with a negation of it.
abbrev pub Respects : Valuation → List PropositionRecord → Type 0
Respects v propositions =
    (negated base : String)
    → Opposed propositions negated base
    → v negated ≡ true
    → ¬ (v base ≡ true)

module _ (v : Valuation) (propositions : List PropositionRecord) where
  -- What a reported contradiction proves.
  pub record RefutesNegation (c : NegationContradiction) : Type 0 where
    pub refuted : ¬ (v c.source ≡ true)
    pub base : String
    pub negated : String
    pub opposed : Opposed propositions negated base
    pub named : c.targets ≡ base ∷ negated ∷ []

module _ (propositions : List PropositionRecord) where
  abbrev pub IsPair : String × String → Type 0
  IsPair pair = Opposed propositions pair.0 pair.1

  declared_pair-IsPair :
      (nodes : List String) (p : PropositionRecord)
      → Memᴰ p propositions
      → All IsPair (declared_pair nodes p)
  unfolding declared_pair
  declared_pair-IsPair nodes p m = elim (Option-cases p.negates) [
    | inl e ↦ rw e tt
    | inr (base, e) ↦ rw e (elim (Bool-cases (contains nodes p.id && contains nodes base)) [
      | inl b ↦ rw b (inl (p, m, refl, e), tt)
      | inr b ↦ rw b tt
    ])
  ]

  spelled_pair-IsPair : (nodes : List String) (node : String) → All IsPair (spelled_pair nodes node)
  unfolding spelled_pair
  spelled_pair-IsPair nodes node = go (explicit_negation_base node) (λ base e. inr e)
    where
      go :
          (o : Option String)
          → ((base : String) → o ≡ some base → Opposed propositions node base)
          → All IsPair (elim o [
            | none ↦ []
            | some base ↦ if contains nodes base then (node, base) ∷ [] else []
          ])
      go none h = tt
      go (some base) h = elim (Bool-cases (contains nodes base)) [
        | inl b ↦ rw b (h base refl, tt)
        | inr b ↦ rw b tt
      ]

  pub pairs-IsPair :
      (nodes : List String) → All IsPair (negation_pairs_for_nodes nodes propositions)
  unfolding negation_pairs_for_nodes
  pairs-IsPair nodes =
      let declared = concat_map (declared_pair nodes) propositions in
      let spelled = concat_map (spelled_pair nodes) nodes in
      let whole : All IsPair (declared ++ spelled) =
        All-append IsPair declared spelled
          (All-concat_map (declared_pair nodes) IsPair propositions (declared_pair-IsPair nodes))
          (All-concat_map (spelled_pair nodes) IsPair nodes
            (λ node _. spelled_pair-IsPair nodes node)) in
      All-of_Memᴰ IsPair (sort_by pair_le (dedupe (declared ++ spelled))) (λ pair m.
        All-Memᴰ IsPair (dedupe (declared ++ spelled))
          (dedupe-All IsPair (declared ++ spelled) whole)
          ((Memᴰ-sort_by pair_le pair (dedupe (declared ++ spelled))).0 m))
