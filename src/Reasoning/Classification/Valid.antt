-- ===== src/Reasoning/Classification/Valid.antt =====
-- What a classification says is true wherever the relations hold.
use nesy_reasoning_mcp.Prelude.{
  ◌≤◌, String, ◌≡◌, refl, ◌↔◌, ◌⊎◌, true, inl, inr, some, List, [], ◌∷◌, Memᴰ, Option,
}
use mathlib.Core.Bool.{false≢true}
use nesy_reasoning_mcp.Schemas.{Classification, ExpectedRelation, RelationRecord, ContextFilter}
use nesy_reasoning_mcp.Normalization.Meaning.{Valuation, Implies}
use nesy_reasoning_mcp.Reasoning.Networkx.{Host}
use nesy_reasoning_mcp.Reasoning.Index.{build_graph}
use nesy_reasoning_mcp.Reasoning.Paths.{ReasoningPath, PathQuery, find_paths}
use nesy_reasoning_mcp.Reasoning.Paths.Valid.{HoldsUnder, find_paths_valid}
use nesy_reasoning_mcp.Reasoning.Classification.{classify_reachability, expected_relation_matches}

-- What a classification of two propositions says of them. `unknown` says nothing, and reachability
-- alone never gives `contradictory`.
abbrev pub Says : Valuation → String → String → Classification → Type 0
Says v s t Classification.sufficient = Implies v s t
Says v s t Classification.necessary = Implies v t s
Says v s t Classification.equivalent = (v s ≡ true) ↔ (v t ≡ true)
Says v s t Classification.unknown = Unit
Says v s t Classification.contradictory = ⊥

abbrev pub Expected : Valuation → String → String → ExpectedRelation → Type 0
Expected v s t ExpectedRelation.sufficient = Implies v s t
Expected v s t ExpectedRelation.necessary = Implies v t s
Expected v s t ExpectedRelation.equivalent = (v s ≡ true) ↔ (v t ≡ true)
Expected v s t ExpectedRelation.any = Implies v s t ⊎ Implies v t s

module _ (v : Valuation) (s t : String) where
  Says-classify :
      (fwd rev : List ReasoningPath)
      → ((p : ReasoningPath) → Memᴰ p fwd → Implies v s t)
      → ((p : ReasoningPath) → Memᴰ p rev → Implies v t s)
      → Says v s t (classify_reachability fwd rev)
  unfolding classify_reachability
  Says-classify [] [] f r = tt
  Says-classify (p ∷ ps) [] f r = f p (Memᴰ.head refl)
  Says-classify [] (p ∷ ps) f r = r p (Memᴰ.head refl)
  Says-classify (p ∷ ps) (q ∷ qs) f r = (f p (Memᴰ.head refl), r q (Memᴰ.head refl))

  Says-Expected :
      (c : Classification) (e : ExpectedRelation)
      → expected_relation_matches e c ≡ true
      → Says v s t c
      → Expected v s t e
  unfolding expected_relation_matches
  Says-Expected Classification.sufficient ExpectedRelation.any h says = inl says
  Says-Expected Classification.necessary ExpectedRelation.any h says = inr says
  Says-Expected Classification.equivalent ExpectedRelation.any h says = inl says.0
  Says-Expected Classification.sufficient ExpectedRelation.sufficient h says = says
  Says-Expected Classification.equivalent ExpectedRelation.sufficient h says = says.0
  Says-Expected Classification.necessary ExpectedRelation.necessary h says = says
  Says-Expected Classification.equivalent ExpectedRelation.necessary h says = says.1
  Says-Expected Classification.equivalent ExpectedRelation.equivalent h says = says
  Says-Expected Classification.unknown ExpectedRelation.any h says = absurd (false≢true h)
  Says-Expected Classification.unknown ExpectedRelation.sufficient h says = absurd (false≢true h)
  Says-Expected Classification.contradictory _ h says = absurd says
  Says-Expected _ _ h says = absurd (false≢true h)

module _ (host : Host) (v : Valuation) where
  -- Where the relations that the filter lets through hold, the classification of two propositions by
  -- the paths that `find_paths` returned in the two directions is true of them, and so is any
  -- expected relation that the classification matches.
  pub classification_valid :
      (relations : List RelationRecord) (f : Option ContextFilter) (q : PathQuery) (s t : String)
      (fwd rev : List ReasoningPath)
      → 1 ≤ q.max_depth
      → HoldsUnder v host relations f
      → find_paths host (build_graph host relations f) s t q ≡ some fwd
      → find_paths host (build_graph host relations f) t s q ≡ some rev
      → Says v s t (classify_reachability fwd rev)
        × ((e : ExpectedRelation)
            → expected_relation_matches e (classify_reachability fwd rev) ≡ true
            → Expected v s t e)
  classification_valid relations f q s t fwd rev d h p r =
      let says =
        Says-classify v s t fwd rev (λ x. find_paths_valid v host relations f q s t fwd x d h p)
          (λ x. find_paths_valid v host relations f q t s rev x d h r) in
      (says, λ e m. Says-Expected v s t (classify_reachability fwd rev) e m says)
