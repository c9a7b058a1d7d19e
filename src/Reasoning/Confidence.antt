-- ===== src/Reasoning/Confidence.antt =====
-- reasoning.py: confidence of paths. A float product is the parameter `mul`.
use nesy_reasoning_mcp.Prelude.{ℕ, Option, some, none, List, [], ◌∷◌, map, ltb, if◌then◌else◌}
use nesy_reasoning_mcp.Schemas.{CanonicalImplicationEdge, ConfidencePolicy, full_confidence}

-- min(values) of a list that is not empty
abbrev min_of : ℕ → List ℕ → ℕ
min_of m [] = m
min_of m (v ∷ vs) = min_of (if ltb v m then v else m) vs

abbrev min_or_full : List ℕ → ℕ
min_or_full [] = full_confidence
min_or_full (v ∷ vs) = min_of v vs

module _ (mul : ℕ → ℕ → ℕ) where
  -- result = 1.0; for value in values: result *= value
  abbrev product_from : ℕ → List ℕ → ℕ
  product_from result [] = result
  product_from result (v ∷ vs) = product_from (mul result v) vs

  unfoldable pub rank_confidence : List CanonicalImplicationEdge → ℕ
  rank_confidence edges = product_from full_confidence (map (λ e. e.confidence) edges)

  unfoldable pub aggregate_confidence : List CanonicalImplicationEdge → ConfidencePolicy → Option ℕ
  aggregate_confidence edges ConfidencePolicy.no_aggregation = none
  aggregate_confidence edges ConfidencePolicy.min =
      some (min_or_full (map (λ e. e.confidence) edges))
  aggregate_confidence edges ConfidencePolicy.product_independent =
      some (product_from full_confidence (map (λ e. e.confidence) edges))
