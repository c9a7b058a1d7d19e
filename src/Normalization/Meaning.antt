-- ===== src/Normalization/Meaning.antt =====
-- The edges of a relation say what the relation says.
use nesy_reasoning_mcp.Prelude.{String, ◌≡◌, ◌↔◌, Bool, true, [], ◌∷◌, All}
use nesy_reasoning_mcp.Schemas.{
  RelationType, RelationRecord, CanonicalImplicationEdge, canonical_source, canonical_target,
}
use nesy_reasoning_mcp.Normalization.{
  zip_edges, normalized_implication_preview, normalize_relation_edges,
}

-- Which propositions are true.
abbrev pub Valuation : Type 0
Valuation = String → Bool

abbrev pub Implies : Valuation → String → String → Type 0
Implies v a c = v a ≡ true → v c ≡ true

-- What a relation of each type claims of its two propositions.
abbrev pub Claims : Valuation → String → String → RelationType → Type 0
Claims v s t RelationType.sufficient = Implies v s t
Claims v s t RelationType.necessary = Implies v t s
Claims v s t RelationType.equivalent = (v s ≡ true) ↔ (v t ≡ true)

abbrev pub Holds : Valuation → RelationRecord → Type 0
Holds v r = Claims v (canonical_source r.fields) (canonical_target r.fields) r.relation_type

abbrev pub EdgeHolds : Valuation → CanonicalImplicationEdge → Type 0
EdgeHolds v e = Implies v e.antecedent e.consequent

module _ (v : Valuation) (r : RelationRecord) where
  zip_edges-Claims :
      (s t : String) (k : RelationType)
      → Claims v s t k
        ↔ All (EdgeHolds v) (zip_edges r (normalized_implication_preview s t k) ("a" ∷ "b" ∷ []))
  unfolding zip_edges normalized_implication_preview
  zip_edges-Claims s t RelationType.sufficient = (λ h. (h, tt), λ h. h.0)
  zip_edges-Claims s t RelationType.necessary = (λ h. (h, tt), λ h. h.0)
  zip_edges-Claims s t RelationType.equivalent = (λ h. (h.0, (h.1, tt)), λ h. (h.0, h.1.0))

  -- Under every valuation a relation holds exactly if all of its implication edges hold.
  pub normalize-Holds : Holds v r ↔ All (EdgeHolds v) (normalize_relation_edges r)
  unfolding normalize_relation_edges
  normalize-Holds =
      zip_edges-Claims (canonical_source r.fields) (canonical_target r.fields) r.relation_type
