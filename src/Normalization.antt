-- ===== src/Normalization.antt =====
-- normalization.py: the implication edges of a relation.
pub mod Meaning
pub mod EdgeIds
use Prim.Native.String.{◌++◌ as text_append}
use nesy_reasoning_mcp.Prelude.{String, List, [], ◌∷◌}
use nesy_reasoning_mcp.Schemas.{
  RelationType, RelationRecord, CanonicalImplicationEdge, canonical_source, canonical_target,
}

-- An antecedent and a consequent.
pub record ImplicationPreview : Type 0 where
  pub antecedent : String
  pub consequent : String

abbrev arrow : String → String → ImplicationPreview
arrow a c = record { antecedent = a; consequent = c }

unfoldable pub normalized_implication_preview :
    String → String → RelationType → List ImplicationPreview
normalized_implication_preview source target RelationType.sufficient = arrow source target ∷ []
normalized_implication_preview source target RelationType.necessary = arrow target source ∷ []
normalized_implication_preview source target RelationType.equivalent =
    arrow source target ∷ arrow target source ∷ []

-- f"edge_{relation.id}_{suffix}"
unfoldable pub edge_name : String → String → String
edge_name id suffix = text_append "edge_" (text_append id (text_append "_" suffix))

unfoldable pub edge : RelationRecord → ImplicationPreview → String → CanonicalImplicationEdge
unfolding edge_name
edge relation preview suffix = record {
  edge_id = edge_name relation.id suffix;
  relation_id = relation.id;
  antecedent = preview.antecedent;
  consequent = preview.consequent;
  source_relation_type = relation.relation_type;
  confidence = relation.confidence;
  context_id = relation.context_id;
  store_id = relation.store_id;
  assumptions = relation.assumptions;
  temporal = relation.temporal;
}

-- zip(..., ("a", "b"), strict=False)
zip_edges : RelationRecord → List ImplicationPreview → List String → List CanonicalImplicationEdge
unfolding edge
zip_edges relation (p ∷ ps) (s ∷ ss) = edge relation p s ∷ zip_edges relation ps ss
zip_edges relation _ _ = []

unfoldable pub normalize_relation_edges : RelationRecord → List CanonicalImplicationEdge
unfolding zip_edges normalized_implication_preview
normalize_relation_edges relation =
    zip_edges relation
      (normalized_implication_preview (canonical_source relation.fields)
        (canonical_target relation.fields) relation.relation_type)
      ("a" ∷ "b" ∷ [])
