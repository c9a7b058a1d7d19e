-- ===== src/Reasoning/Chain.antt =====
-- reasoning.py: `verify_explicit_chain`.
pub mod Exact
use Prim.Native.String.{◌++◌ as text_append}
use nesy_reasoning_mcp.Prelude.{
  ℕ, suc, String, Bool, true, false, Option, some, none, List, [], ◌∷◌,
}
use nesy_reasoning_mcp.Schemas.{CanonicalImplicationEdge, ConfidencePolicy, RelationType}
use nesy_reasoning_mcp.Reasoning.Networkx.{Host}
use nesy_reasoning_mcp.Reasoning.Confidence.{aggregate_confidence}
use nesy_reasoning_mcp.Reasoning.Index.{best_direct_edge}
use nesy_reasoning_mcp.Reasoning.Paths.{ReasoningPath}

pub record BrokenChain : Type 0 where
  pub index : ℕ
  pub from_node : String
  pub to_node : String
  pub reason : String
  pub direction_mismatch : Bool

-- The loop over adjacent pairs ends with all edges, or returns early at a broken pair.
pub data ChainEdges : Type 0 where
  complete : List CanonicalImplicationEdge → ChainEdges
  broken : BrokenChain → ChainEdges

-- What the method returns: one of its two results is None.
pub data ChainResult : Type 0 where
  verified : ReasoningPath → ChainResult
  failed : BrokenChain → ChainResult

-- An f-string.
text_concat : List String → String
text_concat [] = ""
text_concat (s ∷ ss) = text_append s (text_concat ss)

unfoldable pub relation_type_value : RelationType → String
relation_type_value RelationType.sufficient = "sufficient"
relation_type_value RelationType.necessary = "necessary"
relation_type_value RelationType.equivalent = "equivalent"

mismatch_reason : String → String → CanonicalImplicationEdge → String
unfolding text_concat relation_type_value
mismatch_reason left right reverse = text_concat (
    "No implication edge "
    ∷ left
    ∷ " -> "
    ∷ right
    ∷ " exists. Existing relation "
    ∷ relation_type_value reverse.source_relation_type
    ∷ " maps to "
    ∷ right
    ∷ " -> "
    ∷ left
    ∷ ", not "
    ∷ left
    ∷ " -> "
    ∷ right
    ∷ "."
    ∷ [])

missing_reason : String → String → String
unfolding text_concat
missing_reason left right =
    text_concat ("No implication edge " ∷ left ∷ " -> " ∷ right ∷ " exists." ∷ [])

-- the two early returns; the second argument is the edge in the other direction
broken_pair : ℕ → String → String → Option CanonicalImplicationEdge → BrokenChain
unfolding mismatch_reason missing_reason
broken_pair index left right (some reverse) = record {
  index = index;
  from_node = left;
  to_node = right;
  reason = mismatch_reason left right reverse;
  direction_mismatch = true;
}
broken_pair index left right none = record {
  index = index;
  from_node = left;
  to_node = right;
  reason = missing_reason left right;
  direction_mismatch = false;
}

add_edge : CanonicalImplicationEdge → ChainEdges → ChainEdges
add_edge e (complete es) = complete (e ∷ es)
add_edge e (broken b) = broken b

module _ (host : Host) where
  unfoldable pub chain_edges : host.Graph → ℕ → ℕ → List String → ChainEdges
  unfolding broken_pair add_edge
  chain_edges graph m index [] = complete []
  chain_edges graph m index (left ∷ []) = complete []
  chain_edges graph m index (left ∷ right ∷ rest) =
      elim (best_direct_edge host graph m left right) [
        | some edge ↦ add_edge edge (chain_edges graph m (suc index) (right ∷ rest))
        | none ↦ broken (broken_pair index left right (best_direct_edge host graph m right left))
      ]

  chain_result : ConfidencePolicy → List String → ChainEdges → ChainResult
  chain_result policy chain (broken b) = failed b
  chain_result policy chain (complete edges) = verified (record {
    nodes = chain;
    edges = edges;
    evidence_confidence = aggregate_confidence host.mul edges policy;
    confidence_policy = policy;
  })

  unfoldable pub verify_explicit_chain :
      host.Graph → List String → ConfidencePolicy → ℕ → ChainResult
  unfolding chain_edges chain_result
  verify_explicit_chain graph chain policy m =
      chain_result policy chain (chain_edges graph m 0 chain)
