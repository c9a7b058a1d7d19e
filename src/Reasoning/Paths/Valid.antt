-- ===== src/Reasoning/Paths/Valid.antt =====
-- A path is a proof: its first proposition implies its last one wherever the relations hold.
use nesy_reasoning_mcp.Prelude.{
  ℕ, ◌≤◌, String, ◌≡◌, true, Option, some, List, [], ◌∷◌, All, Memᴰ, All-append, All-Memᴰ,
  All-of_Memᴰ, filter, Memᴰ-filter, head?, sym, ap, some_inj, ◌∙◌, Bool,
}
use nesy_reasoning_mcp.Schemas.{RelationRecord, ContextFilter, CanonicalImplicationEdge}
use nesy_reasoning_mcp.Normalization.{normalize_relation_edges}
use nesy_reasoning_mcp.Normalization.Meaning.{Valuation, Implies, Holds, EdgeHolds, normalize-Holds}
use nesy_reasoning_mcp.Reasoning.Networkx.{Host, last?}
use nesy_reasoning_mcp.Reasoning.Scope.{context_compatible}
use nesy_reasoning_mcp.Reasoning.Index.{build_graph, relation_edges}
use nesy_reasoning_mcp.Reasoning.Index.Contents.{EdgesSatisfy, build-EdgesSatisfy}
use nesy_reasoning_mcp.Reasoning.Paths.{ReasoningPath, PathQuery, find_paths}
use nesy_reasoning_mcp.Reasoning.Paths.Sound.{Along, IsSound, find_paths_sound}

module _ (v : Valuation) where
  relation_edges-EdgeHolds :
      (rs : List RelationRecord) → All (Holds v) rs → All (EdgeHolds v) (relation_edges rs)
  unfolding relation_edges
  relation_edges-EdgeHolds [] h = tt
  relation_edges-EdgeHolds (r ∷ rs) h =
      All-append (EdgeHolds v) (normalize_relation_edges r) (relation_edges rs)
        ((normalize-Holds v r).0 h.0) (relation_edges-EdgeHolds rs h.1)

  module _ (host : Host) where
    Along-Implies :
        (g : host.Graph) (m : ℕ) (u t : String) (ns : List String)
        (es : List CanonicalImplicationEdge)
        → EdgesSatisfy host (EdgeHolds v) g
        → Along host g m (u ∷ ns) es
        → last? (u ∷ ns) ≡ some t
        → Implies v u t
    unfolding EdgesSatisfy
    Along-Implies g m u t [] [] ok along ht = λ p. ap v (sym (some_inj u t ht)) ∙ p
    Along-Implies g m u t [] (_ ∷ _) ok along ht = absurd along
    Along-Implies g m u t (w ∷ ns) [] ok along ht = absurd along
    Along-Implies g m u t (w ∷ ns) (e ∷ es) ok (best, along) ht = λ p.
        let (a, c, implies) = ok u w e best.among in
        let rest = Along-Implies g m w t ns es ok along ht in
        rest (ap v (sym c) ∙ implies (ap v a ∙ p))

    IsSound-Implies :
        (g : host.Graph) (q : PathQuery) (start end : String) (ns : List String)
        (es : List CanonicalImplicationEdge)
        → EdgesSatisfy host (EdgeHolds v) g
        → head? ns ≡ some start
        → last? ns ≡ some end
        → Along host g q.min_confidence ns es
        → Implies v start end
    IsSound-Implies g q start end [] es ok hs ht along = λ _. absurd (cc)
    IsSound-Implies g q start end (u ∷ ns) es ok hs ht along = λ p.
        Along-Implies g q.min_confidence u end ns es ok along ht (ap v (some_inj u start hs) ∙ p)

    -- The relations that a filter lets through hold.
    abbrev pub HoldsUnder : List RelationRecord → Option ContextFilter → Type 0
    HoldsUnder relations f =
        (r : RelationRecord) → Memᴰ r relations → context_compatible host.iso r f ≡ true → Holds v r

    build_graph-EdgeHolds :
        (relations : List RelationRecord) (f : Option ContextFilter)
        → HoldsUnder relations f
        → EdgesSatisfy host (EdgeHolds v) (build_graph host relations f).graph
    unfolding build_graph
    build_graph-EdgeHolds relations f h =
        build-EdgesSatisfy host (EdgeHolds v) (relation_edges kept) (
          relation_edges-EdgeHolds kept (
            All-of_Memᴰ (Holds v) kept
              (λ r m. let (p, q) = (Memᴰ-filter test r relations).0 m in h r p q)))
      where
        test : RelationRecord → Bool
        test r = context_compatible host.iso r f

        kept : List RelationRecord
        kept = filter test relations

    -- If every relation that the filter lets through holds under a valuation, then for each path
    -- that `find_paths` returns, `start` implies `end` under this valuation.
    pub find_paths_valid :
        (relations : List RelationRecord) (f : Option ContextFilter) (q : PathQuery)
        (start end : String) (ps : List ReasoningPath) (p : ReasoningPath)
        → 1 ≤ q.max_depth
        → HoldsUnder relations f
        → find_paths host (build_graph host relations f) start end q ≡ some ps
        → Memᴰ p ps
        → Implies v start end
    find_paths_valid relations f q start end ps p d h r m =
        let (ps', e, sound) = find_paths_sound host relations f q start end d in
        let path =
          All-Memᴰ (IsSound host (build_graph host relations f).graph q start end) ps' sound
            (rw (some_inj ps ps' (sym r ∙ e)) at m) in
        IsSound-Implies (build_graph host relations f).graph q start end p.nodes p.edges
          (build_graph-EdgeHolds relations f h) path.starts path.ends path.along
