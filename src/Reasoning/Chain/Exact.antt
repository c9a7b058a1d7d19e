-- ===== src/Reasoning/Chain/Exact.antt =====
-- `verify_explicit_chain` verifies exactly the chains whose neighbours all have a strong edge.
use nesy_reasoning_mcp.Prelude.{
  ℕ, suc, ◌+◌, String, ◌≡◌, refl, ◌↔◌, true, Option, some, none, List, [], ◌∷◌, arith, get_elem?,
  take,
}
use nesy_reasoning_mcp.Schemas.{CanonicalImplicationEdge, ConfidencePolicy}
use nesy_reasoning_mcp.Reasoning.Networkx.{Host, Linked}
use nesy_reasoning_mcp.Reasoning.Confidence.{aggregate_confidence}
use nesy_reasoning_mcp.Reasoning.Index.{best_direct_edge}
use nesy_reasoning_mcp.Reasoning.Index.Direct.{IsStrongest, Answers, best_direct_edge-Answers}
use nesy_reasoning_mcp.Reasoning.Index.Search.{StrongEdge}
use nesy_reasoning_mcp.Reasoning.Paths.Sound.{Along}
use nesy_reasoning_mcp.Reasoning.Chain.{
  BrokenChain, ChainEdges, complete, broken, ChainResult, verified, failed, broken_pair, add_edge,
  chain_edges, chain_result, verify_explicit_chain,
}

module _ (host : Host) (g : host.Graph) (m : ℕ) where
  -- The first pair of the chain with no strong edge, counted from `i`.
  pub record IsFirstBreak (i : ℕ) (chain : List String) (b : BrokenChain) : Type 0 where
    pub offset : ℕ
    pub index : b.index ≡ i + offset
    pub from_node : get_elem? chain offset ≡ some b.from_node
    pub to_node : get_elem? chain (suc offset) ≡ some b.to_node
    pub before : Linked (StrongEdge host g m) (take (suc offset) chain)
    pub missing : ¬ StrongEdge host g m b.from_node b.to_node
    pub reversed : (b.direction_mismatch ≡ true) ↔ StrongEdge host g m b.to_node b.from_node

  abbrev Verdict : ℕ → List String → ChainEdges → Type 0
  Verdict i chain (complete es) = Along host g m chain es
  Verdict i chain (broken b) = IsFirstBreak i chain b

  no_edge : (u v : String) → Answers m (host.edges_between g u v) none → ¬ StrongEdge host g m u v
  no_edge u v a (e, p, q) = let l = a e p in omega arith

  IsStrongest-StrongEdge :
      (u v : String) (e : CanonicalImplicationEdge)
      → IsStrongest m (host.edges_between g u v) e
      → StrongEdge host g m u v
  IsStrongest-StrongEdge u v e h = (e, h.among, h.strong)

  broken_pair-IsFirstBreak :
      (i : ℕ) (u v : String) (rest : List String) (o : Option CanonicalImplicationEdge)
      → ¬ StrongEdge host g m u v
      → Answers m (host.edges_between g v u) o
      → IsFirstBreak i (u ∷ v ∷ rest) (broken_pair i u v o)
  unfolding broken_pair
  broken_pair-IsFirstBreak i u v rest (some e) miss a = record {
    offset = 0;
    index = omega arith;
    from_node = refl;
    to_node = refl;
    before = tt;
    missing = miss;
    reversed = (λ _. IsStrongest-StrongEdge v u e a, λ _. refl);
  }
  broken_pair-IsFirstBreak i u v rest none miss a = record {
    offset = 0;
    index = omega arith;
    from_node = refl;
    to_node = refl;
    before = tt;
    missing = miss;
    reversed = (λ h. cc, λ s. absurd (no_edge v u a s));
  }

  later-IsFirstBreak :
      (i : ℕ) (u v : String) (rest : List String) (b : BrokenChain)
      → StrongEdge host g m u v
      → IsFirstBreak (suc i) (v ∷ rest) b
      → IsFirstBreak i (u ∷ v ∷ rest) b
  later-IsFirstBreak i u v rest b s h = record {
    offset = suc h.offset;
    index = let e = h.index in omega arith;
    from_node = h.from_node;
    to_node = h.to_node;
    before = (s, h.before);
    missing = h.missing;
    reversed = h.reversed;
  }

  add_edge-Verdict :
      (i : ℕ) (u v : String) (rest : List String) (e : CanonicalImplicationEdge) (r : ChainEdges)
      → IsStrongest m (host.edges_between g u v) e
      → Verdict (suc i) (v ∷ rest) r
      → Verdict i (u ∷ v ∷ rest) (add_edge e r)
  unfolding add_edge
  add_edge-Verdict i u v rest e (complete es) a h = (a, h)
  add_edge-Verdict i u v rest e (broken b) a h =
      later-IsFirstBreak i u v rest b (IsStrongest-StrongEdge u v e a) h

  pair-Verdict :
      (i : ℕ) (u v : String) (rest : List String) (o : Option CanonicalImplicationEdge)
      → Answers m (host.edges_between g u v) o
      → (r : ChainEdges) → Verdict (suc i) (v ∷ rest) r
      → Verdict i (u ∷ v ∷ rest) (elim o [
        | some e ↦ add_edge e r
        | none ↦ broken (broken_pair i u v (best_direct_edge host g m v u))
      ])
  pair-Verdict i u v rest (some e) a r h = add_edge-Verdict i u v rest e r a h
  pair-Verdict i u v rest none a r h =
      broken_pair-IsFirstBreak i u v rest _ (no_edge u v a) (best_direct_edge-Answers host g m v u)

  chain_edges-Verdict :
      (i : ℕ) (chain : List String) → Verdict i chain (chain_edges host g m i chain)
  unfolding chain_edges
  chain_edges-Verdict i [] = tt
  chain_edges-Verdict i (u ∷ []) = tt
  chain_edges-Verdict i (u ∷ v ∷ rest) =
      pair-Verdict i u v rest (best_direct_edge host g m u v)
        (best_direct_edge-Answers host g m u v) (chain_edges host g m (suc i) (v ∷ rest))
        (chain_edges-Verdict (suc i) (v ∷ rest))

  -- What each of the two results promises.
  abbrev pub ChainVerdict : List String → ConfidencePolicy → ChainResult → Type 0
  ChainVerdict chain policy (verified p) =
      (p.nodes ≡ chain)
      × Along host g m chain p.edges
      × (p.evidence_confidence ≡ aggregate_confidence host.mul p.edges policy)
  ChainVerdict chain policy (failed b) = IsFirstBreak 0 chain b

  -- A verified path has the chain as its nodes, joined by strongest edges that are strong enough,
  -- and the confidence aggregated from them. A failure names the first pair of neighbours with no
  -- edge that is strong enough, by its index and its nodes, and reports a direction mismatch exactly
  -- if there is such an edge the other way.
  pub verify_explicit_chain_exact :
      (chain : List String) (policy : ConfidencePolicy)
      → ChainVerdict chain policy (verify_explicit_chain host g chain policy m)
  unfolding verify_explicit_chain
  verify_explicit_chain_exact chain policy =
      go (chain_edges host g m 0 chain) (chain_edges-Verdict 0 chain)
    where
      go :
          (r : ChainEdges)
          → Verdict 0 chain r
          → ChainVerdict chain policy (chain_result host policy chain r)
      go (complete es) h = (refl, h, refl)
      go (broken b) h = h
