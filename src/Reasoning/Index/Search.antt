-- ===== src/Reasoning/Index/Search.antt =====
-- The search graph has an edge exactly where the index has one that is strong enough.
use nesy_reasoning_mcp.Prelude.{
  ℕ, ◌≤◌, String, ◌≡◌, refl, inl, inr, true, ◌&&◌, arith, leb, any, Memᴰ, Bool-cases, text_key,
  leb→le, le→leb, &&_iff, any-eq-true, any_of_Memᴰ, List-cases, ◌↔◌, Option, some, none,
}
use mathlib.Core.List.Memᴰ
use nesy_reasoning_mcp.Schemas.{CanonicalImplicationEdge}
use nesy_reasoning_mcp.Reasoning.Networkx.{Host}
use nesy_reasoning_mcp.Reasoning.Index.{has_edge, best_direct_edge, search_graph}
use nesy_reasoning_mcp.Reasoning.Index.Contents.{EdgesSatisfy, joins, search-edge}
use nesy_reasoning_mcp.Reasoning.Index.Direct.{IsStrongest, Answers, best_direct_edge-Answers}

joins_ends :
    (u v : String) (e : CanonicalImplicationEdge)
    → joins u v e ≡ true
    → (e.antecedent ≡ u) × (e.consequent ≡ v)
joins_ends u v e h =
    ground (arith, text_key.same_iff e.antecedent u, text_key.same_iff e.consequent v)

module _ (host : Host) where
  -- Each edge of the graph stands between its own end points.
  abbrev pub IsPlaced : host.Graph → Type 0
  IsPlaced = EdgesSatisfy host (λ _. Unit)

  -- Some edge from `u` to `v` is strong enough.
  abbrev pub StrongEdge : host.Graph → ℕ → String → String → Type 0
  StrongEdge g m u v =
      (e : CanonicalImplicationEdge) × Memᴰ e (host.edges_between g u v) × (m ≤ e.confidence)

  has_edge-StrongEdge :
      (g : host.Graph) (u v : String) → has_edge host g u v ≡ true → StrongEdge g 0 u v
  unfolding has_edge
  has_edge-StrongEdge g u v h = elim (List-cases (host.edges_between g u v)) [
    | inl e ↦ absurd (ground arith)
    | inr (x, rest, e) ↦ (x, rw e (Memᴰ.head refl), omega arith)
  ]

  StrongEdge-has_edge :
      (g : host.Graph) (u v : String) (m : ℕ) → StrongEdge g m u v → has_edge host g u v ≡ true
  unfolding has_edge
  StrongEdge-has_edge g u v m (e, p, q) = elim (List-cases (host.edges_between g u v)) [
    | inl z ↦ absurd (Memᴰ.not-nil (rw z at p))
    | inr (x, rest, z) ↦ rw z refl
  ]

  search_graph-zero : (g : host.Graph) (m : ℕ) → leb m 0 ≡ true → search_graph host g m ≡ g
  unfolding search_graph
  search_graph-zero g m z = rw z

  at_ends :
      (g : host.Graph) (e : CanonicalImplicationEdge) (u v : String)
      → (e.antecedent ≡ u) × (e.consequent ≡ v)
      → host.edges_between g e.antecedent e.consequent ≡ host.edges_between g u v
  at_ends g e u v (a, c) = cc

  any-StrongEdge :
      (g : host.Graph) (m : ℕ) (u v : String)
      → IsPlaced g
      → (any (λ e. leb m e.confidence && joins u v e) (host.edges g) ≡ true) ↔ StrongEdge g m u v
  unfolding EdgesSatisfy
  any-StrongEdge g m u v placed = (
    λ h.
        let (e, p, q) = any-eq-true (λ e. leb m e.confidence && joins u v e) (host.edges g) h in
        let (q₁, q₂) = (&&_iff (leb m e.confidence) (joins u v e)).0 q in
        (
          e,
          rw (at_ends g e u v (joins_ends u v e q₂)) at ((host.edges-mem g e).0 p),
          leb→le m e.confidence q₁,
        ),
    λ (e, p, q).
        let (a, c, _) = placed u v e p in
        any_of_Memᴰ (λ e. leb m e.confidence && joins u v e) (host.edges g)
          ((host.edges-mem g e).1 (rw (at_ends g e u v (a, c)) p))
          (ground (
            arith,
            le→leb m e.confidence q,
            text_key.same_iff e.antecedent u,
            text_key.same_iff e.consequent v,
          )),
  )

  -- The search graph joins two nodes exactly if some edge between them is strong enough.
  pub search_graph-StrongEdge :
      (g : host.Graph) (m : ℕ) (u v : String)
      → IsPlaced g
      → (has_edge host (search_graph host g m) u v ≡ true) ↔ StrongEdge g m u v
  search_graph-StrongEdge g m u v placed = elim (Bool-cases (leb m 0)) [
    | inl z ↦ rw (search_graph-zero g m z) (
      λ h. let (e, p, q) = has_edge-StrongEdge g u v h in (e, p, ground arith),
      StrongEdge-has_edge g u v m,
    )
    | inr z ↦ rw (search-edge host g m u v z) (any-StrongEdge g m u v placed)
  ]

  -- Between the ends of an edge of the search graph `best_direct_edge` finds an edge.
  pub best_direct_edge_found :
      (g : host.Graph) (m : ℕ) (u v : String)
      → StrongEdge g m u v
      → (e : CanonicalImplicationEdge) × (best_direct_edge host g m u v ≡ some e)
        × IsStrongest m (host.edges_between g u v) e
  best_direct_edge_found g m u v (d, p, q) =
      go (best_direct_edge host g m u v) refl (best_direct_edge-Answers host g m u v)
    where
      go :
          (o : Option CanonicalImplicationEdge)
          → best_direct_edge host g m u v ≡ o
          → Answers m (host.edges_between g u v) o
          → (e : CanonicalImplicationEdge) × (best_direct_edge host g m u v ≡ some e)
            × IsStrongest m (host.edges_between g u v) e
      go none z a = absurd (let l = a d p in omega arith)
      go (some e) z a = (e, z, a)
