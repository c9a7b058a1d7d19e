-- ===== src/Reasoning/Index/Contents.antt =====
-- The edges and nodes of the graphs that `build_graph` and `search_graph` make.
use nesy_reasoning_mcp.Prelude.{
  ℕ, String, ◌≡◌, refl, ◌⊎◌, inl, inr, Bool, false, ◌&&◌, ◌||◌, List, [], ◌∷◌, foldl, arith, leb,
  any, All, Memᴰ, Memᴰ-cons, is_empty, Bool-cases, ◌==◌, text_key, ◌∙◌,
}
use mathlib.Core.List.Memᴰ
use nesy_reasoning_mcp.Schemas.{CanonicalImplicationEdge}
use nesy_reasoning_mcp.Reasoning.Networkx.{Host, put_edge}
use nesy_reasoning_mcp.Reasoning.Index.{has_edge, add_strong_edge, search_graph}

put_edge-mem :
    (e x : CanonicalImplicationEdge) (ds : List CanonicalImplicationEdge)
    → Memᴰ x (put_edge e ds)
    → (x ≡ e) ⊎ Memᴰ x ds
put_edge-mem e x [] m = Memᴰ.cases_cons m
put_edge-mem e x (d ∷ ds) m = ground (
  arith,
  Memᴰ-cons x d ds,
  Memᴰ-cons x e ds,
  Memᴰ-cons x d (put_edge e ds),
  put_edge-mem e x ds,
  m,
)

put_edge-full :
    (e : CanonicalImplicationEdge) (ds : List CanonicalImplicationEdge)
    → is_empty (put_edge e ds) ≡ false
put_edge-full e [] = refl
put_edge-full e (d ∷ ds) = ground arith

abbrev pub joins : String → String → CanonicalImplicationEdge → Bool
joins u v e = e.antecedent == u && e.consequent == v

module _ (host : Host) where
  has_edge-add_edge :
      (g : host.Graph) (e : CanonicalImplicationEdge) (u v : String)
      → has_edge host (host.add_edge g e) u v ≡ (joins u v e || has_edge host g u v)
  unfolding has_edge
  has_edge-add_edge g e u v =
      ground
        (arith, host.edges_between-add_edge g e u v, put_edge-full e (host.edges_between g u v))

  has_edge-add_strong_edge :
      (m : ℕ) (es : List CanonicalImplicationEdge) (g : host.Graph) (u v : String)
      → has_edge host (foldl (add_strong_edge host m) g es) u v
        ≡ (any (λ e. leb m e.confidence && joins u v e) es || has_edge host g u v)
  has_edge-add_strong_edge m [] g u v = refl
  has_edge-add_strong_edge m (e ∷ es) g u v = ground (
    arith,
    has_edge-add_edge g e u v,
    has_edge-add_strong_edge m es (host.add_edge g e) u v,
    has_edge-add_strong_edge m es g u v,
  )

  edges_between-add_nodes :
      (ns : List String) (g : host.Graph) (u v : String)
      → host.edges_between (foldl host.add_node g ns) u v ≡ host.edges_between g u v
  edges_between-add_nodes [] g u v = refl
  edges_between-add_nodes (n ∷ ns) g u v =
      edges_between-add_nodes ns (host.add_node g n) u v ∙ host.edges_between-add_node g n u v

  -- Every edge stands between its own end points, and all satisfy `P`.
  unfoldable pub EdgesSatisfy : (CanonicalImplicationEdge → Type 0) → host.Graph → Type 0
  EdgesSatisfy P g =
      (u v : String) (x : CanonicalImplicationEdge)
      → Memᴰ x (host.edges_between g u v)
      → (x.antecedent ≡ u) × (x.consequent ≡ v) × P x

  EdgesSatisfy-empty : (P : CanonicalImplicationEdge → Type 0) → EdgesSatisfy P host.empty
  unfolding EdgesSatisfy
  EdgesSatisfy-empty P u v x m = absurd (Memᴰ.not-nil (rw (host.edges_between-empty u v) at m))

  add_edge-mem :
      (g : host.Graph) (e : CanonicalImplicationEdge) (u v : String) (x : CanonicalImplicationEdge)
      → Memᴰ x (host.edges_between (host.add_edge g e) u v)
      → Memᴰ x (host.edges_between g u v) ⊎ ((x ≡ e) × (e.antecedent ≡ u) × (e.consequent ≡ v))
  add_edge-mem g e u v x m = elim (Bool-cases (joins u v e)) [
    | inl j ↦ ground (
      arith,
      put_edge-mem e x (host.edges_between g u v)
          (rw j at (rw (host.edges_between-add_edge g e u v) at m)),
      text_key.same_iff e.antecedent u,
      text_key.same_iff e.consequent v,
    )
    | inr j ↦ inl (rw j at (rw (host.edges_between-add_edge g e u v) at m))
  ]

  add_edge-EdgesSatisfy :
      (P : CanonicalImplicationEdge → Type 0) (g : host.Graph) (e : CanonicalImplicationEdge)
      → EdgesSatisfy P g
      → P e
      → EdgesSatisfy P (host.add_edge g e)
  unfolding EdgesSatisfy
  add_edge-EdgesSatisfy P g e h p u v x m = elim (add_edge-mem g e u v x m) [
    | inl old ↦ h u v x old
    | inr (q, a, c) ↦ rw q (a, c, p)
  ]

  pub foldl-EdgesSatisfy :
      (P : CanonicalImplicationEdge → Type 0) (es : List CanonicalImplicationEdge) (g : host.Graph)
      → EdgesSatisfy P g
      → All P es
      → EdgesSatisfy P (foldl host.add_edge g es)
  foldl-EdgesSatisfy P [] g h a = h
  foldl-EdgesSatisfy P (e ∷ es) g h a =
      foldl-EdgesSatisfy P es (host.add_edge g e) (add_edge-EdgesSatisfy P g e h a.0) a.1

  -- What `build_graph` puts into its graph.
  pub build-EdgesSatisfy :
      (P : CanonicalImplicationEdge → Type 0) (es : List CanonicalImplicationEdge)
      → All P es
      → EdgesSatisfy P (foldl host.add_edge host.empty es)
  build-EdgesSatisfy P es = foldl-EdgesSatisfy P es host.empty (EdgesSatisfy-empty P)

  pub search-edge :
      (g : host.Graph) (m : ℕ) (u v : String)
      → leb m 0 ≡ false
      → has_edge host (search_graph host g m) u v
        ≡ any (λ e. leb m e.confidence && joins u v e) (host.edges g)
  unfolding search_graph has_edge
  search-edge g m u v h = ground (
    arith,
    has_edge-add_strong_edge m (host.edges g) (foldl host.add_node host.empty (host.nodes g)) u v,
    edges_between-add_nodes (host.nodes g) host.empty u v,
    host.edges_between-empty u v,
  )
