-- ===== src/Reasoning/Networkx.antt =====
-- What the reasoning code uses of networkx and of the host: a multigraph whose edges are kept by
-- key, two path searches, the product of two floats and the ISO date parser. None of it is code of
-- the repository: it is a parameter, with the documented behaviour that the proofs rest on.
use nesy_reasoning_mcp.Prelude.{
  ℕ, suc, ◌≤◌, String, ◌≡◌, Bool, true, false, ◌↔◌, not, ◌&&◌, ◌||◌, Option, some, none, List, [],
  ◌∷◌, Memᴰ, ◌==◌, text_key, if◌then◌else◌, is_empty, head?, length, contains,
}
use nesy_reasoning_mcp.Schemas.{CanonicalImplicationEdge}
use nesy_reasoning_mcp.TimeUtils.{Datetime}

abbrev pub last? {ℓ} : {A : Type ℓ} → List A → Option A
last? [] = none
last? (x ∷ []) = some x
last? (x ∷ y ∷ xs) = last? (y ∷ xs)

-- Each two neighbours of the list are related.
abbrev pub Linked {ℓ κ} : {A : Type ℓ} → (A → A → Type κ) → List A → Type κ
Linked R [] = Unit
Linked R (x ∷ []) = Unit
Linked R (x ∷ y ∷ xs) = R x y × Linked R (y ∷ xs)

pub record IsWalk (edge? : String → String → Bool) (start end : String) (nodes : List String)
    : Type 0 where
  pub starts : head? nodes ≡ some start
  pub ends : last? nodes ≡ some end
  pub linked : Linked (λ u v. edge? u v ≡ true) nodes

-- A new edge with the key of an old one between the same nodes takes its place.
abbrev pub put_edge :
    CanonicalImplicationEdge → List CanonicalImplicationEdge → List CanonicalImplicationEdge
put_edge e [] = e ∷ []
put_edge e (d ∷ ds) = if d.edge_id == e.edge_id then e ∷ ds else d ∷ put_edge e ds

pub record Networkx : Type 1 where
  pub Graph : Type 0
  pub empty : Graph
  pub add_node : Graph → String → Graph
  -- add_edge(e.antecedent, e.consequent, key=e.edge_id, edge=e, weight=edge_weight(e))
  pub add_edge : Graph → CanonicalImplicationEdge → Graph
  pub nodes : Graph → List String
  -- the "edge" entries of edges(keys=True, data=True)
  pub edges : Graph → List CanonicalImplicationEdge
  -- the "edge" entries of get_edge_data(u, v, default={}).values(); none if has_edge(u, v) fails
  pub edges_between : Graph → String → String → List CanonicalImplicationEdge
  -- shortest_path(graph, start, end, weight="weight" or None); none is NetworkXNoPath
  pub shortest_path : Graph → String → String → Bool → Option (List String)
  pub all_simple_paths : Graph → String → String → ℕ → List (List String)
  pub edges_between-empty : (u v : String) → edges_between empty u v ≡ []
  pub edges_between-add_node :
      (g : Graph) (n u v : String) → edges_between (add_node g n) u v ≡ edges_between g u v
  pub edges_between-add_edge :
      (g : Graph) (e : CanonicalImplicationEdge) (u v : String)
      → edges_between (add_edge g e) u v ≡ (
          if e.antecedent == u && e.consequent == v
          then put_edge e (edges_between g u v)
          else edges_between g u v)
  pub edges-mem :
      (g : Graph) (e : CanonicalImplicationEdge)
      → Memᴰ e (edges g) ↔ Memᴰ e (edges_between g e.antecedent e.consequent)
  pub nodes-empty : (n : String) → contains (nodes empty) n ≡ false
  pub nodes-add_node :
      (g : Graph) (m n : String)
      → contains (nodes (add_node g m)) n ≡ (n == m || contains (nodes g) n)
  pub nodes-add_edge :
      (g : Graph) (e : CanonicalImplicationEdge) (n : String)
      → contains (nodes (add_edge g e)) n
        ≡ (n == e.antecedent || (n == e.consequent || contains (nodes g) n))
  pub shortest_path-IsWalk :
      (g : Graph) (start end : String) (weighted : Bool) (path : List String)
      → shortest_path g start end weighted ≡ some path
      → IsWalk (λ u v. not (is_empty (edges_between g u v))) start end path
  pub all_simple_paths-IsWalk :
      (g : Graph) (start end : String) (cutoff : ℕ) (path : List String)
      → Memᴰ path (all_simple_paths g start end cutoff)
      → IsWalk (λ u v. not (is_empty (edges_between g u v))) start end path
        × (length path ≤ suc cutoff)

pub record Host : Type 1 where
  pub nx : Networkx
  pub open nx use *
  -- the product of two floats
  pub mul : ℕ → ℕ → ℕ
  -- datetime.fromisoformat(value.replace("Z", "+00:00"))
  pub iso : String → Datetime
