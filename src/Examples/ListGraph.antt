-- ===== src/Examples/ListGraph.antt =====
-- A multigraph as two lists, with path searches that list all walks: what networkx promises can be
-- kept.
use nesy_reasoning_mcp.Prelude.{
  ℕ, zero, suc, ◌≤◌, String, ◌≡◌, refl, ◌↔◌, inl, inr, Bool, true, not, ◌&&◌, Option, some, List,
  [], ◌∷◌, ◌++◌, arith, map, sym, leb, filter, contains, length, head?, is_empty, if◌then◌else◌,
  ◌==◌, text_key, Memᴰ, Memᴰ-filter, same_refl, Bool-cases, ap, sym, leb, same→eq, &&_iff, some_inj,
}
use mathlib.Core.List.Memᴰ
use nesy_reasoning_mcp.Schemas.{CanonicalImplicationEdge}
use nesy_reasoning_mcp.TimeUtils.{naive}
use nesy_reasoning_mcp.Reasoning.Networkx.{Networkx, Host, IsWalk, put_edge}
use nesy_reasoning_mcp.Reasoning.Index.Contents.{joins}

pub record ListGraph : Type 0 where
  pub vertices : List String
  pub arcs : List CanonicalImplicationEdge

abbrev pub add_node : ListGraph → String → ListGraph
add_node g n = record g { vertices = n ∷ g.vertices }

abbrev pub put_arc :
    CanonicalImplicationEdge → List CanonicalImplicationEdge → List CanonicalImplicationEdge
put_arc e [] = e ∷ []
put_arc e (d ∷ ds) =
    if joins e.antecedent e.consequent d && d.edge_id == e.edge_id then e ∷ ds else d ∷ put_arc e ds

abbrev pub add_edge : ListGraph → CanonicalImplicationEdge → ListGraph
add_edge g e = record {
  vertices = e.antecedent ∷ e.consequent ∷ g.vertices;
  arcs = put_arc e g.arcs;
}

abbrev pub edges_between : ListGraph → String → String → List CanonicalImplicationEdge
edges_between g u v = filter (joins u v) g.arcs

abbrev pub edge? : ListGraph → String → String → Bool
edge? g u v = not (is_empty (edges_between g u v))

pub filter-put_arc :
    (e : CanonicalImplicationEdge) (u v : String) (ds : List CanonicalImplicationEdge)
    → filter (joins u v) (put_arc e ds)
      ≡ (if joins u v e then put_edge e (filter (joins u v) ds) else filter (joins u v) ds)
filter-put_arc e u v [] = ground arith
filter-put_arc e u v (d ∷ ds) = ground (
  arith,
  filter-put_arc e u v ds,
  text_key.same_iff e.antecedent u,
  text_key.same_iff e.consequent v,
  text_key.same_iff d.antecedent u,
  text_key.same_iff d.consequent v,
  text_key.same_iff d.antecedent e.antecedent,
  text_key.same_iff d.consequent e.consequent,
)

pub arcs-mem :
    (g : ListGraph) (e : CanonicalImplicationEdge)
    → Memᴰ e g.arcs ↔ Memᴰ e (edges_between g e.antecedent e.consequent)
arcs-mem g e = (
  λ m.
      (Memᴰ-filter (joins e.antecedent e.consequent) e g.arcs).1
        (m, (&&_iff _ _).1 (same_refl e.antecedent, same_refl e.consequent)),
  λ m. ((Memᴰ-filter (joins e.antecedent e.consequent) e g.arcs).0 m).0,
)

-- The walks from a vertex, one step through each neighbour.
abbrev pub through :
    ListGraph → String → (String → List (List String)) → List String → List (List String)
through g s onward [] = []
through g s onward (v ∷ vs) =
    if edge? g s v
    then map (λ w. s ∷ w) (onward v) ++ through g s onward vs
    else through g s onward vs

abbrev pub exact_walks : ListGraph → ℕ → String → String → List (List String)
exact_walks g zero s t = if s == t then (s ∷ []) ∷ [] else []
exact_walks g (suc k) s t = through g s (λ v. exact_walks g k v t) g.vertices

abbrev pub walks_up_to : ListGraph → ℕ → String → String → List (List String)
walks_up_to g zero s t = exact_walks g zero s t
walks_up_to g (suc k) s t = walks_up_to g k s t ++ exact_walks g (suc k) s t

abbrev Walk : ListGraph → ℕ → String → String → List String → Type 0
Walk g k s t w = IsWalk (edge? g) s t w × (length w ≡ suc k)

step-Walk :
    (g : ListGraph) (k : ℕ) (s v t : String) (w : List String)
    → edge? g s v ≡ true
    → Walk g k v t w
    → Walk g (suc k) s t (s ∷ w)
step-Walk g k s v t [] e (h, n) = absurd (omega arith)
step-Walk g k s v t (x ∷ w) e (h, n) = (
  record { starts = refl; ends = h.ends; linked = (rw (some_inj x v h.starts) e, h.linked) },
  omega arith,
)

through-Walk :
    (g : ListGraph) (k : ℕ) (s t : String) (onward : String → List (List String))
    → ((v : String) (w : List String) → Memᴰ w (onward v) → Walk g k v t w)
    → (vs : List String) (w : List String) → Memᴰ w (through g s onward vs)
    → Walk g (suc k) s t w
through-Walk g k s t onward h [] w m = elim m [ ]
through-Walk g k s t onward h (v ∷ vs) w m = elim (Bool-cases (edge? g s v)) [
  | inl e ↦ elim (Memᴰ.append_cases (map (λ w. s ∷ w) (onward v)) (rw e at m)) [
    | inl first ↦
        let (x, q, p) = Memᴰ.of_map (λ w. s ∷ w) (onward v) first in
        rw (← p) (step-Walk g k s v t x e (h v x q))
    | inr later ↦ through-Walk g k s t onward h vs w later
  ]
  | inr e ↦ through-Walk g k s t onward h vs w (rw e at m)
]

exact_walks-Walk :
    (g : ListGraph) (k : ℕ) (s t : String) (w : List String)
    → Memᴰ w (exact_walks g k s t)
    → Walk g k s t w
exact_walks-Walk g zero s t w m = elim (Bool-cases (s == t)) [
  | inl e ↦
      rw (Memᴰ.eq_of_singleton (rw e at m))
        (record { starts = refl; ends = ap some (same→eq s t e); linked = tt }, refl)
  | inr e ↦ absurd (Memᴰ.not-nil (rw e at m))
]
exact_walks-Walk g (suc k) s t w m =
    through-Walk g k s t (λ v. exact_walks g k v t) (λ v x. exact_walks-Walk g k v t x) g.vertices w
      m

walks_up_to-IsWalk :
    (g : ListGraph) (k : ℕ) (s t : String) (w : List String)
    → Memᴰ w (walks_up_to g k s t)
    → IsWalk (edge? g) s t w × (length w ≤ suc k)
walks_up_to-IsWalk g zero s t w m = let (h, n) = exact_walks-Walk g zero s t w m in (h, omega arith)
walks_up_to-IsWalk g (suc k) s t w m = elim (Memᴰ.append_cases (walks_up_to g k s t) m) [
  | inl short ↦ let (h, n) = walks_up_to-IsWalk g k s t w short in (h, omega arith)
  | inr long ↦ let (h, n) = exact_walks-Walk g (suc k) s t w long in (h, omega arith)
]

-- The first walk of the least length, and the walks that visit no vertex twice.
abbrev pub shortest_path : ListGraph → String → String → Bool → Option (List String)
shortest_path g s t weighted = head? (walks_up_to g (length g.arcs) s t)

abbrev pub is_simple : List String → Bool
is_simple [] = true
is_simple (x ∷ xs) = not (contains xs x) && is_simple xs

abbrev pub all_simple_paths : ListGraph → String → String → ℕ → List (List String)
all_simple_paths g s t cutoff = filter is_simple (walks_up_to g cutoff s t)

Memᴰ_of_head : (ws : List (List String)) (w : List String) → head? ws ≡ some w → Memᴰ w ws
Memᴰ_of_head [] w h = cc
Memᴰ_of_head (x ∷ ws) w h = Memᴰ.head (some_inj w x (sym h))

pub shortest_path-IsWalk :
    (g : ListGraph) (s t : String) (weighted : Bool) (w : List String)
    → shortest_path g s t weighted ≡ some w
    → IsWalk (edge? g) s t w
shortest_path-IsWalk g s t weighted w h =
    (walks_up_to-IsWalk g (length g.arcs) s t w
      (Memᴰ_of_head (walks_up_to g (length g.arcs) s t) w h)).0

pub all_simple_paths-IsWalk :
    (g : ListGraph) (s t : String) (cutoff : ℕ) (w : List String)
    → Memᴰ w (all_simple_paths g s t cutoff)
    → IsWalk (edge? g) s t w × (length w ≤ suc cutoff)
all_simple_paths-IsWalk g s t cutoff w m =
    walks_up_to-IsWalk g cutoff s t w ((Memᴰ-filter is_simple w (walks_up_to g cutoff s t)).0 m).0

abbrev pub list_graph : Networkx
list_graph = record {
  Graph = ListGraph;
  empty = record { vertices = []; arcs = [] };
  add_node = add_node;
  add_edge = add_edge;
  nodes = λ g. g.vertices;
  edges = λ g. g.arcs;
  edges_between = edges_between;
  shortest_path = shortest_path;
  all_simple_paths = all_simple_paths;
  edges_between-empty = λ u v. refl;
  edges_between-add_node = λ g n u v. refl;
  edges_between-add_edge = λ g e u v. filter-put_arc e u v g.arcs;
  edges-mem = arcs-mem;
  nodes-empty = λ n. refl;
  nodes-add_node = λ g m n. refl;
  nodes-add_edge = λ g e n. refl;
  shortest_path-IsWalk = shortest_path-IsWalk;
  all_simple_paths-IsWalk = all_simple_paths-IsWalk;
}

-- Every date is read as the same instant, and a product is rounded to its lesser factor.
abbrev pub host : Host
host = record {
  nx = list_graph;
  mul = λ a b. if leb a b then a else b;
  iso = λ text. record { wall = 0; zone = naive };
}
