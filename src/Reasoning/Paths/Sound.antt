-- ===== src/Reasoning/Paths/Sound.antt =====
-- `find_paths` never raises, and every path that it returns is a chain of strongest edges.
use nesy_reasoning_mcp.Prelude.{
  ℕ, suc, ◌-◌, ◌≤◌, String, ◌≡◌, refl, Bool, true, false, Option, some, none, List, [], ◌∷◌, arith,
  if◌then◌else◌, All, Memᴰ, Bool-cases, text_key, same→eq, head?, length, All-Memᴰ, All-of_Memᴰ,
  All-take, sort_by, Memᴰ-sort_by, map_option_total, ltb, inl, inr, take, ap,
}
use nesy_reasoning_mcp.Schemas.{
  RelationRecord, ContextFilter, CanonicalImplicationEdge, PathStrategy,
}
use nesy_reasoning_mcp.Reasoning.Networkx.{Host, IsWalk, Linked, last?}
use nesy_reasoning_mcp.Reasoning.Confidence.{aggregate_confidence}
use nesy_reasoning_mcp.Reasoning.Index.{
  GraphIndex, build_graph, has_edge, best_direct_edge, search_graph,
}
use nesy_reasoning_mcp.Reasoning.Index.Direct.{IsStrongest, Answers, best_direct_edge-Answers}
use nesy_reasoning_mcp.Reasoning.Index.Search.{
  IsPlaced, StrongEdge, search_graph-StrongEdge, best_direct_edge_found,
}
use nesy_reasoning_mcp.Reasoning.Index.Contents.{build-EdgesSatisfy}
use nesy_reasoning_mcp.Reasoning.Paths.{
  ReasoningPath, PathQuery, best_edges_for_nodes, path_with, path_of, shortest_from, all_paths,
  stronger_first, direct_path, by_strategy, find_paths,
}

Linked-map {ℓ κ μ} :
    {A : Type ℓ} (R : A → A → Type κ) (S : A → A → Type μ) (xs : List A)
    → ((x y : A) → R x y → S x y)
    → Linked R xs
    → Linked S xs
Linked-map R S [] f h = tt
Linked-map R S (x ∷ []) f h = tt
Linked-map R S (x ∷ y ∷ xs) f h = (f x y h.0, Linked-map R S (y ∷ xs) f h.1)

module _ (host : Host) where
  -- The edges join the nodes one after the other, and each is a strongest edge between its nodes.
  abbrev pub Along : host.Graph → ℕ → List String → List CanonicalImplicationEdge → Type 0
  Along g m [] [] = Unit
  Along g m (u ∷ []) [] = Unit
  Along g m (u ∷ v ∷ ns) (e ∷ es) =
      IsStrongest m (host.edges_between g u v) e × Along g m (v ∷ ns) es
  Along g m _ _ = ⊥

  best_edges_total :
      (g : host.Graph) (m : ℕ) (ns : List String)
      → Linked (StrongEdge host g m) ns
      → (es : List CanonicalImplicationEdge) × (best_edges_for_nodes host g m ns ≡ some es)
        × Along g m ns es
        × (length es ≡ length ns - 1)
  unfolding best_edges_for_nodes
  best_edges_total g m [] h = ([], refl, tt, refl)
  best_edges_total g m (u ∷ []) h = ([], refl, tt, omega arith)
  best_edges_total g m (u ∷ v ∷ ns) (s, h) =
      let (e, found, best) = best_direct_edge_found host g m u v s in
      let (es, rest, along, size) = best_edges_total g m (v ∷ ns) h in
      (e ∷ es, rw (found, rest) refl, (best, along), omega arith)

  -- What is promised of each path.
  pub record IsSound (g : host.Graph) (q : PathQuery) (start end : String) (p : ReasoningPath)
      : Type 0 where
    pub starts : head? p.nodes ≡ some start
    pub ends : last? p.nodes ≡ some end
    pub along : Along g q.min_confidence p.nodes p.edges
    pub short : length p.edges ≤ q.max_depth
    pub evidence : p.evidence_confidence ≡ aggregate_confidence host.mul p.edges q.confidence_policy

  -- `find_paths` returned, and all of its paths are sound.
  abbrev pub Returns :
      host.Graph → PathQuery → String → String → Option (List ReasoningPath) → Type 0
  Returns g q start end r =
      (ps : List ReasoningPath) × (r ≡ some ps) × All (IsSound g q start end) ps

  module _ (index : GraphIndex host) (q : PathQuery) (start end : String)
      (placed : IsPlaced host index.graph) where
    abbrev Sound : ReasoningPath → Type 0
    Sound = IsSound index.graph q start end

    path_of_total :
        (ns : List String)
        → IsWalk (has_edge host (search_graph host index.graph q.min_confidence)) start end ns
        → length ns ≤ suc q.max_depth
        → (p : ReasoningPath) × (path_of host index.graph q ns ≡ some p) × Sound p
    unfolding path_of
    path_of_total ns w d =
        let strong =
          Linked-map _ (StrongEdge host index.graph q.min_confidence) ns
            (λ u v. (search_graph-StrongEdge host index.graph q.min_confidence u v placed).0)
            w.linked in
        let (es, found, along, size) = best_edges_total index.graph q.min_confidence ns strong in
        (
          path_with host q ns es,
          rw found refl,
          record {
            starts = w.starts;
            ends = w.ends;
            along = along;
            short = omega arith;
            evidence = refl;
          },
        )

    shortest_from-Returns :
        (o : Option (List String))
        → ((ns : List String)
            → o ≡ some ns
            → IsWalk (has_edge host (search_graph host index.graph q.min_confidence)) start end ns)
        → Returns index.graph q start end (shortest_from host index.graph q o)
    unfolding shortest_from
    shortest_from-Returns none walk = ([], refl, tt)
    shortest_from-Returns (some ns) walk = elim (Bool-cases (ltb q.max_depth (length ns - 1))) [
      | inl e ↦ ([], rw e refl, tt)
      | inr e ↦
          let (p, found, sound) = path_of_total ns (walk ns refl) (ground arith) in
          (p ∷ [], rw (e, found) refl, (sound, tt))
    ]

    all_paths-Returns :
        (nss : List (List String))
        → ((ns : List String)
            → Memᴰ ns nss
            → IsWalk (has_edge host (search_graph host index.graph q.min_confidence)) start end ns
              × (length ns ≤ suc q.max_depth))
        → Returns index.graph q start end (all_paths host index.graph q nss)
    unfolding all_paths
    all_paths-Returns nss walk =
        let (ps, found, sound) =
          map_option_total (path_of host index.graph q) Sound nss
            (All-of_Memᴰ _ nss (λ ns m. let (w, d) = walk ns m in path_of_total ns w d)) in
        let sorted = sort_by (stronger_first host) ps in
        (
          take q.max_paths sorted,
          rw found refl,
          All-take Sound q.max_paths sorted (
              All-of_Memᴰ Sound sorted
                (λ p m. All-Memᴰ Sound ps sound ((Memᴰ-sort_by (stronger_first host) p ps).0 m))),
        )

    direct_path-Returns :
        1 ≤ q.max_depth
        → Returns index.graph q start end (
            direct_path host q start end
              (best_direct_edge host index.graph q.min_confidence start end))
    unfolding direct_path
    direct_path-Returns d =
        go (best_direct_edge host index.graph q.min_confidence start end)
          (best_direct_edge-Answers host index.graph q.min_confidence start end)
      where
        go :
            (o : Option CanonicalImplicationEdge)
            → Answers q.min_confidence (host.edges_between index.graph start end) o
            → Returns index.graph q start end (direct_path host q start end o)
        go none a = ([], refl, tt)
        go (some e) a = (
          _,
          refl,
          (
            record {
              starts = refl;
              ends = refl;
              along = (a, tt);
              short = omega arith;
              evidence = refl;
            },
            tt,
          ),
        )

    by_strategy-Returns :
        (s : PathStrategy) → Returns index.graph q start end (by_strategy host index q start end s)
    unfolding by_strategy has_edge
    by_strategy-Returns PathStrategy.best_confidence =
        shortest_from-Returns _ (host.shortest_path-IsWalk _ start end true)
    by_strategy-Returns PathStrategy.shortest =
        shortest_from-Returns _ (host.shortest_path-IsWalk _ start end false)
    by_strategy-Returns PathStrategy.all =
        all_paths-Returns _ (host.all_simple_paths-IsWalk _ start end q.max_depth)

    trivial_path : start ≡ end → Sound (path_with host q (start ∷ []) [])
    trivial_path e = record {
      starts = refl;
      ends = ap some e;
      along = tt;
      short = omega arith;
      evidence = refl;
    }

    Returns-if :
        (b : Bool) (r r' : Option (List ReasoningPath))
        → (b ≡ true → Returns index.graph q start end r)
        → Returns index.graph q start end r'
        → Returns index.graph q start end (if b then r else r')
    Returns-if true r r' h h' = h refl
    Returns-if false r r' h h' = h'

    find_paths-Returns :
        1 ≤ q.max_depth → Returns index.graph q start end (find_paths host index start end q)
    unfolding find_paths
    find_paths-Returns d =
        Returns-if _ _ _
          (λ e.
            (path_with host q (start ∷ []) [] ∷ [], refl, (trivial_path (same→eq start end e), tt)))
          (Returns-if _ _ _ (λ _. ([], refl, tt))
            (Returns-if _ _ _ (λ _. direct_path-Returns d) (by_strategy-Returns q.strategy)))

  build_graph-IsPlaced :
      (relations : List RelationRecord) (f : Option ContextFilter)
      → IsPlaced host (build_graph host relations f).graph
  unfolding build_graph
  build_graph-IsPlaced relations f =
      build-EdgesSatisfy host (λ _. Unit) edges (All-of_Memᴰ (λ _. Unit) edges (λ a m. tt))
    where
      edges : List CanonicalImplicationEdge
      edges = (build_graph host relations f).edges

  -- On a graph that `build_graph` made, with a depth of at least one, `find_paths` returns under
  -- every strategy, and each of its paths leads from `start` to `end` in at most `max_depth` edges,
  -- each of them a strongest edge of the graph between its nodes and at least as strong as asked,
  -- with the confidence that the policy aggregates from these edges.
  pub find_paths_sound :
      (relations : List RelationRecord) (f : Option ContextFilter) (q : PathQuery)
      (start end : String)
      → 1 ≤ q.max_depth
      → Returns
          (build_graph host relations f).graph
          q
          start
          end
          (find_paths host (build_graph host relations f) start end q)
  find_paths_sound relations f q start end =
      find_paths-Returns (build_graph host relations f) q start end
        (build_graph-IsPlaced relations f)
