-- ===== src/Reasoning/Temporal/Compatible.antt =====
-- Paths are compatible exactly if every window starts before every window ends.
use nesy_reasoning_mcp.Prelude.{
  String, ◌≡◌, refl, ◌↔◌, true, Option, some, none, List, [], ◌∷◌, arith, All, All-iff,
}
use nesy_reasoning_mcp.Schemas.{CanonicalImplicationEdge}
use nesy_reasoning_mcp.TimeUtils.{Datetime, before}
use nesy_reasoning_mcp.Reasoning.Paths.{ReasoningPath}
use nesy_reasoning_mcp.Reasoning.Temporal.{
  Window, always, later_start, earlier_end, meet, edge_window, edges_window, path_window,
  paths_window, in_order, paths_temporally_compatible,
}

-- No end of `b` lies before a start of `a`.
abbrev pub StartsBeforeEnd : Window → Window → Type 0
StartsBeforeEnd a b = in_order a.start b.end ≡ true

-- an end bounds the later of two starts exactly if it bounds both
in_order-later_start :
    (a b e : Option Datetime)
    → (in_order (later_start a b) e ≡ true) ↔ ((in_order a e ≡ true) × (in_order b e ≡ true))
unfolding later_start before
in_order-later_start a b e = ground arith

in_order-earlier_end :
    (s a b : Option Datetime)
    → (in_order s (earlier_end a b) ≡ true) ↔ ((in_order s a ≡ true) × (in_order s b ≡ true))
unfolding earlier_end before
in_order-earlier_end s a b = ground arith

in_order-none : (s : Option Datetime) → in_order s none ≡ true
in_order-none none = refl
in_order-none (some a) = refl

module _ (iso : String → Datetime) where
  -- Every start of the paths' edges lies before the bound `e`; every end lies after the bound `s`.
  abbrev StartsBefore : Option Datetime → CanonicalImplicationEdge → Type 0
  StartsBefore e d = in_order (edge_window iso d).start e ≡ true

  abbrev EndsAfter : Option Datetime → CanonicalImplicationEdge → Type 0
  EndsAfter s d = in_order s (edge_window iso d).end ≡ true

  edges_window-start :
      (w : Window) (es : List CanonicalImplicationEdge) (e : Option Datetime)
      → (in_order (edges_window iso w es).start e ≡ true)
        ↔ ((in_order w.start e ≡ true) × All (StartsBefore e) es)
  edges_window-start w [] e = (λ h. (h, tt), λ h. h.0)
  edges_window-start w (d ∷ ds) e =
      let (f, g) = edges_window-start (meet w (edge_window iso d)) ds e in
      let (f', g') = in_order-later_start w.start (edge_window iso d).start e in
      (λ h. let (p, q) = f h in let (a, b) = f' p in (a, (b, q)), λ (a, (b, q)). g (g' (a, b), q))

  edges_window-end :
      (w : Window) (es : List CanonicalImplicationEdge) (s : Option Datetime)
      → (in_order s (edges_window iso w es).end ≡ true)
        ↔ ((in_order s w.end ≡ true) × All (EndsAfter s) es)
  edges_window-end w [] s = (λ h. (h, tt), λ h. h.0)
  edges_window-end w (d ∷ ds) s =
      let (f, g) = edges_window-end (meet w (edge_window iso d)) ds s in
      let (f', g') = in_order-earlier_end s w.end (edge_window iso d).end in
      (λ h. let (p, q) = f h in let (a, b) = f' p in (a, (b, q)), λ (a, (b, q)). g (g' (a, b), q))

  paths_window-start :
      (w : Window) (ps : List ReasoningPath) (e : Option Datetime)
      → (in_order (paths_window iso w ps).start e ≡ true)
        ↔ ((in_order w.start e ≡ true) × All (λ p. All (StartsBefore e) p.edges) ps)
  unfolding path_window
  paths_window-start w [] e = (λ h. (h, tt), λ h. h.0)
  paths_window-start w (p ∷ ps) e =
      let (f, g) = paths_window-start (meet w (path_window iso p)) ps e in
      let (f', g') = in_order-later_start w.start (path_window iso p).start e in
      let (f'', g'') = edges_window-start always p.edges e in
      (
        λ h. let (x, q) = f h in let (a, b) = f' x in (a, ((f'' b).1, q)),
        λ (a, (b, q)). g (g' (a, g'' (refl, b)), q),
      )

  paths_window-end :
      (w : Window) (ps : List ReasoningPath) (s : Option Datetime)
      → (in_order s (paths_window iso w ps).end ≡ true)
        ↔ ((in_order s w.end ≡ true) × All (λ p. All (EndsAfter s) p.edges) ps)
  unfolding path_window
  paths_window-end w [] s = (λ h. (h, tt), λ h. h.0)
  paths_window-end w (p ∷ ps) s =
      let (f, g) = paths_window-end (meet w (path_window iso p)) ps s in
      let (f', g') = in_order-earlier_end s w.end (path_window iso p).end in
      let (f'', g'') = edges_window-end always p.edges s in
      (
        λ h. let (x, q) = f h in let (a, b) = f' x in (a, ((f'' b).1, q)),
        λ (a, (b, q)). g (g' (a, g'' (in_order-none s, b)), q),
      )

  -- The windows of any two edges on the paths are in order.
  abbrev pub AllInOrder : List ReasoningPath → Type 0
  AllInOrder ps =
      All
        (λ p.
          All
            (λ e.
              All
                (λ p'.
                  All (λ e'. StartsBeforeEnd (edge_window iso e) (edge_window iso e')) p'.edges)
                ps)
            p.edges)
        ps

  -- Paths are temporally compatible exactly if no edge on any of them starts to be valid after some
  -- edge on any of them ends to be valid.
  pub paths_temporally_compatible_iff :
      (ps : List ReasoningPath) → (paths_temporally_compatible iso ps ≡ true) ↔ AllInOrder ps
  unfolding paths_temporally_compatible
  paths_temporally_compatible_iff ps =
      let end = (paths_window iso always ps).end in
      let (f, g) = paths_window-start always ps end in
      let (f', g') = All-iff _ _ ps (λ p. All-iff (StartsBefore end) _ p.edges (λ e.
        let (k, l) = paths_window-end always ps (edge_window iso e).start in
        (λ h. (k h).1, λ h. l (in_order-none (edge_window iso e).start, h)))) in
      (λ h. f' (f h).1, λ h. g (refl, g' h))
