-- ===== src/Reasoning/Index/Direct.antt =====
-- `best_direct_edge` returns the strongest edge that is strong enough, and only fails without one.
use nesy_reasoning_mcp.Prelude.{
  ℕ, ◌≤◌, ◌<◌, String, ◌≡◌, refl, inl, inr, Bool, true, Option, some, none, List, [], ◌∷◌, arith,
  leb, ltb, filter, Memᴰ, Memᴰ-cons, Memᴰ-filter, List-cases, leb→le, Bool-cases, ◌↔◌,
}
use mathlib.Core.List.Memᴰ
use nesy_reasoning_mcp.Schemas.{CanonicalImplicationEdge}
use nesy_reasoning_mcp.Reasoning.Networkx.{Host}
use nesy_reasoning_mcp.Reasoning.Index.{best_of, max_edge, has_edge, best_direct_edge}

best_of-mem :
    (e : CanonicalImplicationEdge) (ds : List CanonicalImplicationEdge)
    → Memᴰ (best_of e ds) (e ∷ ds)
best_of-mem e [] = Memᴰ.head refl
best_of-mem e (d ∷ ds) = elim (Bool-cases (ltb e.confidence d.confidence)) [
  | inl h ↦ rw h (Memᴰ.tail (best_of-mem d ds))
  | inr h ↦ rw h (
      ground (
        arith,
        best_of-mem e ds,
        Memᴰ-cons (best_of e ds) e ds,
        Memᴰ-cons (best_of e ds) e (d ∷ ds),
        Memᴰ-cons (best_of e ds) d ds,
      ))
]

le-best_of :
    (e : CanonicalImplicationEdge) (ds : List CanonicalImplicationEdge)
    → e.confidence ≤ (best_of e ds).confidence
le-best_of e [] = omega arith
le-best_of e (d ∷ ds) = ground (arith, le-best_of d ds, le-best_of e ds)

best_of-greatest :
    (e : CanonicalImplicationEdge) (ds : List CanonicalImplicationEdge)
    (x : CanonicalImplicationEdge)
    → Memᴰ x (e ∷ ds)
    → x.confidence ≤ (best_of e ds).confidence
best_of-greatest e [] x (Memᴰ.head p) = rw p (omega arith)
best_of-greatest e [] x (Memᴰ.tail m) = elim m [ ]
best_of-greatest e (d ∷ ds) x (Memᴰ.head p) = rw p (le-best_of e (d ∷ ds))
best_of-greatest e (d ∷ ds) x (Memᴰ.tail m) = ground (
  arith,
  best_of-greatest d ds x m,
  best_of-greatest e ds x,
  Memᴰ-cons x d ds,
  Memᴰ-cons x e ds,
  le-best_of e ds,
  le-best_of d ds,
)

-- What makes `e` the answer for a list of edges: it is one of them that is strong enough, and none
-- is stronger.
pub record IsStrongest (min_confidence : ℕ) (es : List CanonicalImplicationEdge)
    (e : CanonicalImplicationEdge) : Type 0 where
  pub among : Memᴰ e es
  pub strong : min_confidence ≤ e.confidence
  pub greatest : (d : CanonicalImplicationEdge) → Memᴰ d es → d.confidence ≤ e.confidence

-- The outcome of a search for the strongest edge of a list.
abbrev pub Answers : ℕ → List CanonicalImplicationEdge → Option CanonicalImplicationEdge → Type 0
Answers m es none = (d : CanonicalImplicationEdge) → Memᴰ d es → d.confidence < m
Answers m es (some e) = IsStrongest m es e

module _ (m : ℕ) (es : List CanonicalImplicationEdge) where
  abbrev strong : CanonicalImplicationEdge → Bool
  strong e = leb m e.confidence

  max_edge-Answers :
      (fs : List CanonicalImplicationEdge)
      → ((d : CanonicalImplicationEdge) → Memᴰ d fs ↔ (Memᴰ d es × (strong d ≡ true)))
      → Answers m es (max_edge fs)
  max_edge-Answers [] h = λ d p. elim (Bool-cases (strong d)) [
    | inl q ↦ absurd (Memᴰ.not-nil ((h d).1 (p, q)))
    | inr q ↦ ground arith
  ]
  max_edge-Answers (f ∷ fs) h =
      let e = best_of f fs in
      let (found, enough) = (h e).0 (best_of-mem f fs) in
      record {
        among = found;
        strong = leb→le m e.confidence enough;
        greatest = λ d p. elim (Bool-cases (strong d)) [
          | inl q ↦ best_of-greatest f fs d ((h d).1 (p, q))
          | inr q ↦ ground (arith, leb→le m e.confidence enough)
        ];
      }

module _ (host : Host) (g : host.Graph) (m : ℕ) (u v : String) where
  -- The answer is an edge from `u` to `v` that is strong enough with no stronger one beside it, or
  -- there is no edge from `u` to `v` that is strong enough.
  pub best_direct_edge-Answers :
      Answers m (host.edges_between g u v) (best_direct_edge host g m u v)
  unfolding best_direct_edge
  best_direct_edge-Answers = elim (List-cases (host.edges_between g u v)) [
    | inl e ↦ rw (e, best_direct_edge, has_edge) (λ d p. absurd (Memᴰ.not-nil p))
    | inr (x, rest, e) ↦
        rw (e, best_direct_edge, has_edge)
          (max_edge-Answers m (x ∷ rest) (filter (strong m []) (x ∷ rest))
            (λ d. Memᴰ-filter (strong m []) d (x ∷ rest)))
  ]
