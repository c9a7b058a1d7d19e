-- ===== src/Normalization/EdgeIds.antt =====
-- normalization.py: the ids of the edges of different relations, and of one relation, differ.
use Prim.Native.String.{String, ◌++◌ as text_append}
use Prim.Native.String.append
use text.Mathlib.TextLemmas.{cons-eq-cons, head-eq_of_cons-eq}
use mathlib.Core.Bool.{false≢true}
use mathlib.Core.List.Memᴰ
use mathlib.Core.List.{map-append}
use nesy_reasoning_mcp.Prelude.{
  ℕ, suc, ◌+◌, ◌≡◌, refl, sym, ap, ◌∙◌, ◌⊎◌, inl, inr, true, false, text_key, List, [], ◌∷◌, map,
  arith, All, All-Memᴰ, Memᴰ-map, map-Memᴰ, concat_map, Memᴰ-concat_map, Distinct, append-Distinct,
}
use nesy_reasoning_mcp.Schemas.{
  RelationType, RelationRecord, CanonicalImplicationEdge, canonical_source, canonical_target,
}
use nesy_reasoning_mcp.Normalization.{
  edge, edge_name, zip_edges, normalized_implication_preview, normalize_relation_edges,
}

abbrev size : String → ℕ
size String.[] = 0
size (String.◌∷◌ c s) = suc (size s)

abbrev rest_of : String → String
rest_of String.[] = String.[]
rest_of (String.◌∷◌ c s) = s

size-append : (s t : String) → size (text_append s t) ≡ size s + size t
size-append String.[] t = rw (append.nil t) (omega arith)
size-append (String.◌∷◌ c s) t = rw (append.cons c s t) (omega (arith, size-append s t))

append-left_inj : (p s t : String) → text_append p s ≡ text_append p t → s ≡ t
append-left_inj String.[] s t h = rw (append.nil s, append.nil t) at h
append-left_inj (String.◌∷◌ c p) s t h =
    append-left_inj p s t (ap rest_of (rw (append.cons c p s, append.cons c p t) at h))

-- Two texts that are equal with two more characters after each are equal.
append-right_inj :
    (s t u w : String) → size u ≡ 2 → size w ≡ 2 → text_append s u ≡ text_append t w → s ≡ t
append-right_inj String.[] String.[] u w hu hw h = refl
append-right_inj String.[] (String.◌∷◌ d t) u w hu hw h =
    let sizes = sym (size-append String.[] u) ∙ ap size h ∙ size-append (String.◌∷◌ d t) w in
    absurd (omega (arith, sizes, hu, hw))
append-right_inj (String.◌∷◌ c s) String.[] u w hu hw h =
    let sizes = sym (size-append (String.◌∷◌ c s) u) ∙ ap size h ∙ size-append String.[] w in
    absurd (omega (arith, sizes, hu, hw))
append-right_inj (String.◌∷◌ c s) (String.◌∷◌ d t) u w hu hw h =
    let e = rw (append.cons c s u, append.cons d t w) at h in
    let same = append-right_inj s t u w hu hw (ap rest_of e) in
    cons-eq-cons.1 (head-eq_of_cons-eq e, same)

edge_name-inj :
    (id other s t : String)
    → size (text_append "_" s) ≡ 2
    → size (text_append "_" t) ≡ 2
    → edge_name id s ≡ edge_name other t
    → id ≡ other
unfolding edge_name
edge_name-inj id other s t hs ht h =
    append-right_inj id other (text_append "_" s) (text_append "_" t) hs ht (
      append-left_inj "edge_" (text_append id (text_append "_" s))
        (text_append other (text_append "_" t)) h)

-- The id of an edge of the relation.
abbrev IsEdgeId : String → String → Type 0
IsEdgeId id name = (name ≡ edge_name id "a") ⊎ (name ≡ edge_name id "b")

IsEdgeId-same : (id other name : String) → IsEdgeId id name → IsEdgeId other name → id ≡ other
IsEdgeId-same id other name (inl e) (inl q) = edge_name-inj id other "a" "a" refl refl (sym e ∙ q)
IsEdgeId-same id other name (inl e) (inr q) = edge_name-inj id other "a" "b" refl refl (sym e ∙ q)
IsEdgeId-same id other name (inr e) (inl q) = edge_name-inj id other "b" "a" refl refl (sym e ∙ q)
IsEdgeId-same id other name (inr e) (inr q) = edge_name-inj id other "b" "b" refl refl (sym e ∙ q)

a_not_b : (id : String) → ¬ (edge_name id "a" ≡ edge_name id "b")
unfolding edge_name
a_not_b id h =
    let tails =
      append-left_inj id "_a" "_b"
        (append-left_inj "edge_" (text_append id "_a") (text_append id "_b") h) in
    let letters : "a" ≡ "b" = ap rest_of tails in
    let no : false ≡ true = (text_key.same_iff "a" "b").1 letters in false≢true no

abbrev pub edge_id_of : CanonicalImplicationEdge → String
edge_id_of e = e.edge_id

module _ (r : RelationRecord) where
  abbrev Named : List CanonicalImplicationEdge → Type 0
  Named es = All (IsEdgeId r.id) (map edge_id_of es) × Distinct (map edge_id_of es)

  zip_edges-Named :
      (s t : String) (k : RelationType)
      → Named (zip_edges r (normalized_implication_preview s t k) ("a" ∷ "b" ∷ []))
  unfolding zip_edges normalized_implication_preview edge
  zip_edges-Named s t RelationType.sufficient = ((inl refl, tt), (Memᴰ.not-nil, tt))
  zip_edges-Named s t RelationType.necessary = ((inl refl, tt), (Memᴰ.not-nil, tt))
  zip_edges-Named s t RelationType.equivalent = (
    (inl refl, (inr refl, tt)),
    (
      λ m. elim (Memᴰ.cases_cons m) [ inl e ↦ a_not_b r.id e | inr n ↦ Memᴰ.not-nil n ],
      (Memᴰ.not-nil, tt),
    ),
  )

  normalize-Named : Named (normalize_relation_edges r)
  unfolding normalize_relation_edges
  normalize-Named =
      zip_edges-Named (canonical_source r.fields) (canonical_target r.fields) r.relation_type

-- If no two of the given relations share an id, no two of all their edges share one: neither those
-- of one relation nor those of different relations.
pub normalize-Distinct :
    (relations : List RelationRecord)
    → Distinct (map (λ (r : RelationRecord). r.id) relations)
    → Distinct (map edge_id_of (concat_map normalize_relation_edges relations))
normalize-Distinct [] u = tt
normalize-Distinct (r ∷ rs) (new, u) =
    let own = normalize_relation_edges r in
    let others = concat_map normalize_relation_edges rs in
    rw (map-append edge_id_of own others) (
      append-Distinct (map edge_id_of own) (map edge_id_of others) (normalize-Named r).1
        (normalize-Distinct rs u)
        (λ name m n.
          let (e, me, same) = Memᴰ-map edge_id_of others name n in
          let (r', mr, me') = Memᴰ-concat_map normalize_relation_edges rs e me in
          let mine = All-Memᴰ (IsEdgeId r.id) (map edge_id_of own) (normalize-Named r).0 m in
          let theirs =
            All-Memᴰ (IsEdgeId r'.id) (map edge_id_of (normalize_relation_edges r'))
              (normalize-Named r').0 (map-Memᴰ edge_id_of (normalize_relation_edges r') e me') in
          new (
            rw (IsEdgeId-same r.id r'.id name mine (rw same theirs))
              (map-Memᴰ (λ (x : RelationRecord). x.id) rs r' mr))))
