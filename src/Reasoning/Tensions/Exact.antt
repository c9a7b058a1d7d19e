-- ===== src/Reasoning/Tensions/Exact.antt =====
-- A tension is reported exactly for the claims with two records whose confidences are far apart.
use nesy_reasoning_mcp.Prelude.{
  ◌≡◌, refl, ◌∙◌, inl, inr, List, map, All, All-Memᴰ, All-of_Memᴰ, Memᴰ, Memᴰ-map, map-Memᴰ,
  Memᴰ-filter, filter, Bool-cases, ◌==◌, text_key, pair_key, eq→same, length, ltb, sort_by,
  Memᴰ-sort_by, group_by, group_by-Keyed, group_of, group_of-group_by, group_of-entry,
  concat_map-Memᴰ, All-concat_map, ap,
}
use nesy_reasoning_mcp.Schemas.{RelationRecord, relation_type_key}
use nesy_reasoning_mcp.Reasoning.Tensions.{
  ClaimKey, claim_key, ConfidenceTension, tension_confidences, spread, tension_of, claim_le,
  confidence_tensions,
}
use nesy_reasoning_mcp.Reasoning.Tensions.Spread.{IsFar, IsFar-spread, spread-IsFar, IsFar-length}

-- Two records of a claim, one far above the other.
pub record Divergent (relations : List RelationRecord) (claim : ClaimKey) : Type 0 where
  pub higher : RelationRecord
  pub lower : RelationRecord
  pub higher_given : Memᴰ higher relations
  pub lower_given : Memᴰ lower relations
  pub higher_claim : claim_key higher ≡ claim
  pub lower_claim : claim_key lower ≡ claim
  pub distance : IsFar higher.confidence lower.confidence

pub record Exact (relations : List RelationRecord) (tensions : List ConfidenceTension)
    : Type 0 where
  -- each tension has two divergent records
  pub sound : All (λ t. Divergent relations t.claim) tensions
  -- each two divergent records have a tension, which names all the records of their claim
  pub complete :
      (claim : ClaimKey)
      → Divergent relations claim
      → (t : ConfidenceTension) × Memᴰ t tensions
        × (t.claim ≡ claim)
        × (t.fact_ids
            ≡ map (λ (r : RelationRecord). r.id) (filter (λ r. claim_key r == claim) relations))

abbrev Entry : Type 0
Entry = ClaimKey × List RelationRecord

-- What a tension of a group of records of one claim says.
tension_of-Divergent :
    (relations : List RelationRecord) (claim : ClaimKey) (rs : List RelationRecord)
    → All (λ r. (claim_key r ≡ claim) × Memᴰ r relations) rs
    → All (λ t. Divergent relations t.claim) (tension_of (claim, rs))
unfolding tension_of
tension_of-Divergent relations claim rs h = elim (Bool-cases (ltb (length rs) 2)) [
  | inl few ↦ rw few tt
  | inr many ↦ elim (Bool-cases (spread (tension_confidences rs))) [
    | inr near ↦ rw (many, near) tt
    | inl wide ↦
        let (a, b, ma, mb, q) = spread-IsFar (tension_confidences rs) wide in
        let (r, mr, er) = Memᴰ-map (λ (r : RelationRecord). r.confidence) rs a ma in
        let (s, ms, es) = Memᴰ-map (λ (r : RelationRecord). r.confidence) rs b mb in
        let (kr, gr) = All-Memᴰ (λ r. (claim_key r ≡ claim) × Memᴰ r relations) rs h mr in
        let (ks, gs) = All-Memᴰ (λ r. (claim_key r ≡ claim) × Memᴰ r relations) rs h ms in
        rw (many, wide)
          (
            record {
              higher = r;
              lower = s;
              higher_given = gr;
              lower_given = gs;
              higher_claim = kr;
              lower_claim = ks;
              distance = rw (er, es) at q;
            },
            tt,
          )
  ]
]

tension_of-reports :
    (claim : ClaimKey) (rs : List RelationRecord) (r s : RelationRecord)
    → Memᴰ r rs
    → Memᴰ s rs
    → IsFar r.confidence s.confidence
    → (t : ConfidenceTension) × Memᴰ t (tension_of (claim, rs))
      × (t.claim ≡ claim)
      × (t.fact_ids ≡ map (λ (x : RelationRecord). x.id) rs)
unfolding tension_of
tension_of-reports claim rs r s mr ms h =
    let wide =
      IsFar-spread (tension_confidences rs) r.confidence s.confidence
        (map-Memᴰ (λ (x : RelationRecord). x.confidence) rs r mr)
        (map-Memᴰ (λ (x : RelationRecord). x.confidence) rs s ms) h in
    rw (IsFar-length rs r s mr ms h, wide) (_, Memᴰ.head refl, refl, refl)

in_claim :
    (relations : List RelationRecord) (claim : ClaimKey) (r : RelationRecord)
    → Memᴰ r relations
    → claim_key r ≡ claim
    → Memᴰ r (group_of claim (group_by claim_key relations))
in_claim relations claim r m e =
    rw (group_of-group_by claim_key claim relations)
      ((Memᴰ-filter (λ x. claim_key x == claim) r relations).1 (m, eq→same (claim_key r) claim e))

-- `_confidence_tensions` reports a tension for exactly the claims (source, target, relation type,
-- context and store) of which two of the given records have confidences whose difference, rounded
-- to a double, is at least 0.5, and each such claim has a tension that names all records of the
-- claim in their order.
pub confidence_tensions-Exact :
    (relations : List RelationRecord) → Exact relations (confidence_tensions relations)
unfolding confidence_tensions
confidence_tensions-Exact relations =
    let groups = group_by claim_key relations in
    let le = λ (e f : Entry). claim_le e.0 f.0 in
    let inside : All (λ (e : Entry). All (λ r. (claim_key r ≡ e.0) × Memᴰ r relations) e.1) groups =
      group_by-Keyed claim_key (λ r. Memᴰ r relations) relations
        (All-of_Memᴰ (λ r. Memᴰ r relations) relations (λ r m. m)) in
    record {
      sound =
          All-concat_map tension_of (λ t. Divergent relations t.claim) (sort_by le groups)
            (λ e m. tension_of-Divergent relations e.0 e.1 (
              All-Memᴰ (λ (e : Entry). All (λ r. (claim_key r ≡ e.0) × Memᴰ r relations) e.1) groups
                inside ((Memᴰ-sort_by le e groups).0 m)));
      complete = λ claim d.
          let rs = group_of claim groups in
          let mr = in_claim relations claim d.higher d.higher_given d.higher_claim in
          let ms = in_claim relations claim d.lower d.lower_given d.lower_claim in
          let (t, mt, et, ids) = tension_of-reports claim rs d.higher d.lower mr ms d.distance in
          (
            t,
            concat_map-Memᴰ tension_of (sort_by le groups) (claim, rs) t
                ((Memᴰ-sort_by le (claim, rs) groups).1 (group_of-entry claim d.higher groups mr))
                mt,
            et,
            ids
                ∙ ap (map (λ (r : RelationRecord). r.id))
                    (group_of-group_by claim_key claim relations),
          );
    }
