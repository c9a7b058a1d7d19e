-- ===== src/Reasoning/Tensions.antt =====
-- reasoning.py: soft tensions between records of one claim whose confidences differ.
pub mod Spread
pub mod Exact
use nesy_reasoning_mcp.Prelude.{
  ℕ, String, Bool, false, List, [], ◌∷◌, map, if◌then◌else◌, ◌==◌, text_key, pair_key, length, ltb,
  leb, ◌+◌, ◌^◌, text_le, sort_by, Dict, group_by, concat_map,
}
use nesy_reasoning_mcp.Schemas.{
  RelationType, RelationRecord, relation_type_key, canonical_source, canonical_target,
}
use nesy_reasoning_mcp.Reasoning.Chain.{relation_type_value}

-- source, target, relation type, context and store
abbrev pub ClaimKey : Type 0
ClaimKey = String × (String × (RelationType × (String × String)))

abbrev pub claim_key : RelationRecord → ClaimKey
claim_key r = (
  canonical_source r.fields,
  (canonical_target r.fields, (r.relation_type, (r.context_id, r.store_id))),
)

-- The entries of a tension; `severity` is "soft" and `reason` a fixed text.
pub record ConfidenceTension : Type 0 where
  pub claim : ClaimKey
  pub fact_ids : List String
  pub confidences : List ℕ

-- The order of the keys as tuples; a relation type is compared by its text.
abbrev pub claim_le : ClaimKey → ClaimKey → Bool
claim_le (a, (b, (c, (d, e)))) (a', (b', (c', (d', e')))) =
    if a == a'
    then if b == b'
      then if relation_type_value c == relation_type_value c'
        then if d == d' then text_le e e' else text_le d d'
        else text_le (relation_type_value c) (relation_type_value c')
      else text_le b b'
    else text_le a a'

abbrev pub max_from : ℕ → List ℕ → ℕ
max_from m [] = m
max_from m (v ∷ vs) = max_from (if ltb m v then v else m) vs

abbrev pub min_from : ℕ → List ℕ → ℕ
min_from m [] = m
min_from m (v ∷ vs) = min_from (if ltb v m then v else m) vs

abbrev pub tension_confidences : List RelationRecord → List ℕ
tension_confidences = map (λ (r : RelationRecord). r.confidence)

-- 0.5, and 2^-55, half the distance from 0.5 to the double before it, as multiples of 2^-1074.
unfoldable pub one_half : ℕ
one_half = 2 ^ 1073

unfoldable pub half_step : ℕ
half_step = 2 ^ 1019

-- `not high - low < 0.5`, for doubles with low <= high. The subtraction rounds the exact difference
-- to the nearest double, and a tie to the even one, so what it returns is 0.5 or more exactly if the
-- exact difference is at least the middle of 0.5 and the double before it, 0.5 - 2^-55.
abbrev pub far : ℕ → ℕ → Bool
far high low = leb (low + one_half) (high + half_step)

-- not max(values) - min(values) < 0.5, for a list that is not empty
unfoldable pub spread : List ℕ → Bool
spread [] = false
spread (v ∷ vs) = far (max_from v vs) (min_from v vs)

-- the body of the loop over the groups
unfoldable pub tension_of : ClaimKey × List RelationRecord → List ConfidenceTension
unfolding spread
tension_of (claim, records) =
    if ltb (length records) 2
    then []
    else if spread (tension_confidences records)
    then record {
      claim = claim;
      fact_ids = map (λ (r : RelationRecord). r.id) records;
      confidences = tension_confidences records;
    }
      ∷ []
    else []

unfoldable pub confidence_tensions : List RelationRecord → List ConfidenceTension
confidence_tensions relations =
    concat_map tension_of (sort_by (λ e f. claim_le e.0 f.0) (group_by claim_key relations))
