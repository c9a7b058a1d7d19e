-- ===== src/Reasoning/Tensions/Spread.antt =====
-- The greatest and the least confidence of a list, and the distance between them.
use mathlib.Core.List.Memᴰ
use nesy_reasoning_mcp.Prelude.{
  ℕ, ◌≤◌, ◌+◌, ◌≡◌, ap, sym, ◌∙◌, leb→le, le→leb, refl, Bool, true, false, inl, inr, List, [], ◌∷◌,
  arith, Memᴰ, if◌then◌else◌, text_key, pair_key, length, ltb,
}
use nesy_reasoning_mcp.Schemas.{RelationRecord, relation_type_key}
use nesy_reasoning_mcp.Reasoning.Tensions.{max_from, min_from, spread, one_half, half_step}

max_from-bound : (m : ℕ) (vs : List ℕ) (c : ℕ) → Memᴰ c (m ∷ vs) → c ≤ max_from m vs
max_from-bound m [] c mem = elim (Memᴰ.cases_cons mem) [
  | inl e ↦ omega (arith, e)
  | inr t ↦ absurd (Memᴰ.not-nil t)
]
max_from-bound m (v ∷ vs) c mem =
    let next = if ltb m v then v else m in
    let top : next ≤ max_from next vs = max_from-bound next vs next (Memᴰ.head refl) in
    elim (Memᴰ.cases_cons mem) [
      | inl e ↦ ground (arith, e, top)
      | inr t ↦ elim (Memᴰ.cases_cons t) [
        | inl e ↦ ground (arith, e, top)
        | inr u ↦ max_from-bound next vs c (Memᴰ.tail u)
      ]
    ]

min_from-bound : (m : ℕ) (vs : List ℕ) (c : ℕ) → Memᴰ c (m ∷ vs) → min_from m vs ≤ c
min_from-bound m [] c mem = elim (Memᴰ.cases_cons mem) [
  | inl e ↦ omega (arith, e)
  | inr t ↦ absurd (Memᴰ.not-nil t)
]
min_from-bound m (v ∷ vs) c mem =
    let next = if ltb v m then v else m in
    let low : min_from next vs ≤ next = min_from-bound next vs next (Memᴰ.head refl) in
    elim (Memᴰ.cases_cons mem) [
      | inl e ↦ ground (arith, e, low)
      | inr t ↦ elim (Memᴰ.cases_cons t) [
        | inl e ↦ ground (arith, e, low)
        | inr u ↦ min_from-bound next vs c (Memᴰ.tail u)
      ]
    ]

-- The element that a step of such a loop keeps is one of the two.
kept-Memᴰ :
    (b : Bool) (c m v : ℕ) (vs : List ℕ) → Memᴰ c ((if b then v else m) ∷ vs) → Memᴰ c (m ∷ v ∷ vs)
kept-Memᴰ true c m v vs mem = Memᴰ.tail mem
kept-Memᴰ false c m v vs mem = elim (Memᴰ.cases_cons mem) [
  | inl e ↦ Memᴰ.head e
  | inr t ↦ Memᴰ.tail (Memᴰ.tail t)
]

max_from-Memᴰ : (m : ℕ) (vs : List ℕ) → Memᴰ (max_from m vs) (m ∷ vs)
max_from-Memᴰ m [] = Memᴰ.head refl
max_from-Memᴰ m (v ∷ vs) =
    kept-Memᴰ (ltb m v) (max_from m (v ∷ vs)) m v vs (max_from-Memᴰ (if ltb m v then v else m) vs)

min_from-Memᴰ : (m : ℕ) (vs : List ℕ) → Memᴰ (min_from m vs) (m ∷ vs)
min_from-Memᴰ m [] = Memᴰ.head refl
min_from-Memᴰ m (v ∷ vs) =
    kept-Memᴰ (ltb v m) (min_from m (v ∷ vs)) m v vs (min_from-Memᴰ (if ltb v m then v else m) vs)

half_step-one_half : ltb half_step one_half ≡ true
unfolding half_step one_half
half_step-one_half = refl

-- The difference of two confidences, rounded to a double, is at least 0.5: the exact difference is
-- at least 0.5 - 2^-55.
abbrev pub IsFar : ℕ → ℕ → Type 0
IsFar high low = low + one_half ≤ high + half_step

pub IsFar-spread : (cs : List ℕ) (a b : ℕ) → Memᴰ a cs → Memᴰ b cs → IsFar a b → spread cs ≡ true
unfolding spread
IsFar-spread [] a b ma mb h = absurd (Memᴰ.not-nil ma)
IsFar-spread (v ∷ vs) a b ma mb h =
    let top = max_from-bound v vs a ma in
    let low = min_from-bound v vs b mb in
    le→leb (min_from v vs + one_half) (max_from v vs + half_step) (omega (arith, top, low, h))

pub spread-IsFar :
    (cs : List ℕ) → spread cs ≡ true → (a : ℕ) × (b : ℕ) × Memᴰ a cs × Memᴰ b cs × IsFar a b
unfolding spread
spread-IsFar [] h = cc
spread-IsFar (v ∷ vs) h = (
  max_from v vs,
  min_from v vs,
  max_from-Memᴰ v vs,
  min_from-Memᴰ v vs,
  leb→le (min_from v vs + one_half) (max_from v vs + half_step) h,
)

-- A list with two confidences far apart is not shorter than two.
pub IsFar-length :
    (rs : List RelationRecord) (r s : RelationRecord)
    → Memᴰ r rs
    → Memᴰ s rs
    → IsFar r.confidence s.confidence
    → ltb (length rs) 2 ≡ false
IsFar-length [] r s mr ms h = absurd (Memᴰ.not-nil mr)
IsFar-length (x ∷ []) r s (Memᴰ.head e) (Memᴰ.head q) h =
    let same : r.confidence ≡ s.confidence =
      ap (λ (y : RelationRecord). y.confidence) (e ∙ sym q) in
    absurd (ground (arith, same, h, half_step-one_half))
IsFar-length (x ∷ []) r s (Memᴰ.tail t) ms h = absurd (Memᴰ.not-nil t)
IsFar-length (x ∷ []) r s mr (Memᴰ.tail t) h = absurd (Memᴰ.not-nil t)
IsFar-length (x ∷ y ∷ rs) r s mr ms h = ground arith
