-- ===== src/Scheduler/Cron/Values.antt =====
-- auto_ingest/scheduler.py: the next value of a sorted field.
use nesy_reasoning_mcp.Prelude.{
  ℕ, ◌+◌, ◌≤◌, ◌<◌, ◌≡◌, refl, Bool-cases, ◌⊎◌, inl, inr, true, ◌||◌, leb, ltb, eqb, Option, none,
  some, List, [], ◌∷◌, sort_by, insert_by, get_elem?, head?, arith,
}
use nesy_reasoning_mcp.Scheduler.Cron.{
  in_field, bisect_left, next_value_at_or_after, next_value_after,
}

-- No later value is below an earlier one.
abbrev pub IsSorted : List ℕ → Type 0
IsSorted [] = Unit
IsSorted (v ∷ vs) = ((w : ℕ) → in_field vs w ≡ true → v ≤ w) × IsSorted vs

within_cases :
    (v w : ℕ) (vs : List ℕ) → in_field (v ∷ vs) w ≡ true → (v ≡ w) ⊎ (in_field vs w ≡ true)
within_cases v w vs h = ground arith

in_field-insert_by :
    (v w : ℕ) (vs : List ℕ) → in_field (insert_by leb v vs) w ≡ (eqb v w || in_field vs w)
in_field-insert_by v w [] = refl
in_field-insert_by v w (u ∷ vs) = ground (arith, in_field-insert_by v w vs)

pub in_field-sort_by : (w : ℕ) (vs : List ℕ) → in_field (sort_by leb vs) w ≡ in_field vs w
in_field-sort_by w [] = refl
in_field-sort_by w (v ∷ vs) =
    ground (arith, in_field-insert_by v w (sort_by leb vs), in_field-sort_by w vs)

insert_by-IsSorted : (v : ℕ) (vs : List ℕ) → IsSorted vs → IsSorted (insert_by leb v vs)
insert_by-IsSorted v [] s = (λ w h. cc, tt)
insert_by-IsSorted v (u ∷ vs) s = elim (Bool-cases (leb v u)) [
  | inl low ↦ rw low (λ w h. ground (arith, s.0 w), s)
  | inr high ↦
      rw high (λ w h. ground (arith, s.0 w, in_field-insert_by v w vs), insert_by-IsSorted v vs s.1)
]

pub sort_by-IsSorted : (vs : List ℕ) → IsSorted (sort_by leb vs)
sort_by-IsSorted [] = tt
sort_by-IsSorted (v ∷ vs) = insert_by-IsSorted v (sort_by leb vs) (sort_by-IsSorted vs)

pub head_least :
    (vs : List ℕ) (least : ℕ)
    → IsSorted vs
    → head? vs ≡ some least
    → (in_field vs least ≡ true) × ((w : ℕ) → in_field vs w ≡ true → least ≤ w)
head_least [] least s h = cc
head_least (v ∷ vs) least s h = (ground arith, λ w m. ground (arith, s.0 w))

-- What `_next_value_at_or_after` returns: the least value that is not below `current`, or `None` if
-- all are.
abbrev pub Next : ℕ → List ℕ → Option ℕ → Type 0
Next current vs none = (w : ℕ) → in_field vs w ≡ true → w < current
Next current vs (some v) =
    (in_field vs v ≡ true) × (current ≤ v) × ((w : ℕ) → in_field vs w ≡ true → current ≤ w → v ≤ w)

Next-cons :
    (v current : ℕ) (vs : List ℕ) (o : Option ℕ)
    → ltb v current ≡ true
    → Next current vs o
    → Next current (v ∷ vs) o
Next-cons v current vs none low n = λ w m. ground (arith, n w)
Next-cons v current vs (some u) low n = (ground arith, n.1, λ w m le. ground (arith, n.2 w))

pub next_value_at_or_after-Next :
    (current : ℕ) (vs : List ℕ) → IsSorted vs → Next current vs (next_value_at_or_after current vs)
unfolding next_value_at_or_after
next_value_at_or_after-Next current [] s = λ w h. cc
next_value_at_or_after-Next current (v ∷ vs) s = elim (Bool-cases (ltb v current)) [
  | inl low ↦ rw low (
      Next-cons v current vs (get_elem? vs (bisect_left vs current)) low
        (next_value_at_or_after-Next current vs s.1))
  | inr high ↦ rw high (ground arith, ground arith, λ w m le. ground (arith, s.0 w))
]

pub next_value_after-Next :
    (current : ℕ) (vs : List ℕ) → IsSorted vs → Next (current + 1) vs (next_value_after current vs)
unfolding next_value_after next_value_at_or_after
next_value_after-Next current vs s = next_value_at_or_after-Next (current + 1) vs s
