-- ===== src/Scheduler/Expressions/Ranges.antt =====
-- auto_ingest/scheduler.py: the values of a parsed cron expression lie in the ranges of its fields.
use Prim.Native.String.{String}
use native.Mathlib.Nat.{div-mul-le_self}
use nesy_reasoning_mcp.Prelude.{
  ℕ, zero, suc, ◌+◌, ◌-◌, ◌*◌, ◌/◌, ◌≤◌, ◌≡◌, ◌≢◌, refl, sym, Bool, true, false, ◌||◌, not, eqb,
  Bool-cases, inl, inr, List, [], ◌∷◌, ◌++◌, filter, is_empty, ◌==◌, text_key, arith,
}
use nesy_reasoning_mcp.Scheduler.Errors.{
  ok, err, bind_ok, ok_inj, out_of_range, empty_entry, empty_field,
}
use nesy_reasoning_mcp.Scheduler.Texts.{ℤ, pos, negsuc, ltb_ℤ, split_at, comma, words}
use nesy_reasoning_mcp.Text.{strip}
use nesy_reasoning_mcp.Scheduler.Cron.{CronFields, in_field}
use nesy_reasoning_mcp.Scheduler.Expressions.{
  range_from, range_to, values_between, base_and_step, bounds, parse_cron_part, parse_parts,
  sunday_as_zero, parse_cron_field, parse_fields, parse_cron, expand,
}

-- Every value of a list lies between two bounds.
abbrev pub Between : ℕ → ℕ → List ℕ → Type 0
Between low high values = (w : ℕ) → in_field values w ≡ true → (low ≤ w) × (w ≤ high)

range_from-Between :
    (more start step high : ℕ)
    → start + more * step ≤ high
    → Between start high (range_from more start step)
range_from-Between zero start step high h w m = ground arith
range_from-Between (suc more) start step high h w m = elim (Bool-cases (eqb start w)) [
  | inl here ↦ ground arith
  | inr later ↦
      let room : start + step + more * step ≤ high = grind arith in
      let (a, b) = range_from-Between more (start + step) step high room w (rw later at m) in
      (omega arith, b)
]

range_to-Between :
    (start end step : ℤ) (low high : ℕ)
    → ltb_ℤ start (pos low) || (ltb_ℤ (pos high) end || ltb_ℤ end start) ≡ false
    → Between low high (range_to start end step)
range_to-Between (pos s) (pos e) (pos step) low high h =
    let multiple = div-mul-le_self (e - s) step in
    let (a, b, c) : (low ≤ s) × (e ≤ high) × (s ≤ e) = ground arith in
    λ w m.
      let (d, f) = range_from-Between ((e - s) / step) s step high (omega arith) w m in
      (omega arith, f)
range_to-Between (pos s) (pos e) (negsuc step) low high h = λ w m. cc
range_to-Between (pos s) (negsuc e) step low high h = λ w m. cc
range_to-Between (negsuc s) end step low high h = λ w m. cc

values_between-Between :
    (start end step : ℤ) (low high : ℕ) (out : List ℕ)
    → values_between start end step low high ≡ ok out
    → Between low high out
unfolding values_between
values_between-Between start end step low high out h =
    elim (Bool-cases (ltb_ℤ start (pos low) || (ltb_ℤ (pos high) end || ltb_ℤ end start))) [
      | inl bad ↦ let no : err out_of_range ≡ ok out = rw bad at h in cc
      | inr good ↦
          let same : ok (range_to start end step) ≡ ok out = rw good at h in
          rw (sym (ok_inj _ _ same)) (range_to-Between start end step low high good)
    ]

parse_cron_part-Between :
    (part : String) (low high : ℕ) (out : List ℕ)
    → parse_cron_part part low high ≡ ok out
    → Between low high out
unfolding parse_cron_part
parse_cron_part-Between part low high out h = elim (Bool-cases (part == "")) [
  | inl empty ↦ let no : err empty_entry ≡ ok out = rw empty at h in cc
  | inr filled ↦
      let rest = rw filled at h in
      let (with_step, e, h1) = bind_ok (base_and_step part) _ out rest in
      let (limits, f, h2) = bind_ok (bounds with_step.0 low high) _ out h1 in
      values_between-Between limits.0 limits.1 with_step.1 low high out h2
]

append-Between :
    (low high : ℕ) (xs ys : List ℕ)
    → Between low high xs
    → Between low high ys
    → Between low high (xs ++ ys)
append-Between low high [] ys f g = g
append-Between low high (x ∷ xs) ys f g = λ w m. elim (Bool-cases (eqb x w)) [
  | inl here ↦ f w (rw here)
  | inr other ↦ append-Between low high xs ys (λ u n. f u (ground arith)) g w (rw other at m)
]

pub parse_parts-Between :
    (parts : List String) (low high : ℕ) (out : List ℕ)
    → parse_parts parts low high ≡ ok out
    → Between low high out
unfolding parse_parts
parse_parts-Between [] low high out h = rw (sym (ok_inj _ _ h)) (λ w m. cc)
parse_parts-Between (part ∷ parts) low high out h =
    let (values, e, h1) = bind_ok (parse_cron_part (strip part) low high) _ out h in
    let (rest, f, h2) = bind_ok (parse_parts parts low high) _ out h1 in
    rw (sym (ok_inj _ _ h2)) (
      append-Between low high values rest (parse_cron_part-Between (strip part) low high values e)
        (parse_parts-Between parts low high rest f))

is_empty_sunday :
    (values : List ℕ) → is_empty values ≡ false → is_empty (sunday_as_zero true values) ≡ false
is_empty_sunday [] h = cc
is_empty_sunday (v ∷ vs) h = elim (Bool-cases (in_field (v ∷ vs) 7)) [
  | inl e ↦ rw e refl
  | inr e ↦ rw e refl
]

-- A value that is left after the removal of 7 is another.
filter-not_seven :
    (w : ℕ) (values : List ℕ)
    → in_field (filter (λ v. not (eqb v 7)) values) w ≡ true
    → (in_field values w ≡ true) × (w ≢ 7)
filter-not_seven w [] m = cc
filter-not_seven w (v ∷ vs) m = elim (Bool-cases (eqb v 7)) [
  | inl seven ↦ let (a, b) = filter-not_seven w vs (rw seven at m) in (ground arith, b)
  | inr kept ↦
      let rest = rw kept at m in
      elim (Bool-cases (eqb v w)) [
        | inl here ↦ (ground arith, ground arith)
        | inr later ↦ let (a, b) = filter-not_seven w vs (rw later at rest) in (ground arith, b)
      ]
]

sunday_as_zero-Between :
    (values : List ℕ) → Between 0 7 values → Between 0 6 (sunday_as_zero true values)
sunday_as_zero-Between values h w m = elim (Bool-cases (in_field values 7)) [
  | inr none_is ↦
      let m' = rw none_is at m in
      let (a, b) = h w m' in
      let other : w ≢ 7 = λ e. (let seven : in_field values 7 ≡ true = rw e at m' in cc) in
      (a, omega arith)
  | inl sunday ↦
      let m' = rw sunday at m in
      elim (Bool-cases (eqb 0 w)) [
        | inl here ↦ (omega arith, ground arith)
        | inr later ↦
            let (a, b) = filter-not_seven w values (rw later at m') in
            let (c, d) = h w a in (c, omega arith)
      ]
]

-- The values of a field that parses, before Sunday is made 0.
field_values :
    (field : String) (low high : ℕ) (weekday : Bool) (out : List ℕ)
    → parse_cron_field field low high weekday ≡ ok out
    → (values : List ℕ) × Between low high values
      × (is_empty values ≡ false)
      × (sunday_as_zero weekday values ≡ out)
unfolding parse_cron_field
field_values field low high weekday out h =
    let (values, e, h1) = bind_ok (parse_parts (split_at comma field) low high) _ out h in
    elim (Bool-cases (is_empty values)) [
      | inl empty ↦ let no : err empty_field ≡ ok out = rw empty at h1 in cc
      | inr filled ↦
          let same : ok (sunday_as_zero weekday values) ≡ ok out = rw filled at h1 in
          (
            values,
            parse_parts-Between (split_at comma field) low high values e,
            filled,
            ok_inj _ _ same,
          )
    ]

-- A field has a value, and all of them lie in its range.
abbrev pub Field : ℕ → ℕ → List ℕ → Type 0
Field low high values = Between low high values × (is_empty values ≡ false)

parse_cron_field-Field :
    (field : String) (low high : ℕ) (out : List ℕ)
    → parse_cron_field field low high false ≡ ok out
    → Field low high out
parse_cron_field-Field field low high out h =
    let (values, inside, filled, e) = field_values field low high false out h in
    rw (sym e) (inside, filled)

weekday-Field :
    (field : String) (out : List ℕ) → parse_cron_field field 0 7 true ≡ ok out → Field 0 6 out
weekday-Field field out h =
    let (values, inside, filled, e) = field_values field 0 7 true out h in
    rw (sym e) (sunday_as_zero-Between values inside, is_empty_sunday values filled)

abbrev pub Fields : CronFields → Type 0
Fields f =
    Field 0 59 f.minute
    × Field 0 23 f.hour
    × Field 1 31 f.day
    × Field 1 12 f.month
    × Field 0 6 f.weekday

parse_fields-Fields : (parts : List String) (f : CronFields) → parse_fields parts ≡ ok f → Fields f
parse_fields-Fields (mi ∷ ho ∷ da ∷ mo ∷ we ∷ []) f h =
    let (mis, e1, h1) = bind_ok (parse_cron_field mi 0 59 false) _ f h in
    let (hos, e2, h2) = bind_ok (parse_cron_field ho 0 23 false) _ f h1 in
    let (das, e3, h3) = bind_ok (parse_cron_field da 1 31 false) _ f h2 in
    let (mos, e4, h4) = bind_ok (parse_cron_field mo 1 12 false) _ f h3 in
    let (wes, e5, h5) = bind_ok (parse_cron_field we 0 7 true) _ f h4 in
    rw (sym (ok_inj _ _ h5)) (
      parse_cron_field-Field mi 0 59 mis e1,
      parse_cron_field-Field ho 0 23 hos e2,
      parse_cron_field-Field da 1 31 das e3,
      parse_cron_field-Field mo 1 12 mos e4,
      weekday-Field we wes e5,
    )
parse_fields-Fields [] f h = cc
parse_fields-Fields (a ∷ []) f h = cc
parse_fields-Fields (a ∷ b ∷ []) f h = cc
parse_fields-Fields (a ∷ b ∷ c ∷ []) f h = cc
parse_fields-Fields (a ∷ b ∷ c ∷ d ∷ []) f h = cc
parse_fields-Fields (a ∷ b ∷ c ∷ d ∷ e ∷ g ∷ rest) f h = cc

-- If a cron expression parses, each of its five fields has a value, and every value lies in the
-- range of its field: minutes to 59, hours to 23, days from 1 to 31, months from 1 to 12, and
-- weekdays to 6, where Sunday is 0.
pub parse_cron-Fields : (cron : String) (f : CronFields) → parse_cron cron ≡ ok f → Fields f
unfolding parse_cron
parse_cron-Fields cron f h = parse_fields-Fields (words (expand cron)) f h
