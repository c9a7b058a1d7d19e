-- ===== src/Scheduler/Cron/Jumps.antt =====
-- auto_ingest/scheduler.py: no jump of the search for the next run passes over a matching time.
use native.Mathlib.Decide.{dec_lt}
use nesy_reasoning_mcp.Prelude.{
  ℕ, ◌+◌, ◌≤◌, ◌<◌, ◌≡◌, ◌≢◌, sym, ◌∙◌, true, false, inl, inr, Option, none, some, List, arith,
}
use nesy_reasoning_mcp.Scheduler.Calendar.{WallTime, IsValid, stamp}
use nesy_reasoning_mcp.Scheduler.Calendar.Dates.{
  SameDate, days_in_month_bounds, next_day-IsValid, date_stamp-next_day, next_day-le, date_cases,
}
use nesy_reasoning_mcp.Scheduler.Cron.{
  CronFields, in_field, cron_day_matches, Plan, next_value_at_or_after, next_value_after,
  next_day_start, to_month, next_allowed_month, to_hour, to_minute,
}
use nesy_reasoning_mcp.Scheduler.Cron.Values.{
  IsSorted, Next, next_value_at_or_after-Next, next_value_after-Next,
}

-- The fields hold values of their ranges.
pub record InRange (fields : CronFields) : Type 0 where
  pub minutes : (w : ℕ) → in_field fields.minute w ≡ true → w ≤ 59
  pub hours : (w : ℕ) → in_field fields.hour w ≡ true → w ≤ 23
  pub months : (w : ℕ) → in_field fields.month w ≡ true → (1 ≤ w) × (w ≤ 12)

-- `least` is the first of a field's values.
abbrev pub IsLeast : ℕ → List ℕ → Type 0
IsLeast least field =
    (in_field field least ≡ true) × ((w : ℕ) → in_field field w ≡ true → least ≤ w)

-- The locals of `next_cron_run` belong to the fields.
pub record IsPlan (p : Plan) : Type 0 where
  pub in_range : InRange p.fields
  pub minutes_sorted : IsSorted p.minute_values
  pub hours_sorted : IsSorted p.hour_values
  pub months_sorted : IsSorted p.month_values
  pub same_minutes : (w : ℕ) → in_field p.minute_values w ≡ in_field p.fields.minute w
  pub same_hours : (w : ℕ) → in_field p.hour_values w ≡ in_field p.fields.hour w
  pub same_months : (w : ℕ) → in_field p.month_values w ≡ in_field p.fields.month w
  pub least_minute : IsLeast p.first_minute p.fields.minute
  pub least_hour : IsLeast p.first_hour p.fields.hour
  pub least_month : IsLeast p.first_month p.fields.month

-- A time at which the job of these fields runs.
pub record Matches (p : Plan) (w : WallTime) : Type 0 where
  pub real : IsValid w
  pub minute_in : in_field p.fields.minute w.minute ≡ true
  pub hour_in : in_field p.fields.hour w.hour ≡ true
  pub month_in : in_field p.fields.month w.month ≡ true
  pub date_in : cron_day_matches w p.fields ≡ true

-- A jump goes forward to a valid time, and no matching time lies between.
abbrev pub Skips : Plan → WallTime → WallTime → Type 0
Skips p t u =
    (stamp t < stamp u)
    × IsValid u
    × ((w : WallTime) → Matches p w → stamp t ≤ stamp w → stamp u ≤ stamp w)

Skips-next_day :
    (p : Plan) (t : WallTime)
    → IsPlan p
    → IsValid t
    → ((w : WallTime) → Matches p w → stamp t ≤ stamp w → SameDate t w → ⊥)
    → Skips p t (next_day_start t p.first_hour p.first_minute)
Skips-next_day p t ip v not_today =
    let later = date_stamp-next_day v in
    let next = next_day-IsValid v in
    let minute = ip.least_minute in
    let hour = ip.least_hour in
    let minute_top = ip.in_range.minutes p.first_minute minute.0 in
    let hour_top = ip.in_range.hours p.first_hour hour.0 in
    (
      omega arith,
      ground arith,
      λ w m le. elim (date_cases v m.real le) [
        | inl same ↦ absurd (not_today w m le same)
        | inr lt ↦
            let not_before = next_day-le v m.real lt in
            let m1 = minute.1 w.minute m.minute_in in
            let h1 = hour.1 w.hour m.hour_in in omega arith
      ],
    )

not_in : (a b : ℕ) (field : List ℕ) → in_field field a ≡ true → in_field field b ≡ false → a ≢ b
not_in a b field inside out same =
    let clash : true ≡ false = sym inside ∙ rw same out in absurd (ground arith)

later_value :
    (a b : ℕ) (field : List ℕ)
    → in_field field a ≡ true
    → in_field field b ≡ false
    → b ≤ a
    → b + 1 ≤ a
later_value a b field inside out le = let other = not_in a b field inside out in omega arith

-- A value that is not of the field is no candidate.
Next-strict :
    (current : ℕ) (values field : List ℕ) (o : Option ℕ)
    → ((w : ℕ) → in_field values w ≡ in_field field w)
    → in_field field current ≡ false
    → Next current values o
    → Next (current + 1) values o
Next-strict current values field none same out n = λ w m. let low = n w m in omega arith
Next-strict current values field (some v) same out n =
    (n.0, later_value v current field (sym (same v) ∙ n.0) out n.1, λ w m le. n.2 w m (omega arith))

to_hour-Skips :
    (p : Plan) (t : WallTime) (o : Option ℕ)
    → IsPlan p
    → IsValid t
    → Next (t.hour + 1) p.hour_values o
    → ((w : WallTime) → Matches p w → stamp t ≤ stamp w → SameDate t w → t.hour + 1 ≤ w.hour)
    → Skips p t (to_hour t p o)
unfolding to_hour
to_hour-Skips p t none ip v n today = Skips-next_day p t ip v (λ w m le same.
    let late = today w m le same in
    let early = n w.hour (ip.same_hours w.hour ∙ m.hour_in) in omega arith)
to_hour-Skips p t (some h) ip v n today =
    let hour_top = ip.in_range.hours h (sym (ip.same_hours h) ∙ n.0) in
    let minute_top = ip.in_range.minutes p.first_minute ip.least_minute.0 in
    let later = n.1 in
    (
      omega arith,
      ground arith,
      λ w m le.
          let m1 = ip.least_minute.1 w.minute m.minute_in in
          elim (date_cases v m.real le) [
            | inl same ↦
                let h1 = n.2 w.hour (ip.same_hours w.hour ∙ m.hour_in) (today w m le same) in
                omega arith
            | inr lt ↦ omega arith
          ],
    )

pub hour_jump :
    (p : Plan) (t : WallTime)
    → IsPlan p
    → IsValid t
    → in_field p.fields.hour t.hour ≡ false
    → Skips p t (to_hour t p (next_value_at_or_after t.hour p.hour_values))
hour_jump p t ip v out =
    to_hour-Skips p t (next_value_at_or_after t.hour p.hour_values) ip v
      (Next-strict t.hour p.hour_values p.fields.hour _ ip.same_hours out
        (next_value_at_or_after-Next t.hour p.hour_values ip.hours_sorted))
      (λ w m le same. later_value w.hour t.hour p.fields.hour m.hour_in out (omega arith))

to_minute-Skips :
    (p : Plan) (t : WallTime) (o : Option ℕ)
    → IsPlan p
    → IsValid t
    → in_field p.fields.minute t.minute ≡ false
    → Next (t.minute + 1) p.minute_values o
    → Skips p t (to_minute t p o)
unfolding to_minute
to_minute-Skips p t none ip v out n =
    to_hour-Skips p t (next_value_after t.hour p.hour_values) ip v
      (next_value_after-Next t.hour p.hour_values ip.hours_sorted)
      (λ w m le same.
        let early = n w.minute (ip.same_minutes w.minute ∙ m.minute_in) in
        let other = not_in w.minute t.minute p.fields.minute m.minute_in out in omega arith)
to_minute-Skips p t (some mi) ip v out n =
    let minute_top = ip.in_range.minutes mi (sym (ip.same_minutes mi) ∙ n.0) in
    let later = n.1 in
    (
      omega arith,
      ground arith,
      λ w m le. elim (date_cases v m.real le) [
        | inr lt ↦ omega arith
        | inl same ↦ elim (dec_lt t.hour w.hour) [
          | yes lt ↦ omega arith
          | no not_lt ↦
              let minute_late =
                later_value w.minute t.minute p.fields.minute m.minute_in out (omega arith) in
              let m1 = n.2 w.minute (ip.same_minutes w.minute ∙ m.minute_in) minute_late in
              omega arith
        ]
      ],
    )

pub minute_jump :
    (p : Plan) (t : WallTime)
    → IsPlan p
    → IsValid t
    → in_field p.fields.minute t.minute ≡ false
    → Skips p t (to_minute t p (next_value_at_or_after t.minute p.minute_values))
minute_jump p t ip v out =
    to_minute-Skips p t (next_value_at_or_after t.minute p.minute_values) ip v out (
      Next-strict t.minute p.minute_values p.fields.minute _ ip.same_minutes out
        (next_value_at_or_after-Next t.minute p.minute_values ip.minutes_sorted))

to_month-Skips :
    (p : Plan) (t : WallTime) (o : Option ℕ)
    → IsPlan p
    → IsValid t
    → in_field p.fields.month t.month ≡ false
    → Next (t.month + 1) p.month_values o
    → Skips p t (to_month t p o)
unfolding to_month
to_month-Skips p t none ip v out n =
    let minute_top = ip.in_range.minutes p.first_minute ip.least_minute.0 in
    let hour_top = ip.in_range.hours p.first_hour ip.least_hour.0 in
    let month_top = ip.in_range.months p.first_month ip.least_month.0 in
    let short_t = days_in_month_bounds t.year t.month in
    let short = days_in_month_bounds (t.year + 1) p.first_month in
    (
      omega arith,
      record {
        month_low = month_top.0;
        month_high = month_top.1;
        day_low = omega arith;
        day_high = short.0;
        hour_high = hour_top;
        minute_high = minute_top;
      },
      λ w m le.
          let m1 = ip.least_minute.1 w.minute m.minute_in in
          let h1 = ip.least_hour.1 w.hour m.hour_in in
          let mo1 = ip.least_month.1 w.month m.month_in in
          let early = n w.month (ip.same_months w.month ∙ m.month_in) in
          let other = not_in w.month t.month p.fields.month m.month_in out in
          let short_w = days_in_month_bounds w.year w.month in omega arith,
    )
to_month-Skips p t (some mo) ip v out n =
    let minute_top = ip.in_range.minutes p.first_minute ip.least_minute.0 in
    let hour_top = ip.in_range.hours p.first_hour ip.least_hour.0 in
    let month_top = ip.in_range.months mo (sym (ip.same_months mo) ∙ n.0) in
    let short_t = days_in_month_bounds t.year t.month in
    let short = days_in_month_bounds t.year mo in
    let later = n.1 in
    (
      omega arith,
      record {
        month_low = month_top.0;
        month_high = month_top.1;
        day_low = omega arith;
        day_high = short.0;
        hour_high = hour_top;
        minute_high = minute_top;
      },
      λ w m le.
          let m1 = ip.least_minute.1 w.minute m.minute_in in
          let h1 = ip.least_hour.1 w.hour m.hour_in in
          let short_w = days_in_month_bounds w.year w.month in
          elim (dec_lt t.month w.month) [
            | yes lt ↦
                let mo1 = n.2 w.month (ip.same_months w.month ∙ m.month_in) (omega arith) in
                omega arith
            | no not_lt ↦
                let other = not_in w.month t.month p.fields.month m.month_in out in omega arith
          ],
    )

pub month_jump :
    (p : Plan) (t : WallTime)
    → IsPlan p
    → IsValid t
    → in_field p.fields.month t.month ≡ false
    → Skips p t (next_allowed_month t p)
month_jump p t ip v out =
    to_month-Skips p t (next_value_at_or_after t.month p.month_values) ip v out (
      Next-strict t.month p.month_values p.fields.month _ ip.same_months out
        (next_value_at_or_after-Next t.month p.month_values ip.months_sorted))

-- The days differ, so no time of the same date matches.
pub day_jump :
    (p : Plan) (t : WallTime)
    → IsPlan p
    → IsValid t
    → cron_day_matches t p.fields ≡ false
    → Skips p t (next_day_start t p.first_hour p.first_minute)
day_jump p t ip v out = Skips-next_day p t ip v (λ w m le same.
    let clash : true ≡ false =
      sym m.date_in ∙ rw (sym same.0) (rw (sym same.1) (rw (sym same.2) out)) in
    absurd (ground arith))
