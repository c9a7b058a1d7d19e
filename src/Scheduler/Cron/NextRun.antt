-- ===== src/Scheduler/Cron/NextRun.antt =====
-- auto_ingest/scheduler.py: the search for the next run ends, and finds the first matching time.
use nesy_reasoning_mcp.Prelude.{
  ℕ, zero, suc, ◌+◌, ◌-◌, ◌≤◌, ◌<◌, ◌≡◌, inl, inr, refl, sym, ◌∙◌, Bool, true, false, Bool-cases,
  leb, leb→le, some, some_inj, bind_some, head?, sort_by, List, arith,
}
use nesy_reasoning_mcp.Scheduler.Calendar.{WallTime, IsValid, stamp, not_after, next_minute}
use nesy_reasoning_mcp.Scheduler.Cron.{
  CronFields, in_field, cron_day_matches, Plan, Turn, fires, moves, turn, Search, unfinished,
  no_match, found, search_next, plan_for, next_match, deadline_after,
}
use nesy_reasoning_mcp.Scheduler.Cron.Values.{in_field-sort_by, sort_by-IsSorted, head_least}
use nesy_reasoning_mcp.Scheduler.Calendar.Dates.{next_minute-IsValid, le-add_days}
use nesy_reasoning_mcp.Scheduler.Cron.Jumps.{
  IsLeast, InRange, IsPlan, Matches, Skips, month_jump, day_jump, hour_jump, minute_jump,
}

-- What one round does: the current time matches, or the jump passes over no matching time.
abbrev TurnIsRight : Plan → WallTime → Turn → Type 0
TurnIsRight p t fires = Matches p t
TurnIsRight p t (moves u) = Skips p t u

turn-IsRight : (p : Plan) (t : WallTime) → IsPlan p → IsValid t → TurnIsRight p t (turn p t)
unfolding turn
turn-IsRight p t ip v = elim (Bool-cases (in_field p.fields.month t.month)) [
  | inr out ↦ rw out (month_jump p t ip v out)
  | inl month ↦ rw month (elim (Bool-cases (cron_day_matches t p.fields)) [
    | inr out ↦ rw out (day_jump p t ip v out)
    | inl date ↦ rw date (elim (Bool-cases (in_field p.fields.hour t.hour)) [
      | inr out ↦ rw out (hour_jump p t ip v out)
      | inl hour ↦ rw hour (elim (Bool-cases (in_field p.fields.minute t.minute)) [
        | inr out ↦ rw out (minute_jump p t ip v out)
        | inl minute ↦ rw minute (record {
          real = v;
          minute_in = minute;
          hour_in = hour;
          month_in = month;
          date_in = date;
        })
      ])
    ])
  ])
]

-- The answer of a search from `t` on: the first matching time, if one is not after the deadline.
abbrev pub Answers : Plan → WallTime → WallTime → Search → Type 0
Answers p t deadline unfinished = ⊥
Answers p t deadline no_match =
    (w : WallTime) → Matches p w → stamp t ≤ stamp w → stamp deadline < stamp w
Answers p t deadline (found u) =
    Matches p u
    × (stamp t ≤ stamp u)
    × (stamp u ≤ stamp deadline)
    × ((w : WallTime) → Matches p w → stamp t ≤ stamp w → stamp u ≤ stamp w)

Answers-skip :
    (p : Plan) (t u deadline : WallTime) (s : Search)
    → Skips p t u
    → Answers p u deadline s
    → Answers p t deadline s
Answers-skip p t u deadline unfinished skip a = a
Answers-skip p t u deadline no_match skip a = λ w m le. a w m (skip.2 w m le)
Answers-skip p t u deadline (found x) skip a = (
  a.0,
  (let forward = skip.0 in let later = a.1 in omega arith),
  a.2,
  λ w m le. a.3 w m (skip.2 w m le),
)

Answers-turn :
    (p : Plan) (t deadline : WallTime) (step : Turn) (rest : WallTime → Search)
    → TurnIsRight p t step
    → IsValid t
    → stamp t ≤ stamp deadline
    → ((u : WallTime) → stamp t < stamp u → IsValid u → Answers p u deadline (rest u))
    → Answers p t deadline (elim step [ fires ↦ found t | moves u ↦ rest u ])
Answers-turn p t deadline fires rest right v in_time later =
    (right, omega arith, in_time, λ w m le. le)
Answers-turn p t deadline (moves u) rest right v in_time later =
    Answers-skip p t u deadline (rest u) right (later u right.0 right.1)

Answers-test :
    (p : Plan) (t deadline : WallTime) (in_time : Bool) (s : Search)
    → (in_time ≡ false → stamp deadline < stamp t)
    → (in_time ≡ true → Answers p t deadline s)
    → Answers p t deadline (elim in_time [ false ↦ no_match | true ↦ s ])
Answers-test p t deadline false s late go = λ w m le. let past = late refl in omega arith
Answers-test p t deadline true s late go = go refl

search_next-Answers :
    (fuel : ℕ) (p : Plan) (deadline t : WallTime)
    → IsPlan p
    → IsValid t
    → 0 < fuel
    → stamp deadline + 1 < stamp t + fuel
    → Answers p t deadline (search_next fuel p deadline t)
unfolding search_next
search_next-Answers zero p deadline t ip v some_fuel enough = absurd (omega arith)
search_next-Answers (suc fuel) p deadline t ip v some_fuel enough =
    Answers-test p t deadline (not_after t deadline) _ (λ late. ground arith)
      (λ in_time.
        let le = leb→le (stamp t) (stamp deadline) in_time in
        Answers-turn p t deadline (turn p t) (search_next fuel p deadline) (turn-IsRight p t ip v) v
          le (λ u lt vu. search_next-Answers fuel p deadline u ip vu (omega arith) (omega arith)))

IsLeast-of_sorted :
    (field : List ℕ) (least : ℕ) → head? (sort_by leb field) ≡ some least → IsLeast least field
IsLeast-of_sorted field least h =
    let (here, low) = head_least (sort_by leb field) least (sort_by-IsSorted field) h in
    (sym (in_field-sort_by least field) ∙ here, λ w m. low w (in_field-sort_by w field ∙ m))

pub plan_for-IsPlan : (f : CronFields) (p : Plan) → InRange f → plan_for f ≡ some p → IsPlan p
unfolding plan_for
plan_for-IsPlan f p ir h =
    let (mi, emi, h1) = bind_some (head? (sort_by leb f.minute)) _ p h in
    let (ho, eho, h2) = bind_some (head? (sort_by leb f.hour)) _ p h1 in
    let (mo, emo, h3) = bind_some (head? (sort_by leb f.month)) _ p h2 in
    rw (sym (some_inj _ _ h3)) (record {
      in_range = ir;
      minutes_sorted = sort_by-IsSorted f.minute;
      hours_sorted = sort_by-IsSorted f.hour;
      months_sorted = sort_by-IsSorted f.month;
      same_minutes = λ w. in_field-sort_by w f.minute;
      same_hours = λ w. in_field-sort_by w f.hour;
      same_months = λ w. in_field-sort_by w f.month;
      least_minute = IsLeast-of_sorted f.minute mi emi;
      least_hour = IsLeast-of_sorted f.hour ho eho;
      least_month = IsLeast-of_sorted f.month mo emo;
    })

-- For the plan of fields in their ranges and a valid time, the search for the next run ends: it
-- finds the first valid time after `base` that the fields match, not later than the deadline, or it
-- reports that every valid time after `base` that they match is later than the deadline.
pub next_match-Answers :
    (p : Plan) (base : WallTime)
    → IsPlan p
    → IsValid base
    → Answers p (next_minute base) (deadline_after (next_minute base)) (next_match p base)
unfolding next_match
next_match-Answers p base ip v =
    let v' = next_minute-IsValid v in
    let (_, le) = le-add_days 366 v' in
    search_next-Answers (stamp (deadline_after (next_minute base)) + 2 - stamp (next_minute base)) p
      (deadline_after (next_minute base)) (next_minute base) ip v' (omega arith) (omega arith)
