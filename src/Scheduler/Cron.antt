-- ===== src/Scheduler/Cron.antt =====
-- auto_ingest/scheduler.py: the fields of a cron expression, and the search for the next time at
-- which they match.
mod Values
pub mod Jumps
pub mod NextRun
use Prim.Native.Nat.{◌%◌}
use nesy_reasoning_mcp.Prelude.{
  ℕ, zero, suc, ◌+◌, ◌-◌, ◌≤◌, Bool, true, false, ◌&&◌, if◌then◌else◌, not, ltb, leb, eqb, Option,
  none, some, List, [], ◌∷◌, any, sort_by, length, get_elem?, head?, ◌>>=◌,
}
use nesy_reasoning_mcp.Scheduler.Calendar.{
  WallTime, stamp, not_after, next_day, add_days, next_minute, weekday_of,
}

-- The five sets of a parsed expression, each a list of its values.
pub record CronFields : Type 0 where
  pub minute : List ℕ
  pub hour : List ℕ
  pub day : List ℕ
  pub month : List ℕ
  pub weekday : List ℕ

-- value in fields[label]
abbrev pub in_field : List ℕ → ℕ → Bool
in_field values n = any (λ v. eqb v n) values

-- The days of `_cron_day_matches`, which reads the date of its argument only.
unfoldable pub date_matches : CronFields → ℕ → ℕ → ℕ → Bool
date_matches fields y m d =
    let cron_weekday = (weekday_of y m d + 1) % 7 in
    in_field fields.day d && in_field fields.weekday cron_weekday

abbrev pub cron_day_matches : WallTime → CronFields → Bool
cron_day_matches t fields = date_matches fields t.year t.month t.day

abbrev pub cron_fields_match : WallTime → CronFields → Bool
cron_fields_match t fields =
    in_field fields.minute t.minute
    && (in_field fields.hour t.hour && (in_field fields.month t.month && cron_day_matches t fields))

-- bisect.bisect_left on a sorted list: the number of its values below `x`.
abbrev bisect_left : List ℕ → ℕ → ℕ
bisect_left [] x = 0
bisect_left (v ∷ vs) x = if ltb v x then suc (bisect_left vs x) else 0

unfoldable pub next_value_at_or_after : ℕ → List ℕ → Option ℕ
next_value_at_or_after current values = get_elem? values (bisect_left values current)

unfoldable pub next_value_after : ℕ → List ℕ → Option ℕ
next_value_after current values = get_elem? values (bisect_left values (current + 1))

-- datetime.replace(hour=..., minute=...)
abbrev at : WallTime → ℕ → ℕ → WallTime
at t hour minute = record t { hour = hour; minute = minute }

abbrev pub next_day_start : WallTime → ℕ → ℕ → WallTime
next_day_start t hour minute = at (next_day t) hour minute

-- The locals of `next_cron_run`: the fields, their sorted values and the least ones.
pub record Plan : Type 0 where
  pub fields : CronFields
  pub minute_values : List ℕ
  pub hour_values : List ℕ
  pub month_values : List ℕ
  pub first_minute : ℕ
  pub first_hour : ℕ
  pub first_month : ℕ

-- The two returns of `_next_allowed_month`.
unfoldable pub to_month : WallTime → Plan → Option ℕ → WallTime
to_month t p none = record t {
  year = t.year + 1;
  month = p.first_month;
  day = 1;
  hour = p.first_hour;
  minute = p.first_minute;
}
to_month t p (some next_month) = record t {
  month = next_month;
  day = 1;
  hour = p.first_hour;
  minute = p.first_minute;
}

abbrev pub next_allowed_month : WallTime → Plan → WallTime
next_allowed_month t p = to_month t p (next_value_at_or_after t.month p.month_values)

-- `current.replace(hour=next_hour, ...) if next_hour is not None else _next_day_start(...)`
unfoldable pub to_hour : WallTime → Plan → Option ℕ → WallTime
to_hour t p none = next_day_start t p.first_hour p.first_minute
to_hour t p (some next_hour) = at t next_hour p.first_minute

-- The branch for a minute that does not match.
unfoldable pub to_minute : WallTime → Plan → Option ℕ → WallTime
to_minute t p (some next_minute) = record t { minute = next_minute }
to_minute t p none = to_hour t p (next_value_after t.hour p.hour_values)

-- One round of the loop returns the current time or moves it.
pub data Turn : Type 0 where
  fires : Turn
  moves : WallTime → Turn

unfoldable pub turn : Plan → WallTime → Turn
turn p t =
    if not (in_field p.fields.month t.month)
    then moves (next_allowed_month t p)
    else if not (cron_day_matches t p.fields)
    then moves (next_day_start t p.first_hour p.first_minute)
    else if not (in_field p.fields.hour t.hour)
    then moves (to_hour t p (next_value_at_or_after t.hour p.hour_values))
    else if not (in_field p.fields.minute t.minute)
    then moves (to_minute t p (next_value_at_or_after t.minute p.minute_values))
    else if cron_fields_match t p.fields
    then fires
    else moves t

-- The result of the loop. `unfinished` means that the fuel ran out.
pub data Search : Type 0 where
  unfinished : Search
  no_match : Search
  found : WallTime → Search

unfoldable pub search_next : ℕ → Plan → WallTime → WallTime → Search
search_next zero p deadline current = unfinished
search_next (suc fuel) p deadline current = elim (not_after current deadline) [
  | false ↦ no_match
  | true ↦ elim (turn p current) [
    | fires ↦ found current
    | moves later ↦ search_next fuel p deadline later
  ]
]

-- MAX_CRON_LOOKAHEAD_MINUTES, in days
abbrev pub max_cron_lookahead_days : ℕ
max_cron_lookahead_days = 366

abbrev pub plan_with : CronFields → ℕ → ℕ → ℕ → Plan
plan_with fields m h mo = record {
  fields = fields;
  minute_values = sort_by leb fields.minute;
  hour_values = sort_by leb fields.hour;
  month_values = sort_by leb fields.month;
  first_minute = m;
  first_hour = h;
  first_month = mo;
}

-- `None` is the IndexError of `values[0]` on an empty field, which a parsed expression never has.
unfoldable pub plan_for : CronFields → Option Plan
plan_for fields = do
  m ← head? (sort_by leb fields.minute)
  h ← head? (sort_by leb fields.hour)
  mo ← head? (sort_by leb fields.month)
  some (plan_with fields m h mo)

abbrev pub deadline_after : WallTime → WallTime
deadline_after t = add_days max_cron_lookahead_days t

-- The loop of `next_cron_run` from the minute after the wall time of `after`. Each round moves the
-- time forward, so the number of stamps up to the
-- deadline, with a last round for the test that ends the loop, is enough fuel.
unfoldable pub next_match : Plan → WallTime → Search
next_match p base =
    let current = next_minute base in
    let deadline = deadline_after current in
    search_next (stamp deadline + 2 - stamp current) p deadline current
