-- ===== src/Examples/Scheduler.antt =====
-- The scheduler's theorems at concrete jobs and times, and tests of its definitions.
use nesy_reasoning_mcp.Prelude.{
  ◌≡◌, refl, true, String, [], ◌∷◌, arith, eqb, if◌then◌else◌, text_key,
}
use nesy_reasoning_mcp.Scheduler.Errors.{ok}
use nesy_reasoning_mcp.Scheduler.Calendar.{
  WallTime, IsValid, stamp, days_in_month, next_day, add_days, next_minute, weekday_of,
}
use nesy_reasoning_mcp.Scheduler.Cron.{
  CronFields, date_matches, next_value_at_or_after, next_value_after, to_month, to_hour, to_minute,
  turn, search_next, plan_for, next_match,
}
use nesy_reasoning_mcp.Scheduler.Expressions.{
  range_from, parse_cron, parse_cron_part, base_and_step, bounds, values_between, next_cron_run,
}
use nesy_reasoning_mcp.Scheduler.Expressions.Ranges.{Fields as FieldsInRange, parse_cron-Fields}
use nesy_reasoning_mcp.Scheduler.Expressions.NextRun.{Returns, next_cron_run_first}

-- Half past nine on Mondays and Fridays in the first half of the year.
abbrev office_hours : CronFields
office_hours = record {
  minute = 30 ∷ [];
  hour = 9 ∷ [];
  day = range_from 30 1 1;
  month = range_from 5 1 1;
  weekday = 1 ∷ 5 ∷ [];
}

parse_office_hours : parse_cron "30 9 * 1-6 1,5" ≡ ok office_hours
unfolding parse_cron parse_cron_part base_and_step bounds values_between
parse_office_hours = refl

-- Monday the 29th of June 2026, at half past nine, and the first Friday of the next year.
abbrev last_run : WallTime
last_run = record { year = 2026; month = 6; day = 29; hour = 9; minute = 30 }

abbrev new_year : WallTime
new_year = record { year = 2027; month = 1; day = 1; hour = 9; minute = 30 }

abbrev wall_text : String → WallTime → String
wall_text zone t = if eqb (stamp t) (stamp new_year) then "new year" else "another time"

office_run :
    next_cron_run {Instant = WallTime}
      (λ zone. true)
      (λ zone t. t)
      wall_text
      "30 9 * 1-6 1,5"
      "UTC"
      last_run
    ≡ ok "new year"
unfolding next_cron_run parse_cron parse_cron_part base_and_step bounds values_between plan_for
    next_match next_minute add_days next_day days_in_month search_next turn date_matches weekday_of
    next_value_at_or_after next_value_after to_month to_hour to_minute
office_run = refl

parse_cron-Fields_example : FieldsInRange office_hours
parse_cron-Fields_example = parse_cron-Fields "30 9 * 1-6 1,5" office_hours parse_office_hours

last_run-IsValid : IsValid last_run
unfolding days_in_month
last_run-IsValid = ground arith

next_cron_run_first_example : Returns office_hours last_run (wall_text "UTC") (
    next_cron_run {Instant = WallTime}
      (λ zone. true)
      (λ zone t. t)
      wall_text
      "30 9 * 1-6 1,5"
      "UTC"
      last_run)
next_cron_run_first_example =
    next_cron_run_first {Instant = WallTime} (λ zone. true) (λ zone t. t) wall_text "30 9 * 1-6 1,5"
      "UTC" last_run office_hours parse_office_hours refl last_run-IsValid
