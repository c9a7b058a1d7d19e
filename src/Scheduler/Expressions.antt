-- ===== src/Scheduler/Expressions.antt =====
-- auto_ingest/scheduler.py: the parser of cron expressions, and `next_cron_run`.
pub mod Ranges
pub mod NextRun
use Prim.Native.Char.{code}
use Prim.Native.String.{String}
use nesy_reasoning_mcp.Prelude.{
  ℕ, zero, suc, ◌+◌, ◌-◌, ◌/◌, Bool, true, false, ◌||◌, if◌then◌else◌, leb, eqb, not, Option, none,
  some, List, [], ◌∷◌, ◌++◌, map, filter, is_empty, lookup, Dict, ◌==◌, text_key, ◌≡◌, refl,
  sort_by,
}
use nesy_reasoning_mcp.Text.{strip}
use nesy_reasoning_mcp.Scheduler.Errors.{
  CronError, empty_entry, step_not_positive, out_of_range, empty_field, not_five_fields,
  not_a_number, unknown_timezone, no_run_time, no_first_value, unending, Result, ok, err, ◌>>=◌,
}
use nesy_reasoning_mcp.Scheduler.Texts.{
  ℤ, pos, negsuc, ltb_ℤ, split_at, split_once, comma, words, to_int,
}
use nesy_reasoning_mcp.Scheduler.Calendar.{WallTime}
use nesy_reasoning_mcp.Scheduler.Cron.{
  CronFields, in_field, plan_for, Plan, next_match, Search, unfinished, no_match, found,
}

int : String → Result ℤ
int text = elim (to_int text) [ none ↦ err not_a_number | some z ↦ ok z ]

-- `start` and `more` values after it, `step` apart.
abbrev pub range_from : ℕ → ℕ → ℕ → List ℕ
range_from zero start step = start ∷ []
range_from (suc more) start step = start ∷ range_from more (start + step) step

-- range(start, end + 1, step), for 0 < step and start <= end
abbrev pub range_to : ℤ → ℤ → ℤ → List ℕ
range_to (pos start) (pos end) (pos step) = range_from ((end - start) / step) start step
range_to _ _ _ = []

-- `base, step_text = part.split("/", 1)`, or the part with step 1
unfoldable pub base_and_step : String → Result (String × ℤ)
unfolding int split_once to_int
base_and_step part = elim (split_once 47 part) [
  | none ↦ ok (part, pos 1)
  | some (base, step_text) ↦ int step_text >>= λ step.
      if ltb_ℤ (pos 0) step then ok (base, step) else err step_not_positive
]

unfoldable pub bounds : String → ℕ → ℕ → Result (ℤ × ℤ)
unfolding int split_once to_int
bounds base minimum maximum =
    if base == "*" then ok (pos minimum, pos maximum) else elim (split_once 45 base) [
      | some (start_text, end_text) ↦ do start ← int start_text; end ← int end_text; ok (start, end)
      | none ↦ do value ← int base; ok (value, value)
    ]

unfoldable pub values_between : ℤ → ℤ → ℤ → ℕ → ℕ → Result (List ℕ)
values_between start end step minimum maximum =
    if ltb_ℤ start (pos minimum) || (ltb_ℤ (pos maximum) end || ltb_ℤ end start)
    then err out_of_range
    else ok (range_to start end step)

unfoldable pub parse_cron_part : String → ℕ → ℕ → Result (List ℕ)
parse_cron_part part minimum maximum = if part == "" then err empty_entry else do
  with_step ← base_and_step part
  limits ← bounds (with_step.0) minimum maximum
  values_between (limits.0) (limits.1) (with_step.1) minimum maximum

-- The loop that collects the values of the parts.
unfoldable pub parse_parts : List String → ℕ → ℕ → Result (List ℕ)
unfolding strip
parse_parts [] minimum maximum = ok []
parse_parts (part ∷ parts) minimum maximum = do
  values ← parse_cron_part (strip part) minimum maximum
  rest ← parse_parts parts minimum maximum
  ok (values ++ rest)

-- Sunday is 0 or 7.
abbrev sunday_as_zero : Bool → List ℕ → List ℕ
sunday_as_zero normalize_weekday values =
    if normalize_weekday
    then if in_field values 7 then 0 ∷ filter (λ v. not (eqb v 7)) values else values
    else values

unfoldable pub parse_cron_field : String → ℕ → ℕ → Bool → Result (List ℕ)
unfolding parse_parts split_at
parse_cron_field field minimum maximum normalize_weekday = do
  values ← parse_parts (split_at comma field) minimum maximum
  if is_empty values then err empty_field else ok (sunday_as_zero normalize_weekday values)

-- The codes of a text in lower case. Besides the capitals, the Kelvin sign has an ASCII letter as
-- its lower case.
lower_code : ℕ → ℕ
lower_code c = if eqb c 8490 then 107 else if leb 65 c then if leb c 90 then c + 32 else c else c

same_lower : String → String → Bool
unfolding lower_code
same_lower String.[] String.[] = true
same_lower (String.◌∷◌ c s) (String.◌∷◌ d t) =
    let rest = same_lower s t in if eqb (lower_code (code c)) (code d) then rest else false
same_lower _ _ = false

abbrev cron_aliases : List (String × String)
cron_aliases =
    ("@annually", "0 0 1 1 *")
    ∷ ("@yearly", "0 0 1 1 *")
    ∷ ("@monthly", "0 0 1 * *")
    ∷ ("@weekly", "0 0 * * 0")
    ∷ ("@daily", "0 0 * * *")
    ∷ ("@midnight", "0 0 * * *")
    ∷ ("@hourly", "0 * * * *")
    ∷ []

expansion : String → List (String × String) → Option String
unfolding same_lower
expansion cron [] = none
expansion cron ((alias, expanded) ∷ rest) =
    let later = expansion cron rest in if same_lower cron alias then some expanded else later

-- `normalized = cron.strip().lower()` and its entry of CRON_ALIASES, or the text as it is
unfoldable pub expand : String → String
unfolding expansion strip
expand cron = elim (expansion (strip cron) cron_aliases) [ none ↦ cron | some e ↦ e ]

abbrev pub parse_fields : List String → Result CronFields
parse_fields (minute ∷ hour ∷ day ∷ month ∷ weekday ∷ []) = do
  minutes ← parse_cron_field minute 0 59 false
  hours ← parse_cron_field hour 0 23 false
  days ← parse_cron_field day 1 31 false
  months ← parse_cron_field month 1 12 false
  weekdays ← parse_cron_field weekday 0 7 true
  ok (record { minute = minutes; hour = hours; day = days; month = months; weekday = weekdays })
parse_fields _ = err not_five_fields

unfoldable pub parse_cron : String → Result CronFields
unfolding expand words parse_cron_field
parse_cron cron = parse_fields (words (expand cron))

abbrev pub answer : (WallTime → String) → Search → Result String
answer utc_iso unfinished = err unending
answer utc_iso no_match = err no_run_time
answer utc_iso (found t) = ok (utc_iso t)

-- `known` and `wall` are the time zone database: whether a zone exists, and the wall time of an
-- instant in it; `utc_iso` is the UTC text of a wall time in a zone.
module _ {Instant : Type 0} (known : String → Bool) (wall : String → Instant → WallTime)
    (utc_iso : String → WallTime → String) where
  unfoldable pub next_cron_run : String → String → Instant → Result String
  next_cron_run cron timezone after = parse_cron cron >>= λ fields.
      if known timezone
      then elim (plan_for fields) [
        | none ↦ err no_first_value
        | some p ↦ answer (utc_iso timezone) (next_match p (wall timezone after))
      ]
      else err unknown_timezone

parse_weekly :
    parse_cron " @Weekly"
    ≡ ok (record {
      minute = 0 ∷ [];
      hour = 0 ∷ [];
      day = range_from 30 1 1;
      month = range_from 11 1 1;
      weekday = 0 ∷ [];
    })
unfolding parse_cron parse_cron_part base_and_step bounds values_between
parse_weekly = refl

parse_steps : parse_cron_field "1,5-20/6" 0 59 false ≡ ok (1 ∷ 5 ∷ 11 ∷ 17 ∷ [])
unfolding parse_cron_field parse_cron_part base_and_step bounds values_between
parse_steps = refl

parse_sunday : parse_cron_field "6-7" 0 7 true ≡ ok (0 ∷ 6 ∷ [])
unfolding parse_cron_field parse_cron_part base_and_step bounds values_between
parse_sunday = refl

parse_reversed : parse_cron_field "9-7" 0 7 true ≡ err out_of_range
unfolding parse_cron_field parse_cron_part base_and_step bounds values_between
parse_reversed = refl
