-- ===== src/Scheduler/Calendar.antt =====
-- Python's datetime as scheduler.py uses it: the wall time of a time zone, to the minute.
pub mod Dates
use Prim.Native.Nat.{◌%◌}
use nesy_reasoning_mcp.Prelude.{
  ℕ, zero, suc, ◌+◌, ◌*◌, ◌-◌, ◌/◌, ◌≤◌, Bool, ◌&&◌, ◌||◌, not, if◌then◌else◌, eqb, leb, ◌≡◌, refl,
  List, [], ◌∷◌,
}

-- A naive datetime without seconds.
pub record WallTime : Type 0 where
  pub year : ℕ
  pub month : ℕ
  pub day : ℕ
  pub hour : ℕ
  pub minute : ℕ

is_leap : ℕ → Bool
is_leap y = eqb (y % 4) 0 && (not (eqb (y % 100) 0) || eqb (y % 400) 0)

unfoldable pub days_in_month : ℕ → ℕ → ℕ
unfolding is_leap
days_in_month y m =
    if eqb m 2
    then if is_leap y then 29 else 28
    else if eqb m 4 || eqb m 6 || eqb m 9 || eqb m 11
    then 30
    else 31

pub record IsValid (t : WallTime) : Type 0 where
  pub month_low : 1 ≤ t.month
  pub month_high : t.month ≤ 12
  pub day_low : 1 ≤ t.day
  pub day_high : t.day ≤ days_in_month t.year t.month
  pub hour_high : t.hour ≤ 23
  pub minute_high : t.minute ≤ 59

-- Datetimes are compared field by field, from the year down. Since every field is below its radix,
-- this is the order of one number.
abbrev pub stamp : WallTime → ℕ
stamp t = (((t.year * 13 + t.month) * 32 + t.day) * 24 + t.hour) * 60 + t.minute

abbrev pub not_after : WallTime → WallTime → Bool
not_after t u = leb (stamp t) (stamp u)

-- value + timedelta(days=1)
unfoldable pub next_day : WallTime → WallTime
next_day t =
    if leb (t.day + 1) (days_in_month t.year t.month)
    then record t { day = t.day + 1 }
    else if leb (t.month + 1) 12
    then record t { month = t.month + 1; day = 1 }
    else record t { year = t.year + 1; month = 1; day = 1 }

-- value + timedelta(days=n)
unfoldable pub add_days : ℕ → WallTime → WallTime
add_days zero t = t
add_days (suc n) t = next_day (add_days n t)

-- value + timedelta(minutes=1)
unfoldable pub next_minute : WallTime → WallTime
next_minute t =
    if leb (t.minute + 1) 59
    then record t { minute = t.minute + 1 }
    else if leb (t.hour + 1) 23
    then record t { hour = t.hour + 1; minute = 0 }
    else next_day (record t { hour = 0; minute = 0 })

-- The days of a year's first months.
days_of_months : ℕ → ℕ → ℕ
unfolding days_in_month
days_of_months y zero = 0
days_of_months y (suc n) = days_in_month y (suc n) + days_of_months y n

-- date.toordinal(): the first of January of year 1 is day 1.
toordinal : ℕ → ℕ → ℕ → ℕ
unfolding days_of_months
toordinal y m d =
    let before = y - 1 in
    before * 365 + before / 4 - before / 100 + before / 400 + days_of_months y (m - 1) + d

-- date.weekday(): Monday is 0.
unfoldable pub weekday_of : ℕ → ℕ → ℕ → ℕ
unfolding toordinal
weekday_of y m d = (toordinal y m d + 6) % 7

leap_day :
    next_day (record { year = 2024; month = 2; day = 28; hour = 5; minute = 1 })
    ≡ record { year = 2024; month = 2; day = 29; hour = 5; minute = 1 }
unfolding next_day days_in_month
leap_day = refl

-- The first of January 2026 is a Thursday.
weekday_test : weekday_of 2026 1 1 ≡ 3
unfolding weekday_of days_in_month
weekday_test = refl
