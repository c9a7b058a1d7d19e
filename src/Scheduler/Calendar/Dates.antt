-- ===== src/Scheduler/Calendar/Dates.antt =====
-- Python's datetime as scheduler.py uses it: the day and the minute after.
use native.Mathlib.Decide.{dec_lt}
use nesy_reasoning_mcp.Prelude.{
  ℕ, zero, suc, ◌+◌, ◌*◌, ◌≤◌, ◌<◌, ◌≡◌, false, Bool-cases, ◌⊎◌, inl, inr, leb, arith,
}
use nesy_reasoning_mcp.Scheduler.Calendar.{
  WallTime, IsValid, stamp, next_day, next_minute, add_days, days_in_month,
}

abbrev pub SameDate : WallTime → WallTime → Type 0
SameDate t w = (t.year ≡ w.year) × (t.month ≡ w.month) × (t.day ≡ w.day)

abbrev pub date_stamp : WallTime → ℕ
date_stamp t = (t.year * 13 + t.month) * 32 + t.day

pub days_in_month_bounds : (y m : ℕ) → (1 ≤ days_in_month y m) × (days_in_month y m ≤ 31)
unfolding days_in_month
days_in_month_bounds y m = ground arith

pub next_day-IsValid : {t : WallTime} → IsValid t → IsValid (next_day t)
unfolding next_day
next_day-IsValid {t} v = elim (Bool-cases (leb (t.day + 1) (days_in_month t.year t.month))) [
  | inl more ↦ rw more (ground arith)
  | inr last ↦ rw last (
      ground
        (arith, days_in_month_bounds t.year (t.month + 1), days_in_month_bounds (t.year + 1) 1))
]

pub date_stamp-next_day : {t : WallTime} → IsValid t → date_stamp t < date_stamp (next_day t)
unfolding next_day
date_stamp-next_day {t} v = ground (arith, days_in_month_bounds t.year t.month)

-- A later date than the last of a month stands in a later month.
later_month :
    {t w : WallTime}
    → IsValid t
    → IsValid w
    → date_stamp t < date_stamp w
    → leb (t.day + 1) (days_in_month t.year t.month) ≡ false
    → t.year * 13 + t.month < w.year * 13 + w.month
later_month {t} {w} v r lt last = elim (dec_lt (t.year * 13 + t.month) (w.year * 13 + w.month)) [
  | yes later ↦ later
  | no not_later ↦
      let y : t.year ≡ w.year = omega (arith, days_in_month_bounds w.year w.month) in
      let m : t.month ≡ w.month = omega (arith, days_in_month_bounds w.year w.month) in
      let same : days_in_month t.year t.month ≡ days_in_month w.year w.month = cc in
      absurd (ground arith)
]

-- A later date is not before the day after.
pub next_day-le :
    {t w : WallTime}
    → IsValid t
    → IsValid w
    → date_stamp t < date_stamp w
    → date_stamp (next_day t) ≤ date_stamp w
unfolding next_day
next_day-le {t} {w} v r lt = elim (Bool-cases (leb (t.day + 1) (days_in_month t.year t.month))) [
  | inl more ↦ rw more (ground arith)
  | inr last ↦
      let later : t.year * 13 + t.month < w.year * 13 + w.month = later_month v r lt last in
      rw last (ground arith)
]

pub date_cases :
    {t w : WallTime}
    → IsValid t
    → IsValid w
    → stamp t ≤ stamp w
    → SameDate t w ⊎ (date_stamp t < date_stamp w)
date_cases {t} {w} v r le =
    let short_t = days_in_month_bounds t.year t.month in
    let short_w = days_in_month_bounds w.year w.month in
    elim (dec_lt (date_stamp t) (date_stamp w)) [
      | yes later ↦ inr later
      | no not_later ↦ inl (omega arith, omega arith, omega arith)
    ]

next_day_time : (t : WallTime) → ((next_day t).hour ≡ t.hour) × ((next_day t).minute ≡ t.minute)
unfolding next_day
next_day_time t = ground arith

-- The last minute of a day is followed by the first of the next day.
midnight-IsValid : {t : WallTime} → IsValid t → IsValid (record t { hour = 0; minute = 0 })
midnight-IsValid v = ground arith

pub next_minute-IsValid : {t : WallTime} → IsValid t → IsValid (next_minute t)
unfolding next_minute
next_minute-IsValid {t} v = let next = next_day-IsValid (midnight-IsValid v) in ground arith

pub lt-next_minute : {t : WallTime} → IsValid t → stamp t < stamp (next_minute t)
unfolding next_minute
lt-next_minute {t} v = let next = date_stamp-next_day (midnight-IsValid v) in ground arith

-- The minute after is the least valid time after `t`.
pub next_minute-le :
    {t w : WallTime} → IsValid t → IsValid w → stamp t < stamp w → stamp (next_minute t) ≤ stamp w
unfolding next_minute
next_minute-le {t} {w} v r lt = elim (date_cases v r (omega arith)) [
  | inl same ↦ ground arith
  | inr later ↦
      let next = next_day-le (midnight-IsValid v) r later in
      ground (arith, next_day_time (record t { hour = 0; minute = 0 }))
]

-- Days later is not before.
pub le-add_days :
    (n : ℕ) {t : WallTime} → IsValid t → IsValid (add_days n t) × (stamp t ≤ stamp (add_days n t))
unfolding add_days
le-add_days zero v = (v, omega arith)
le-add_days (suc n) v =
    let (w, le) = le-add_days n v in
    let next = date_stamp-next_day w in let w' = next_day-IsValid w in (w', omega arith)
