-- ===== src/Scheduler/Expressions/NextRun.antt =====
-- auto_ingest/scheduler.py: `next_cron_run` from the text of the expression.
use Prim.Native.String.{String}
use nesy_reasoning_mcp.Prelude.{
  ℕ, ◌≤◌, ◌<◌, ◌≡◌, refl, sym, Bool, true, false, Bool-cases, ◌⊎◌, inl, inr, some, List, [], ◌∷◌,
  &&_iff, head?, sort_by, leb, is_empty, insert_by, arith,
}
use nesy_reasoning_mcp.Scheduler.Errors.{Result, ok, err, no_run_time}
use nesy_reasoning_mcp.Scheduler.Calendar.{WallTime, IsValid, stamp, next_minute}
use nesy_reasoning_mcp.Scheduler.Calendar.Dates.{next_minute-le, lt-next_minute}
use nesy_reasoning_mcp.Scheduler.Cron.{
  CronFields, in_field, cron_fields_match, Plan, plan_for, plan_with, next_match, deadline_after,
  Search, unfinished, no_match, found,
}
use nesy_reasoning_mcp.Scheduler.Cron.Jumps.{InRange, Matches}
use nesy_reasoning_mcp.Scheduler.Cron.NextRun.{plan_for-IsPlan, next_match-Answers, Answers}
use nesy_reasoning_mcp.Scheduler.Expressions.{parse_cron, next_cron_run, answer}
use nesy_reasoning_mcp.Scheduler.Expressions.Ranges.{Fields, parse_cron-Fields}

-- A time of the calendar that the fields match.
abbrev pub Fires : CronFields → WallTime → Type 0
Fires f w = IsValid w × (cron_fields_match w f ≡ true)

-- The first firing after `base`.
abbrev pub IsNext : CronFields → WallTime → WallTime → Type 0
IsNext f base u =
    Fires f u
    × (stamp base < stamp u)
    × ((w : WallTime) → Fires f w → stamp base < stamp w → stamp u ≤ stamp w)

-- The last time at which the search looks.
abbrev pub horizon : WallTime → WallTime
horizon base = deadline_after (next_minute base)

-- What the search makes of the plan, in terms of the fields.
abbrev Finds : CronFields → WallTime → Search → Type 0
Finds f base unfinished = ⊥
Finds f base no_match =
    (w : WallTime) → Fires f w → stamp base < stamp w → stamp (horizon base) < stamp w
Finds f base (found u) = IsNext f base u × (stamp u ≤ stamp (horizon base))

Fires-Matches : (p : Plan) (w : WallTime) → Fires p.fields w → Matches p w
Fires-Matches p w (v, m) =
    let (mi, rest) = (&&_iff (in_field p.fields.minute w.minute) _).0 m in
    let (ho, rest') = (&&_iff (in_field p.fields.hour w.hour) _).0 rest in
    let (mo, date) = (&&_iff (in_field p.fields.month w.month) _).0 rest' in
    record { real = v; minute_in = mi; hour_in = ho; month_in = mo; date_in = date }

Matches-Fires : (p : Plan) (w : WallTime) → Matches p w → Fires p.fields w
Matches-Fires p w m = (m.real, rw (m.minute_in, m.hour_in, m.month_in, m.date_in) refl)

Answers-Finds :
    (p : Plan) (base : WallTime) (s : Search)
    → IsValid base
    → Answers p (next_minute base) (horizon base) s
    → Finds p.fields base s
Answers-Finds p base unfinished v a = a
Answers-Finds p base no_match v a = λ w m lt. a w (Fires-Matches p w m) (next_minute-le v m.0 lt)
Answers-Finds p base (found u) v (m, from, upto, least) = (
  (
    Matches-Fires p u m,
    (let step = lt-next_minute v in omega arith),
    λ w n lt. least w (Fires-Matches p w n) (next_minute-le v n.0 lt),
  ),
  upto,
)

head?-insert_by : (x : ℕ) (ys : List ℕ) → (v : ℕ) × (head? (insert_by leb x ys) ≡ some v)
head?-insert_by x [] = (x, refl)
head?-insert_by x (y ∷ ys) = elim (Bool-cases (leb x y)) [
  | inl e ↦ (x, rw e refl)
  | inr e ↦ (y, rw e refl)
]

head?-sort_by :
    (field : List ℕ) → is_empty field ≡ false → (v : ℕ) × (head? (sort_by leb field) ≡ some v)
head?-sort_by [] h = cc
head?-sort_by (x ∷ xs) h = head?-insert_by x (sort_by leb xs)

plan_for_total : (f : CronFields) → Fields f → (p : Plan) × (plan_for f ≡ some p) × (p.fields ≡ f)
unfolding plan_for
plan_for_total f (mi, ho, da, mo, we) =
    let (m, em) = head?-sort_by f.minute mi.1 in
    let (h, eh) = head?-sort_by f.hour ho.1 in
    let (n, en) = head?-sort_by f.month mo.1 in (plan_with f m h n, rw (em, eh, en) refl, refl)

in_range : (f : CronFields) → Fields f → InRange f
in_range f (mi, ho, da, mo, we) = record {
  minutes = λ w m. (mi.0 w m).1;
  hours = λ w m. (ho.0 w m).1;
  months = λ w m. mo.0 w m;
}

-- The result of `next_cron_run`, by what the search found.
abbrev pub Returns : CronFields → WallTime → (WallTime → String) → Result String → Type 0
Returns f base utc_iso result =
    ((u : WallTime) × (result ≡ ok (utc_iso u)) × IsNext f base u)
    ⊎ ((result ≡ err no_run_time)
        × ((w : WallTime) → Fires f w → stamp base < stamp w → stamp (horizon base) < stamp w))

answer-Returns :
    (f : CronFields) (base : WallTime) (utc_iso : WallTime → String) (s : Search)
    → Finds f base s
    → Returns f base utc_iso (answer utc_iso s)
answer-Returns f base utc_iso unfinished h = absurd h
answer-Returns f base utc_iso no_match h = inr (refl, h)
answer-Returns f base utc_iso (found u) (next, upto) = inl (u, refl, next)

module _ {Instant : Type 0} (known : String → Bool) (wall : String → Instant → WallTime)
    (utc_iso : String → WallTime → String) where
  -- For an expression that parses, a known time zone and a valid wall time of `after` in it,
  -- `next_cron_run` ends without an IndexError: it returns the first valid wall time after `after`
  -- that the fields match, or it raises the error for no run, and then every such time is more than
  -- 366 days after the minute that follows `after`.
  pub next_cron_run_first :
      (cron timezone : String) (after : Instant) (f : CronFields)
      → parse_cron cron ≡ ok f
      → known timezone ≡ true
      → IsValid (wall timezone after)
      → Returns f
          (wall timezone after)
          (utc_iso timezone)
          (next_cron_run known wall utc_iso cron timezone after)
  unfolding next_cron_run
  next_cron_run_first cron timezone after f parsed is_known v =
      let good = parse_cron-Fields cron f parsed in
      let (p, planned, same) = plan_for_total f good in
      let ip = plan_for-IsPlan f p (in_range f good) planned in
      let base = wall timezone after in
      let right : Finds f base (next_match p base) =
        rw (sym same)
          (Answers-Finds p base (next_match p base) v (next_match-Answers p base ip v)) in
      let reads : next_cron_run known wall utc_iso cron timezone after
          ≡ answer (utc_iso timezone) (next_match p base) =
        rw parsed (rw is_known (rw planned refl)) in
      rw reads (answer-Returns f base (utc_iso timezone) (next_match p base) right)
