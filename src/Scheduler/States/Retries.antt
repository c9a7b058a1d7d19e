-- ===== src/Scheduler/States/Retries.antt =====
-- auto_ingest/scheduler.py: the retries of a job that fails again and again, and when it is due.
use nesy_reasoning_mcp.Prelude.{
  ℕ, ◌+◌, ◌*◌, ◌≤◌, ◌<◌, ◌≡◌, refl, sym, true, false, Option-cases, inl, inr, ltb, leb, String,
  some, none, List, [], ◌∷◌, length, ◌==◌, text_key, arith,
}
use nesy_reasoning_mcp.Scheduler.Errors.{Result, ok, ◌>>=◌, bind_ok, ok_inj}
use nesy_reasoning_mcp.Scheduler.Schemas.{
  Job, Run, State, ScheduledJobStatus, job_status_key, ScheduledRunStatus,
}
use nesy_reasoning_mcp.Scheduler.States.{
  Clock, next_run, next_state_for_failure, job_due, text_or, or_instant, settled,
}

-- The job with what a failed run leaves.
abbrev pub with_next : Job → ScheduledJobStatus × State → Job
with_next job next = record job { status = next.0; state = next.1 }

-- The texts of instants are not empty and are read back.
pub record IsClock (c : Clock) : Type 0 where
  pub parse_iso-iso : (t : ℕ) → c.parse_iso (c.iso t) ≡ t
  pub given : (t : ℕ) → (c.iso t == "") ≡ false

module _ (c : Clock) (utc_now : String) where
  -- Runs that fail one after the other.
  unfoldable pub fail_all : List Run → Job → Result Job
  fail_all [] job = ok job
  fail_all (run ∷ runs) job =
      next_state_for_failure c job run none utc_now >>= λ next. fail_all runs (with_next job next)

  -- The instant of a retry: the backoff of the job after the run finished.
  abbrev pub retry_at : Job → Run → ℕ
  retry_at job run =
      c.parse_iso (text_or run.finished_at utc_now)
      + job.retry_policy.retry_backoff_seconds * 1000000

  -- What a failed run leaves that is retried: an ACTIVE job, due from the instant of the retry on.
  pub record Retried (job : Job) (run : Run) (next : ScheduledJobStatus × State) : Type 0 where
    pub active : next.0 ≡ ScheduledJobStatus.active
    pub counted : next.1.retry_count ≡ job.state.retry_count + 1
    pub scheduled : next.1.next_run_at ≡ some (c.iso (retry_at job run))
    pub due : (now : ℕ) → job_due c (with_next job next) now ≡ leb (retry_at job run) now

  -- Each of the runs fails and is retried.
  abbrev pub AllRetried : List Run → Job → Job → Type 0
  AllRetried [] job later = job ≡ later
  AllRetried (run ∷ runs) job later =
      (next : ScheduledJobStatus × State) × (next_state_for_failure c job run none utc_now
        ≡ ok next)
      × Retried job run next
      × AllRetried runs (with_next job next) later

  retry_one :
      IsClock c
      → (job : Job) (run : Run) → job.state.retry_count < job.retry_policy.max_retries
      → (next : ScheduledJobStatus × State) × (next_state_for_failure c job run none utc_now
          ≡ ok next)
        × Retried job run next
        × (next.1.retry_count ≡ job.state.retry_count + 1)
  unfolding next_state_for_failure job_due
  retry_one laws job run lt =
      let more : ltb job.state.retry_count job.retry_policy.max_retries ≡ true = ground arith in
      let finished_at = text_or run.finished_at utc_now in
      let next : ScheduledJobStatus × State = (
        ScheduledJobStatus.active,
        settled c job run finished_at (c.iso (retry_at job run)) ScheduledRunStatus.failed
            (job.state.retry_count + 1),
      ) in
      let retried : Retried job run next = record {
        active = refl;
        counted = refl;
        scheduled = refl;
        due = λ now. rw (laws.given (retry_at job run), laws.parse_iso-iso (retry_at job run)) refl;
      } in
      (next, rw more refl, retried, refl)

  give_up :
      (job : Job) (run : Run) (next : ScheduledJobStatus × State)
      → job.retry_policy.max_retries ≤ job.state.retry_count
      → next_state_for_failure c job run none utc_now ≡ ok next
      → next.0 ≡ ScheduledJobStatus.failed
  unfolding next_state_for_failure
  give_up job run next le h =
      let over : ltb job.state.retry_count job.retry_policy.max_retries ≡ false = ground arith in
      let finished_at = text_or run.finished_at utc_now in
      let (n, e, h1) =
        bind_ok (next_run c job (or_instant none (c.parse_iso finished_at))) _ next
          (rw over at h) in
      rw (sym (ok_inj _ _ h1)) refl

  retries_left :
      IsClock c
      → (runs : List Run) (job : Job) → job.status ≡ ScheduledJobStatus.active
      → job.state.retry_count + length runs ≤ job.retry_policy.max_retries
      → (later : Job) × (fail_all runs job ≡ ok later)
        × AllRetried runs job later
        × (later.status ≡ ScheduledJobStatus.active)
        × (later.state.retry_count ≡ job.state.retry_count + length runs)
        × (later.retry_policy ≡ job.retry_policy)
  unfolding fail_all
  retries_left laws [] job active le = (job, refl, refl, active, omega arith, refl)
  retries_left laws (run ∷ runs) job active le =
      let (next, e, retried, count) = retry_one laws job run (omega arith) in
      let (later, e', all, status', count', policy) =
        retries_left laws runs (with_next job next) retried.active (omega arith) in
      (later, rw e e', (next, e, retried, all), status', omega arith, policy)

  -- A job that is not ACTIVE is never due.
  job_due-active :
      (job : Job) (now : ℕ)
      → (job.status == ScheduledJobStatus.active) ≡ false
      → job_due c job now ≡ false
  unfolding job_due
  job_due-active job now h = elim (Option-cases job.state.next_run_at) [
    | inl e ↦ rw e refl
    | inr (due_at, e) ↦ rw e (rw h refl)
  ]

  -- An ACTIVE job with `n` retries left is retried after each of `n` failed runs: it stays ACTIVE,
  -- its count goes up by one, its next run is the job's backoff after the failed one finished, and
  -- it is due exactly from that instant on. Its count then is the maximum. If one more failed run
  -- leaves a state, the job is FAILED, and it is not due at any time. The texts of instants are not
  -- empty and are read back.
  pub fail_all_budget :
      IsClock c
      → (runs : List Run) (last : Run) (job : Job) → job.status ≡ ScheduledJobStatus.active
      → job.state.retry_count + length runs ≡ job.retry_policy.max_retries
      → (later : Job) × (fail_all runs job ≡ ok later)
        × AllRetried runs job later
        × (later.status ≡ ScheduledJobStatus.active)
        × (later.state.retry_count ≡ job.retry_policy.max_retries)
        × ((next : ScheduledJobStatus × State)
            → next_state_for_failure c later last none utc_now ≡ ok next
            → (next.0 ≡ ScheduledJobStatus.failed)
              × ((now : ℕ) → job_due c (with_next later next) now ≡ false))
  fail_all_budget laws runs last job active e =
      let (later, done, all, status, count, policy) =
        retries_left laws runs job active (omega arith) in
      let top : later.retry_policy.max_retries ≤ later.state.retry_count =
        rw policy (omega (arith, count)) in
      (
        later,
        done,
        all,
        status,
        omega arith,
        λ next h.
            let over = give_up later last next top h in
            (over, λ now. job_due-active (with_next later next) now (rw over refl)),
      )
