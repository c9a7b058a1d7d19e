-- ===== src/Scheduler/Runner/Settles.antt =====
-- auto_ingest/cli.py: what the end of a scheduled run leaves of the job.
use nesy_reasoning_mcp.Prelude.{
  ℕ, ◌+◌, ◌*◌, ◌≡◌, refl, sym, ◌∙◌, ap, Bool, Bool-cases, inl, inr, ◌&&◌, ◌||◌, not, if◌then◌else◌,
  ltb, String, Option, some, none, text_key, ◌==◌, same_refl,
}
use nesy_reasoning_mcp.Schemas.{Fields}
use nesy_reasoning_mcp.Scheduler.Errors.{CronError, Result, ok, err, ok_inj}
use nesy_reasoning_mcp.Scheduler.Schemas.{
  Job, Run, State, ScheduledJobStatus, job_status_key, ScheduledRunStatus, run_status_key,
  RunTrigger,
}
use nesy_reasoning_mcp.Scheduler.States.{
  Clock, next_run, next_state_for_success, next_state_for_failure, text_or,
}
use nesy_reasoning_mcp.Scheduler.Runner.{
  World, Readings, raises, RunOutcome, end_run, finished_run, next_status_and_state,
}
use nesy_reasoning_mcp.Scheduler.Runner.Begins.{end_run_jobs}
use nesy_reasoning_mcp.Scheduler.Runner.Exclusive.{find_job}
use nesy_reasoning_mcp.Storage.Schedules.{get_scheduled_ingestion_job}
use nesy_reasoning_mcp.Storage.Schedules.Refines.{updated_job, get-update}

abbrev succeeded : Run → Bool
succeeded finished = finished.status == ScheduledRunStatus.succeeded

-- The run failed and the snapshot has retries left.
abbrev retried : Job → Run → Bool
retried job finished =
    not (succeeded finished) && ltb job.state.retry_count job.retry_policy.max_retries

-- The status after the run: that of a disabled snapshot is kept; otherwise a job that succeeded or
-- is retried is ACTIVE, and one whose retries are used up is FAILED.
abbrev pub status_after : Job → Run → ScheduledJobStatus
status_after job finished =
    if job.status == ScheduledJobStatus.disabled
    then ScheduledJobStatus.disabled
    else if succeeded finished || retried job finished
    then ScheduledJobStatus.active
    else ScheduledJobStatus.failed

abbrev pub retries_after : Job → Run → ℕ
retries_after job finished = if succeeded finished then 0 else job.state.retry_count + 1

-- What a run leaves, with `next_run_at` as the time of the next one.
pub record After (job : Job) (finished : Run) (next_run_at : String) (status : ScheduledJobStatus)
    (state : State) : Type 0 where
  pub free : state.current_run_id ≡ none
  pub last : state.last_run_id ≡ some finished.id
  pub scheduled : state.next_run_at ≡ some next_run_at
  pub counted : state.retry_count ≡ retries_after job finished
  pub expected : status ≡ status_after job finished

module _ (c : Clock) (hash : Fields → String) where
  -- The time of the next run: after the backoff for a retry, and otherwise by the cron expression.
  abbrev pub next_time : Readings → Job → Run → Result String
  next_time r job finished =
      let finished_at = c.parse_iso (text_or finished.finished_at r.finished_at) in
      let retry_at = finished_at + job.retry_policy.retry_backoff_seconds * 1000000 in
      if retried job finished then ok (c.iso retry_at) else next_run c job finished_at

  next-err :
      (r : Readings) (job : Job) (finished : Run) (e : CronError)
      → next_time r job finished ≡ err e
      → next_status_and_state c hash r job finished ≡ err e
  unfolding next_status_and_state next_state_for_success next_state_for_failure
  next-err r job finished e h = elim (Bool-cases (succeeded finished)) [
    | inl good ↦ rw (good, rw good at h) refl
    | inr bad ↦ elim (Bool-cases (ltb job.state.retry_count job.retry_policy.max_retries)) [
      | inl more ↦ let wrong = rw (bad, more) at h in cc
      | inr over ↦ rw (bad, over, rw (bad, over) at h) refl
    ]
  ]

  next-After :
      (r : Readings) (job : Job) (finished : Run) (t : String)
      → next_time r job finished ≡ ok t
      → (n : ScheduledJobStatus × State) × (next_status_and_state c hash r job finished ≡ ok n)
        × After job finished t n.0 n.1
  unfolding next_status_and_state next_state_for_success next_state_for_failure
  next-After r job finished t h = elim (Bool-cases (succeeded finished)) [
    | inl good ↦
        rw (good, rw good at h)
          (
            _,
            refl,
            record {
              free = refl;
              last = refl;
              scheduled = refl;
              counted = rw good refl;
              expected = rw good refl;
            },
          )
    | inr bad ↦ elim (Bool-cases (ltb job.state.retry_count job.retry_policy.max_retries)) [
      | inl more ↦
          rw (bad, more)
            (
              _,
              refl,
              record {
                free = refl;
                last = refl;
                scheduled = ap some (ok_inj _ t (rw (bad, more) at h));
                counted = rw bad refl;
                expected = rw (bad, more) refl;
              },
            )
      | inr over ↦
          rw (bad, over, rw (bad, over) at h)
            (
              _,
              refl,
              record {
                free = refl;
                last = refl;
                scheduled = refl;
                counted = rw bad refl;
                expected = rw (bad, over) refl;
              },
            )
    ]
  ]

  abbrev pub job_left : Readings → Job → Run → RunOutcome → World → Option Job
  job_left r job run outcome w =
      find_job job.id (end_run c hash r job run outcome w).0.schedules.jobs

  -- What the end of a run leaves under the job's id, `k` being there before.
  pub record Settled (r : Readings) (job : Job) (run : Run) (outcome : RunOutcome) (w : World)
      (k : Job) : Type 0 where
    pub raising :
        (e : CronError)
        → next_time r job (finished_run c hash r job run outcome) ≡ err e
        → ((end_run c hash r job run outcome w).1 ≡ raises e)
          × (job_left r job run outcome w ≡ some k)
    pub releasing :
        (t : String)
        → next_time r job (finished_run c hash r job run outcome) ≡ ok t
        → (k' : Job) × (job_left r job run outcome w ≡ some k')
          × After job (finished_run c hash r job run outcome) t k'.status k'.state

  -- Let `k` be the stored job of a run that ends, whatever its status is by then. The next run is
  -- due after the backoff if this one did not succeed and the snapshot that it began with has
  -- retries left, and otherwise at the next time of the cron expression. If that time cannot be
  -- computed, the call raises and leaves `k` as it is, so a job that the claim made RUNNING stays
  -- so. If it can be computed, no run holds the job any longer, the run is its last one, the next
  -- one is at that time, and the retry count is 0 after a success and one more than the snapshot's
  -- otherwise. The status depends only on the snapshot and on whether the run succeeded: DISABLED if
  -- the snapshot was, even if `k` has been enabled since; otherwise ACTIVE after a success or for a
  -- retry, and FAILED if the retries are used up, even if `k` has been disabled since.
  pub end_run_settles :
      (r : Readings) (job : Job) (run : Run) (outcome : RunOutcome) (w : World) (k : Job)
      → find_job job.id w.schedules.jobs ≡ some k
      → Settled r job run outcome w k
  unfolding get_scheduled_ingestion_job
  end_run_settles r job run outcome w k found =
      let finished = finished_run c hash r job run outcome in
      record {
        raising = λ e h.
            let failed = next-err r job finished e h in
            elim (end_run_jobs c hash r job RunTrigger.due w run outcome) [
              | inl (e', failed', raised_e, jobs) ↦
                  let same : ◌≡◌ {A = Result (ScheduledJobStatus × State)} (err e') (err e) =
                    sym failed' ∙ failed in
                  let same_e : e' ≡ e = cc in
                  (raised_e ∙ ap raises same_e, ap (find_job job.id) jobs ∙ found)
              | inr (n, ready, jobs) ↦ let wrong : ok n ≡ err e = sym ready ∙ failed in cc
            ];
        releasing = λ t h.
            let (m, next, after) = next-After r job finished t h in
            elim (end_run_jobs c hash r job RunTrigger.due w run outcome) [
              | inl (e, failed, _, _) ↦ let wrong : ok m ≡ err e = sym next ∙ failed in cc
              | inr (n, ready, jobs) ↦
                  let same : m ≡ n = ok_inj m n (sym next ∙ ready) in
                  (
                    updated_job r.stored_at n.1 (some n.0) k,
                    ap (find_job job.id) jobs
                        ∙ get-update r.stored_at job.id job.id n.1 (some n.0) none w.schedules
                        ∙ rw (same_refl job.id) (rw found refl),
                    rw same at after,
                  )
            ];
      }
