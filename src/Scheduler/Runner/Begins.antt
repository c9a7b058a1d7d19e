-- ===== src/Scheduler/Runner/Begins.antt =====
-- auto_ingest/cli.py: what the first half of a scheduled run does to the list of jobs.
use nesy_reasoning_mcp.Prelude.{
  ◌≡◌, refl, Bool, true, false, ◌⊎◌, inl, inr, if◌then◌else◌, String, Option, some, none, List,
  text_key, ◌==◌,
}
use nesy_reasoning_mcp.Schemas.{Fields}
use nesy_reasoning_mcp.Scheduler.Errors.{CronError, Result, ok, err}
use nesy_reasoning_mcp.Scheduler.Schemas.{
  Job, Run, State, ScheduledJobStatus, job_status_key, RunTrigger,
}
use nesy_reasoning_mcp.Scheduler.States.{Clock}
use nesy_reasoning_mcp.Scheduler.Runner.{
  World, Readings, Begun, ended, claimed, raises, begin_run, block, take_claim, claim_job,
  error_diagnostics, RunOutcome, end_run, settle, unsafe_run, appended, next_status_and_state,
  finished_run,
}
use nesy_reasoning_mcp.Storage.Schedules.{
  Schedules, update_scheduled_ingestion_job_state, append_scheduled_ingestion_run,
}

Result-cases {ℓ} :
    {A : Type ℓ} (x : Result A) → ((e : CronError) × (x ≡ err e)) ⊎ ((a : A) × (x ≡ ok a))
Result-cases (err e) = inl (e, refl)
Result-cases (ok a) = inr (a, refl)

-- The jobs after an update without an expected status.
abbrev pub set_jobs : Readings → Job → State → ScheduledJobStatus → Schedules → List Job
set_jobs r job state status s =
    (update_scheduled_ingestion_job_state r.stored_at job.id state (some status) none s).0.jobs

module _ (c : Clock) (hash : Fields → String) (r : Readings) (job : Job) (t : RunTrigger)
    (w : World) where
  -- What a call that claims the job has done.
  abbrev pub ClaimEffect : Run → World → Type 0
  ClaimEffect run w' =
      ((job.status == ScheduledJobStatus.running) ≡ false)
      × (error_diagnostics job ≡ false)
      × ((k : Job) × ((claim_job r job w.schedules).1 ≡ some k))
      × (w'.schedules.jobs ≡ (claim_job r job w.schedules).0.jobs)
      × (run.id ≡ r.run_id)

  -- What a call that ends at once has done: nothing to the jobs, an update of a job with unsafe
  -- writes, or a claim that failed.
  abbrev pub SkipEffect : World → Type 0
  SkipEffect w' =
      (w'.schedules.jobs ≡ w.schedules.jobs)
      ⊎ ((error_diagnostics job ≡ true)
          × ((state : State) × (w'.schedules.jobs
                ≡ set_jobs r job state ScheduledJobStatus.failed w.schedules)))
      ⊎ (((claim_job r job w.schedules).1 ≡ none)
          × (w'.schedules.jobs ≡ (claim_job r job w.schedules).0.jobs))

  abbrev pub Effect : Begun → Type 0
  Effect (ended w' e) = SkipEffect w'
  Effect (claimed run w') = ClaimEffect run w'

  Effect-if :
      (b : Bool) (x y : Begun)
      → (b ≡ true → Effect x)
      → (b ≡ false → Effect y)
      → Effect (if b then x else y)
  Effect-if true x y f g = f refl
  Effect-if false x y f g = g refl

  block-Effect :
      (run : Run) (next : Result State)
      → error_diagnostics job ≡ true
      → Effect (block c hash r job run (appended run w) next)
  unfolding block append_scheduled_ingestion_run update_scheduled_ingestion_job_state
  block-Effect run (err e) unsafe = inl refl
  block-Effect run (ok state) unsafe = inr (inl (unsafe, (state, refl)))

  take_claim-Effect :
      (k : Option Job)
      → (claim_job r job w.schedules).1 ≡ k
      → (job.status == ScheduledJobStatus.running) ≡ false
      → error_diagnostics job ≡ false
      → Effect
          (take_claim c hash r job t (record w { schedules = (claim_job r job w.schedules).0 }) k)
  unfolding take_claim append_scheduled_ingestion_run
  take_claim-Effect none h idle safe = inr (inr (h, refl))
  take_claim-Effect (some k) h idle safe = (idle, safe, (k, h), refl, refl)

  pub begin_run-Effect : Effect (begin_run c hash r job t w)
  unfolding begin_run append_scheduled_ingestion_run
  begin_run-Effect =
      Effect-if (job.status == ScheduledJobStatus.running) _ _ (λ busy. inl refl)
        (λ idle.
          Effect-if (error_diagnostics job) _ _
            (λ unsafe. block-Effect (unsafe_run r job t) _ unsafe)
            (λ safe. take_claim-Effect _ refl idle safe))

  -- What the second half does: it sets the job's status and state, or nothing if the next run
  -- cannot be computed.
  pub end_run_jobs :
      (run : Run) (outcome : RunOutcome)
      → ((e : CronError) × (next_status_and_state c hash r job
              (finished_run c hash r job run outcome)
            ≡ err e)
          × ((end_run c hash r job run outcome w).1 ≡ raises e)
          × ((end_run c hash r job run outcome w).0.schedules.jobs ≡ w.schedules.jobs))
        ⊎ ((n : ScheduledJobStatus × State) × (next_status_and_state c hash r job
                (finished_run c hash r job run outcome)
              ≡ ok n)
            × ((end_run c hash r job run outcome w).0.schedules.jobs
                ≡ set_jobs r job n.1 n.0 w.schedules))
  unfolding end_run settle append_scheduled_ingestion_run update_scheduled_ingestion_job_state
  end_run_jobs run outcome =
      elim (Result-cases
        (next_status_and_state c hash r job (finished_run c hash r job run outcome))) [
          | inl (e, h) ↦ inl (e, h, rw h refl, rw h refl)
          | inr (n, h) ↦ inr (n, h, rw h refl)
        ]
