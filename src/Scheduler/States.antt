-- ===== src/Scheduler/States.antt =====
-- auto_ingest/scheduler.py: when a job is due, the states after a run, and the diagnostics of its
-- write settings.
pub mod WriteSafety
pub mod Retries
use nesy_reasoning_mcp.Prelude.{
  ℕ, ◌+◌, ◌*◌, ◌≡◌, Bool, true, false, ◌&&◌, ◌||◌, not, if◌then◌else◌, ltb, leb, String, Option,
  some, none, List, [], ◌∷◌, ◌++◌, dedupe, length, text_key, ◌==◌,
}
use nesy_reasoning_mcp.Scheduler.Calendar.{WallTime}
use nesy_reasoning_mcp.Scheduler.Errors.{Result, ok, err, ◌>>=◌}
use nesy_reasoning_mcp.Scheduler.Expressions.{next_cron_run}
use nesy_reasoning_mcp.Scheduler.Schemas.{
  Level, Diagnostic, ScheduledJobStatus, job_status_key, ScheduledRunStatus, Job, Run, State,
  ProviderConfig, WriteConfig,
}

-- The time functions of Python: the zone database, and the texts of instants, which are numbers of
-- microseconds.
pub record Clock : Type 0 where
  pub known : String → Bool
  pub wall : String → ℕ → WallTime
  pub utc_iso : String → WallTime → String
  -- datetime.fromisoformat, with UTC where the text has no zone
  pub parse_iso : String → ℕ
  -- datetime.isoformat, in UTC
  pub iso : ℕ → String

-- `value or default`
abbrev pub text_or : Option String → String → String
text_or none default = default
text_or (some value) default = if value == "" then default else value

abbrev pub or_instant : Option ℕ → ℕ → ℕ
or_instant none default = default
or_instant (some now) default = now

module _ (c : Clock) where
  unfoldable pub job_due : Job → ℕ → Bool
  job_due job now = elim job.state.next_run_at [
    | none ↦ false
    | some due_at ↦
        if not (job.status == ScheduledJobStatus.active) || due_at == ""
        then false
        else leb (c.parse_iso due_at) now
  ]

  abbrev pub next_run : Job → ℕ → Result String
  next_run job base = next_cron_run c.known c.wall c.utc_iso job.cron job.timezone base

  -- The update that the three states share.
  abbrev pub settled : Job → Run → String → String → ScheduledRunStatus → ℕ → State
  settled job run finished_at next_run_at last_status retry_count = record job.state {
    last_run_at = some finished_at;
    next_run_at = some next_run_at;
    last_status = some last_status;
    retry_count = retry_count;
    current_run_id = none;
    last_run_id = some run.id;
    last_report_run_id = run.report_run_id;
    last_report_path = run.report_path;
    diagnostics = run.diagnostics;
  }

  unfoldable pub next_state_for_success : Job → Run → Option ℕ → String → Result State
  next_state_for_success job run now utc_now =
      let finished_at = text_or run.finished_at utc_now in
      next_run job (or_instant now (c.parse_iso finished_at)) >>= λ next.
      ok (settled job run finished_at next ScheduledRunStatus.succeeded 0)

  unfoldable pub next_state_for_failure :
      Job → Run → Option ℕ → String → Result (ScheduledJobStatus × State)
  next_state_for_failure job run now utc_now =
      let finished_at = text_or run.finished_at utc_now in
      let base_time = or_instant now (c.parse_iso finished_at) in
      let retry_count = job.state.retry_count + 1 in
      if ltb job.state.retry_count job.retry_policy.max_retries
      then ok (
        ScheduledJobStatus.active,
        settled job run finished_at
            (c.iso (base_time + job.retry_policy.retry_backoff_seconds * 1000000))
            ScheduledRunStatus.failed retry_count,
      )
      else next_run job base_time >>= λ next. ok (
        ScheduledJobStatus.failed,
        settled job run finished_at next ScheduledRunStatus.failed retry_count,
      )

  unfoldable pub next_state_for_skip : Job → Run → Option ℕ → String → Result State
  next_state_for_skip job run now utc_now =
      let finished_at = text_or run.finished_at utc_now in
      next_run job (or_instant now (c.parse_iso finished_at)) >>= λ next.
      ok (settled job run finished_at next ScheduledRunStatus.skipped job.state.retry_count)

unfoldable pub scheduled_reviewer_count : ProviderConfig → ℕ
scheduled_reviewer_count p = length (dedupe (p.reviewer_models ++ p.reviewers))

abbrev config_warning : Diagnostic
config_warning = record {
  level = Level.warning;
  code = "SCHEDULED_WRITE_CONFIG";
  message = "scheduled writes are configured but auto-write is disabled";
  related_ids = [];
}

abbrev not_allowed : Job → Diagnostic
not_allowed job = record {
  level = Level.error;
  code = "SCHEDULED_WRITE_NOT_ALLOWED";
  message = "scheduled auto-write requires allow_scheduled_writes=true";
  related_ids = job.id ∷ [];
}

abbrev needs_reviewers : Job → Diagnostic
needs_reviewers job = record {
  level = Level.error;
  code = "SCHEDULED_WRITE_REQUIRES_MULTI_REVIEWER";
  message =
      "scheduled auto-write requires at least two reviewer models or allow_single_reviewer_write=true";
  related_ids = job.id ∷ [];
}

abbrev pub is_error : Diagnostic → Bool
is_error d = elim d.level [ Level.error ↦ true | _ ↦ false ]

unfoldable pub scheduled_write_diagnostics : Job → List Diagnostic
scheduled_write_diagnostics job =
    let w = job.write_config in
    let config = if not w.auto_write && w.allow_scheduled_writes then config_warning ∷ [] else [] in
    if not w.auto_write
    then config
    else config
      ++ ((if not w.allow_scheduled_writes then not_allowed job ∷ [] else [])
          ++ (if ltb (scheduled_reviewer_count job.provider_config) 2
                && not w.allow_single_reviewer_write
              then needs_reviewers job ∷ []
              else []))
