-- ===== src/Scheduler/Runner.antt =====
-- auto_ingest/cli.py: one run of a scheduled job, `_run_scheduled_ingestion_job`. The run of the
-- agents between the claim of the job and its end is an outcome that the environment chooses; other
-- workers act on the store in between.
pub mod Begins
pub mod Exclusive
pub mod Settles
pub mod Workers
use nesy_reasoning_mcp.Prelude.{
  ℕ, zero, suc, ◌+◌, ◌-◌, drop, ◌≡◌, refl, Bool, true, false, ◌&&◌, ◌||◌, not, if◌then◌else◌,
  String, Option, some, none, List, [], ◌∷◌, ◌++◌, any, length, text_key, ◌==◌,
}
use nesy_reasoning_mcp.Schemas.{
  Fields, field, end, Value, text, num, bool, null, arr, obj, Items, item, no_items, get,
}
use nesy_reasoning_mcp.AutoIngest.Decisions.{VotingPolicy}
use nesy_reasoning_mcp.Scheduler.Errors.{CronError, Result, ok, err, ◌>>=◌}
use nesy_reasoning_mcp.Scheduler.Schemas.{
  Level, Diagnostic, ScheduledJobStatus, job_status_key, ScheduledRunStatus, run_status_key,
  RunTrigger, Job, Run, State,
}
use nesy_reasoning_mcp.Scheduler.States.{
  Clock, next_state_for_success, next_state_for_failure, next_state_for_skip,
  scheduled_reviewer_count, scheduled_write_diagnostics, is_error,
}
use nesy_reasoning_mcp.Storage.Schedules.{
  Schedules, update_scheduled_ingestion_job_state, append_scheduled_ingestion_run,
}
use nesy_reasoning_mcp.Storage.Audit.{AuditEntry, record_audit}

-- The parts of the store that a run changes.
pub record World : Type 0 where
  pub schedules : Schedules
  pub audit_log : List AuditEntry
  pub audited : Bool

-- What `uuid4` and the clock give to one run.
pub record Readings : Type 0 where
  pub run_id : String
  pub started_at : String
  pub finished_at : String
  pub stored_at : String
  pub audit_id : String
  pub audit_at : String

-- dict.update of one entry
abbrev set_field : String → Value → Fields → Fields
set_field name value end = field name value end
set_field name value (field j v rest) =
    if j == name then field j value rest else field j v (set_field name value rest)

abbrev policy_text : VotingPolicy → String
policy_text VotingPolicy.risk_tiered = "risk_tiered"
policy_text VotingPolicy.unanimous = "unanimous"
policy_text VotingPolicy.majority = "majority"

abbrev trigger_text : RunTrigger → String
trigger_text RunTrigger.manual = "manual"
trigger_text RunTrigger.due = "due"
trigger_text RunTrigger.worker = "worker"

abbrev run_status_text : ScheduledRunStatus → String
run_status_text ScheduledRunStatus.running = "running"
run_status_text ScheduledRunStatus.succeeded = "succeeded"
run_status_text ScheduledRunStatus.failed = "failed"
run_status_text ScheduledRunStatus.skipped = "skipped"

abbrev text_or_null : Option String → Value
text_or_null none = null
text_or_null (some s) = text s

abbrev count_items : (Value → Bool) → Items → ℕ
count_items p no_items = 0
count_items p (item v rest) = if p v then suc (count_items p rest) else count_items p rest

abbrev count_in : (Value → Bool) → Option Value → ℕ
count_in p (some (arr items)) = count_items p items
count_in p _ = 0

abbrev is_queued : Value → Bool
is_queued (obj fields) = elim (get "action" fields) [
  | some (text action) ↦ action == "queue"
  | _ ↦ false
]
is_queued _ = false

-- The trace of the report's metadata, if it is a list.
abbrev with_trace : Option Value → Fields → Fields
with_trace (some (obj report_metadata)) metadata = elim (get "runtime_trace" report_metadata) [
  | some (arr trace) ↦ set_field "runtime_trace" (arr trace) metadata
  | _ ↦ metadata
]
with_trace _ metadata = metadata

abbrev base_metadata : Job → List Diagnostic → Fields → Fields
base_metadata job diagnostics rest = field "job_id" (text job.id) (
    field "job_name" (text job.name) (
      field "auto_write" (bool job.write_config.auto_write) (
        field "reviewer_count" (num (scheduled_reviewer_count job.provider_config)) (
          field "voting_policy" (text (policy_text job.provider_config.voting_policy)) (
            field "allow_single_reviewer_write" (bool job.write_config.allow_single_reviewer_write)
              (field "diagnostic_count" (num (length diagnostics)) rest))))))

unfoldable pub scheduled_run_metadata : Job → Option Fields → List Diagnostic → Fields
unfolding get scheduled_reviewer_count
scheduled_run_metadata job none diagnostics = base_metadata job diagnostics end
scheduled_run_metadata job (some payload) diagnostics = with_trace (get "metadata" payload) (
    base_metadata job diagnostics (
      field "written_count" (num (count_in (λ v. true) (get "written_relation_ids" payload)))
        (field "queued_count" (num (count_in is_queued (get "gate_results" payload))) end)))

unfoldable pub scheduled_run_audit_metadata : Job → Run → Fields
scheduled_run_audit_metadata job run = set_field "report_path" (text_or_null run.report_path) (
    set_field "status" (text (run_status_text run.status))
      (set_field "run_id" (text run.id) (set_field "job_id" (text job.id) run.metadata)))

abbrev about : Level → String → String → Job → Diagnostic
about level code message job = record {
  level = level;
  code = code;
  message = message;
  related_ids = job.id ∷ [];
}

abbrev already_running : Job → Diagnostic
already_running =
    about Level.warning "SCHEDULED_JOB_ALREADY_RUNNING" "scheduled ingestion job is already running"

abbrev claim_conflict : Job → Diagnostic
claim_conflict =
    about Level.warning "SCHEDULED_JOB_CLAIM_CONFLICT"
      "scheduled ingestion job was already claimed by another worker"

abbrev run_cancelled : Job → Diagnostic
run_cancelled =
    about Level.error "SCHEDULED_INGESTION_RUN_CANCELLED"
      "scheduled ingestion run was cancelled during shutdown"

-- The message ends with the name of the exception's class.
abbrev run_failed : String → Job → Diagnostic
run_failed message job = about Level.error "SCHEDULED_INGESTION_RUN_FAILED" message job

-- What the agents' run comes to.
pub data RunOutcome : Type 0 where
  -- the report's run id, diagnostics and JSON data, and the path that it was written to
  reported : String → List Diagnostic → Fields → String → RunOutcome
  cancelled : RunOutcome
  -- the message of the diagnostic, which names the exception's class
  raised : String → RunOutcome

-- How the call ends.
pub data Ending : Type 0 where
  returned : Run → Ending
  raises : CronError → Ending
  raises_cancelled : Ending

pub data Begun : Type 0 where
  ended : World → Ending → Begun
  claimed : Run → World → Begun

abbrev pub new_run : Readings → Job → RunTrigger → Run
new_run r job trigger = record {
  id = r.run_id;
  job_id = job.id;
  trigger = trigger;
  status = ScheduledRunStatus.running;
  attempt = job.state.retry_count + 1;
  started_at = r.started_at;
  finished_at = none;
  report_run_id = none;
  report_path = none;
  diagnostics = [];
  metadata = end;
}

abbrev pub skipped_run : Readings → Job → RunTrigger → List Diagnostic → Run
skipped_run r job trigger diagnostics = record (new_run r job trigger) {
  status = ScheduledRunStatus.skipped;
  finished_at = some r.finished_at;
  diagnostics = diagnostics;
  metadata = scheduled_run_metadata job none diagnostics;
}

abbrev pub unsafe_run : Readings → Job → RunTrigger → Run
unsafe_run r job trigger = skipped_run r job trigger (scheduled_write_diagnostics job)

abbrev pub appended : Run → World → World
appended run w = record w { schedules = append_scheduled_ingestion_run run w.schedules }

abbrev pub error_diagnostics : Job → Bool
error_diagnostics job = any is_error (scheduled_write_diagnostics job)

-- The claim: the job is made RUNNING if it still has the status of the snapshot.
abbrev pub claim_job : Readings → Job → Schedules → Schedules × Option Job
claim_job r job s =
    update_scheduled_ingestion_job_state r.stored_at job.id
      (record job.state { current_run_id = some r.run_id }) (some ScheduledJobStatus.running)
      (some job.status) s

abbrev truthy : Value → Bool
truthy (obj end) = false
truthy (arr no_items) = false
truthy (text s) = not (s == "")
truthy (num zero) = false
truthy (bool b) = b
truthy null = false
truthy _ = true

-- event.get(name)
abbrev get_or_null : String → Fields → Value
get_or_null name event = elim (get name event) [ none ↦ null | some v ↦ v ]

abbrev to_items : List Fields → Items
to_items [] = no_items
to_items (event ∷ events) = item (obj event) (to_items events)

-- events[-20:]
abbrev last_twenty : List Fields → List Fields
last_twenty events = drop (length events - 20) events

-- `scheduled_progress`: a record of the run for each event; `events` are those so far, with this
-- one.
unfoldable pub scheduled_progress : Job → Run → List Fields → Fields → World → World
unfolding get scheduled_run_metadata
scheduled_progress job run events event w =
    let status = get_or_null "status" event in
    let metadata = set_field "runtime_progress" (arr (to_items (last_twenty events))) (
      set_field "current_status" (if truthy status then status else get_or_null "event" event) (
        set_field "current_stage" (get_or_null "stage" event)
          (scheduled_run_metadata job none (scheduled_write_diagnostics job)))) in
    appended (record run { metadata = metadata }) w

-- A job that was disabled when the run began stays disabled.
abbrev pub kept_disabled : Job → ScheduledJobStatus → ScheduledJobStatus
kept_disabled job status =
    if job.status == ScheduledJobStatus.disabled then ScheduledJobStatus.disabled else status

-- `hash` is that of the audit log.
module _ (c : Clock) (hash : Fields → String) where
  abbrev audit : Readings → Job → Run → String → World → World
  audit r job run result_status w = record w {
    audit_log =
        record_audit hash w.audited r.audit_id r.audit_at "scheduled_ingestion"
          "auto_ingest.schedule.run"
          (field "job_id" (text job.id)
            (field "run_id" (text run.id) (field "trigger" (text (trigger_text run.trigger)) end)))
          result_status (some (scheduled_run_audit_metadata job run)) w.audit_log;
  }

  -- An update without an expected status.
  abbrev stored : Readings → Job → State → ScheduledJobStatus → World → World
  stored r job state status w = record w {
    schedules =
        (update_scheduled_ingestion_job_state r.stored_at job.id state (some status) none
          w.schedules).0;
  }

  -- The branch for write settings that are not safe, with the state after the skip.
  unfoldable pub block : Readings → Job → Run → World → Result State → Begun
  block r job finished w (err e) = ended w (raises e)
  block r job finished w (ok state) =
      ended (audit r job finished "skipped" (stored r job state ScheduledJobStatus.failed w))
        (returned finished)

  -- The rest of the call, with the store after the claim and the job that the claim returned.
  unfoldable pub take_claim : Readings → Job → RunTrigger → World → Option Job → Begun
  take_claim r job trigger w none =
      let finished = skipped_run r job trigger (claim_conflict job ∷ []) in
      ended (audit r job finished "skipped" (appended finished w)) (returned finished)
  take_claim r job trigger w (some _) =
      claimed (new_run r job trigger) (appended (new_run r job trigger) w)

  -- The call up to the run of the agents.
  unfoldable pub begin_run : Readings → Job → RunTrigger → World → Begun
  begin_run r job trigger w =
      if job.status == ScheduledJobStatus.running
      then ended (appended (skipped_run r job trigger (already_running job ∷ [])) w)
          (returned (skipped_run r job trigger (already_running job ∷ [])))
      else if error_diagnostics job
      then block r job (unsafe_run r job trigger) (appended (unsafe_run r job trigger) w)
          (next_state_for_skip c job (unsafe_run r job trigger) none r.finished_at)
      else take_claim r job trigger (record w { schedules = (claim_job r job w.schedules).0 })
          (claim_job r job w.schedules).1

  abbrev failed_run : Readings → Job → Run → List Diagnostic → Run
  failed_run r job run diagnostics = record run {
    status = ScheduledRunStatus.failed;
    finished_at = some r.finished_at;
    diagnostics = diagnostics;
    metadata = scheduled_run_metadata job none diagnostics;
  }

  unfoldable pub finished_run : Readings → Job → Run → RunOutcome → Run
  finished_run r job run (reported run_id report_diagnostics payload path) =
      let diagnostics = scheduled_write_diagnostics job ++ report_diagnostics in
      record run {
        status =
            if any is_error diagnostics
            then ScheduledRunStatus.failed
            else ScheduledRunStatus.succeeded;
        finished_at = some r.finished_at;
        report_run_id = some run_id;
        report_path = some path;
        diagnostics = diagnostics;
        metadata = scheduled_run_metadata job (some payload) diagnostics;
      }
  finished_run r job run cancelled =
      failed_run r job run (scheduled_write_diagnostics job ++ (run_cancelled job ∷ []))
  finished_run r job run (raised message) =
      failed_run r job run (scheduled_write_diagnostics job ++ (run_failed message job ∷ []))

  unfoldable pub next_status_and_state : Readings → Job → Run → Result (ScheduledJobStatus × State)
  next_status_and_state r job finished =
      if finished.status == ScheduledRunStatus.succeeded
      then (next_state_for_success c job finished none r.finished_at >>= λ state.
          ok (kept_disabled job ScheduledJobStatus.active, state))
      else next_state_for_failure c job finished none r.finished_at >>= λ next.
          ok (kept_disabled job (next.0), next.1)

  abbrev ending : RunOutcome → Run → Ending
  ending cancelled finished = raises_cancelled
  ending _ finished = returned finished

  abbrev result_text : RunOutcome → Run → String
  result_text cancelled finished = "cancelled"
  result_text _ finished = run_status_text finished.status

  unfoldable pub settle :
      Readings
      → Job
      → Run
      → RunOutcome
      → Result (ScheduledJobStatus × State)
      → World
      → World × Ending
  settle r job finished outcome (err e) w = (w, raises e)
  settle r job finished outcome (ok (status, state)) w = (
    audit r job finished (result_text outcome finished) (stored r job state status w),
    ending outcome finished,
  )

  -- The call after the run of the agents.
  unfoldable pub end_run : Readings → Job → Run → RunOutcome → World → World × Ending
  end_run r job run outcome w =
      let finished = finished_run r job run outcome in
      settle r job finished outcome (next_status_and_state r job finished) (appended finished w)
