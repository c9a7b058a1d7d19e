-- ===== src/Storage/Schedules.antt =====
-- storage/memory.py: the scheduled jobs and their runs.
pub mod Refines
pub mod Claims
use nesy_reasoning_mcp.Prelude.{
  ℕ, ◌≡◌, Bool, true, false, ◌&&◌, ◌||◌, not, if◌then◌else◌, String, Option, some, none, List, [],
  ◌∷◌, ◌++◌, filter, count_if, contains, allows, is_empty, drop, first_with, sort_by, text_key,
  ◌==◌, text_le, pair_le,
}
use nesy_reasoning_mcp.Storage.Memory.Relations.{limited}
use nesy_reasoning_mcp.Scheduler.Schemas.{
  Job, Run, State, ScheduledJobStatus, job_status_key, run_status_key, JobFilter, RunFilter,
}

-- The lists `_scheduled_ingestion_jobs` and `_scheduled_ingestion_runs` of the store.
pub record Schedules : Type 0 where
  pub jobs : List Job
  pub runs : List Run

unfoldable pub upsert_scheduled_ingestion_job : String → Job → Schedules → Schedules × Job × ℕ
upsert_scheduled_ingestion_job utc_now job s =
    let incoming : Job = record job { updated_at = utc_now } in
    let updated = count_if (λ (j : Job). j.id == incoming.id) s.jobs in
    let kept = filter (λ (j : Job). not (j.id == incoming.id)) s.jobs in
    (record s { jobs = kept ++ (incoming ∷ []) }, incoming, updated)

-- `job.state.next_run_at > job_filter.due_before`, with texts in the order of their code points
abbrev due_in_time : Option String → Option String → Bool
due_in_time due_before none = elim due_before [ none ↦ true | some limit ↦ false ]
due_in_time due_before (some next) = elim due_before [
  | none ↦ true
  | some limit ↦ text_le next limit
]

unfoldable pub scheduled_job_matches_filter : Job → JobFilter → Bool
scheduled_job_matches_filter job f =
    if not (is_empty f.ids) && not (contains f.ids job.id)
    then false
    else if not (allows f.status job.status)
    then false
    else due_in_time f.due_before job.state.next_run_at

unfoldable pub scheduled_run_matches_filter : Run → RunFilter → Bool
scheduled_run_matches_filter run f = allows f.job_id run.job_id && allows f.status run.status

-- The order of tuples of texts.
abbrev triple_le : String × String × String → String × String × String → Bool
triple_le (a, b, c) (d, e, f) = if a == d then pair_le (b, c) (e, f) else text_le a d

abbrev job_order : Job → String × String × String
job_order job =
    (elim job.state.next_run_at [ none ↦ "" | some next ↦ next ], job.created_at, job.id)

unfoldable pub list_scheduled_ingestion_jobs :
    Option JobFilter → Option ℕ → ℕ → Schedules → List Job
unfolding scheduled_job_matches_filter
list_scheduled_ingestion_jobs job_filter limit offset s =
    let wanted : Job → Bool =
      λ job. elim job_filter [ none ↦ true | some f ↦ scheduled_job_matches_filter job f ] in
    limited limit
      (drop offset (sort_by (λ i j. triple_le (job_order i) (job_order j)) (filter wanted s.jobs)))

unfoldable pub get_scheduled_ingestion_job : String → Schedules → Option Job
get_scheduled_ingestion_job id s = first_with (λ (job : Job). job.id) id s.jobs

-- The loop of `update_scheduled_ingestion_job_state`: the new list and the last job that it
-- updated.
unfoldable pub update_loop :
    (Job → Bool) → (Job → Job) → List Job → Option Job → List Job × Option Job
update_loop hit change [] updated_job = ([], updated_job)
update_loop hit change (job ∷ jobs) updated_job =
    let (rest, last) =
      update_loop hit change jobs (if hit job then some (change job) else updated_job) in
    ((if hit job then change job else job) ∷ rest, last)

unfoldable pub update_scheduled_ingestion_job_state :
    String
    → String
    → State
    → Option ScheduledJobStatus
    → Option ScheduledJobStatus
    → Schedules
    → Schedules × Option Job
unfolding update_loop
update_scheduled_ingestion_job_state utc_now id state status expected_status s =
    let hit : Job → Bool = λ job. job.id == id && allows expected_status job.status in
    let change : Job → Job = λ job. record job {
      status = elim status [ none ↦ job.status | some wanted ↦ wanted ];
      state = state;
      updated_at = utc_now;
    } in
    let (jobs, updated_job) = update_loop hit change s.jobs none in
    (record s { jobs = jobs }, updated_job)

unfoldable pub append_scheduled_ingestion_run : Run → Schedules → Schedules
append_scheduled_ingestion_run run s = record s {
  runs = filter (λ (r : Run). not (r.id == run.id)) s.runs ++ (run ∷ []);
}

unfoldable pub list_scheduled_ingestion_runs :
    Option RunFilter → Option ℕ → ℕ → Schedules → List Run
unfolding scheduled_run_matches_filter
list_scheduled_ingestion_runs run_filter limit offset s =
    let wanted : Run → Bool =
      λ run. elim run_filter [ none ↦ true | some f ↦ scheduled_run_matches_filter run f ] in
    limited limit (
      drop offset (
        sort_by (λ (q r : Run). pair_le (q.started_at, q.id) (r.started_at, r.id))
          (filter wanted s.runs)))
