-- ===== src/Storage/Schedules/Refines.antt =====
-- storage/memory.py: the list of scheduled jobs implements a map from ids to jobs.
use nesy_reasoning_mcp.Prelude.{
  ◌≡◌, refl, ◌∙◌, ap, Bool, ◌&&◌, if◌then◌else◌, String, Option, some, none, List, [], ◌∷◌, map,
  allows, text_key, ◌==◌, first_with, touched, first_with-replace, first_with-update,
}
use nesy_reasoning_mcp.Scheduler.Schemas.{Job, State, ScheduledJobStatus, job_status_key}
use nesy_reasoning_mcp.Storage.Schedules.{
  Schedules, get_scheduled_ingestion_job, upsert_scheduled_ingestion_job, update_loop,
  update_scheduled_ingestion_job_state,
}

-- A call that changes the jobs, with the time that it reads.
pub data JobCall : Type 0 where
  upsert : String → Job → JobCall
  update : String → String → State → Option ScheduledJobStatus → Option ScheduledJobStatus → JobCall

-- A run of calls on the store.
unfoldable pub run_calls : List JobCall → Schedules → Schedules
run_calls [] s = s
run_calls (upsert now job ∷ calls) s = run_calls calls (upsert_scheduled_ingestion_job now job s).0
run_calls (update now id state status expected ∷ calls) s =
    run_calls calls (update_scheduled_ingestion_job_state now id state status expected s).0

-- What a promise of the store says: one job for each id.
abbrev pub JobMap : Type 0
JobMap = String → Option Job

-- The job that an update leaves.
abbrev pub updated_job : String → State → Option ScheduledJobStatus → Job → Job
updated_job now state status job = record job {
  status = elim status [ none ↦ job.status | some wanted ↦ wanted ];
  state = state;
  updated_at = now;
}

abbrev pub expects : Option ScheduledJobStatus → Job → Bool
expects expected job = allows expected job.status

-- The calls on the map. An update of a missing job, or of one that has not the expected status,
-- changes nothing.
unfoldable pub replay : List JobCall → JobMap → JobMap
replay [] jobs = jobs
replay (upsert now job ∷ calls) jobs =
    replay calls (λ id. if job.id == id then some (record job { updated_at = now }) else jobs id)
replay (update now id state status expected ∷ calls) jobs = replay calls (λ other.
    if id == other
    then touched (expects expected) (updated_job now state status) (jobs id)
    else jobs other)

pub update_loop-map :
    (hit : Job → Bool) (change : Job → Job) (jobs : List Job) (last : Option Job)
    → (update_loop hit change jobs last).0 ≡ map (λ j. if hit j then change j else j) jobs
unfolding update_loop
update_loop-map hit change [] last = refl
update_loop-map hit change (job ∷ jobs) last =
    ap (λ js. (if hit job then change job else job) ∷ js)
      (update_loop-map hit change jobs (if hit job then some (change job) else last))

abbrev pub id_of : Job → String
id_of job = job.id

get-upsert :
    (now other : String) (job : Job) (s : Schedules)
    → get_scheduled_ingestion_job other (upsert_scheduled_ingestion_job now job s).0 ≡ (
        if job.id == other
        then some (record job { updated_at = now })
        else get_scheduled_ingestion_job other s)
unfolding get_scheduled_ingestion_job upsert_scheduled_ingestion_job
get-upsert now other job s =
    first_with-replace id_of job.id other s.jobs (record job { updated_at = now }) refl

pub get-update :
    (now id other : String) (state : State) (status expected : Option ScheduledJobStatus)
    (s : Schedules)
    → get_scheduled_ingestion_job other
        (update_scheduled_ingestion_job_state now id state status expected s).0
      ≡ (if id == other
          then touched
              (expects expected)
              (updated_job now state status)
              (get_scheduled_ingestion_job id s)
          else get_scheduled_ingestion_job other s)
unfolding get_scheduled_ingestion_job update_scheduled_ingestion_job_state
get-update now id other state status expected s =
    let hit : Job → Bool = λ job. job.id == id && expects expected job in
    ap (first_with id_of other) (update_loop-map hit (updated_job now state status) s.jobs none)
    ∙ first_with-update id_of id other (expects expected) (updated_job now state status) (λ x. refl)
        s.jobs

replay-same :
    (calls : List JobCall) (f g : JobMap)
    → ((id : String) → f id ≡ g id)
    → (id : String) → replay calls f id ≡ replay calls g id
unfolding replay
replay-same [] f g e = e
replay-same (upsert now job ∷ calls) f g e =
    replay-same calls _ _
      (λ id. ap (λ o. if job.id == id then some (record job { updated_at = now }) else o) (e id))
replay-same (update now id state status expected ∷ calls) f g e =
    replay-same calls _ _ (λ other. rw (e id, e other) refl)

-- After any calls that add, replace and update jobs, `get_scheduled_ingestion_job` finds under each
-- id what the same calls on a map from ids to jobs leave there, whether or not the ids of the
-- initial list are unique.
pub get-run_calls :
    (calls : List JobCall) (s : Schedules) (id : String)
    → get_scheduled_ingestion_job id (run_calls calls s)
      ≡ replay calls (λ other. get_scheduled_ingestion_job other s) id
unfolding run_calls replay
get-run_calls [] s id = refl
get-run_calls (upsert now job ∷ calls) s id =
    get-run_calls calls (upsert_scheduled_ingestion_job now job s).0 id
    ∙ replay-same calls _ _ (λ other. get-upsert now other job s) id
get-run_calls (update now i state status expected ∷ calls) s id =
    get-run_calls calls (update_scheduled_ingestion_job_state now i state status expected s).0 id
    ∙ replay-same calls _ _ (λ other. get-update now i other state status expected s) id
