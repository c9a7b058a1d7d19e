-- ===== src/Storage/Schedules/Claims.antt =====
-- storage/memory.py: the job that a conditional update returns, and the ids that it keeps.
use nesy_reasoning_mcp.Prelude.{
  ◌≡◌, refl, sym, Bool, false, Bool-cases, inl, inr, ◌&&◌, if◌then◌else◌, String, Option, some,
  none, some_inj, List, [], ◌∷◌, map, text_key, ◌==◌, first_with, Unique, Memᴰ, map-Memᴰ,
  map-keys_kept, same→eq,
}
use nesy_reasoning_mcp.Scheduler.Schemas.{Job, State, ScheduledJobStatus, job_status_key}
use nesy_reasoning_mcp.Storage.Schedules.{
  Schedules, get_scheduled_ingestion_job, update_loop, update_scheduled_ingestion_job_state,
}
use nesy_reasoning_mcp.Storage.Schedules.Refines.{id_of, expects, updated_job, update_loop-map}

-- The loop without a hit returns what it had.
update_loop_missed :
    (hit : Job → Bool) (change : Job → Job) (jobs : List Job) (last : Option Job)
    → ((j : Job) → Memᴰ j jobs → hit j ≡ false)
    → (update_loop hit change jobs last).1 ≡ last
unfolding update_loop
update_loop_missed hit change [] last miss = refl
update_loop_missed hit change (job ∷ jobs) last miss =
    rw (miss job (Memᴰ.head refl))
      (update_loop_missed hit change jobs last (λ j m. miss j (Memᴰ.tail m)))

absent_hit :
    (id : String) (p : Job → Bool) (jobs : List Job)
    → (¬ Memᴰ id (map id_of jobs))
    → (j : Job) → Memᴰ j jobs
    → (j.id == id && p j) ≡ false
absent_hit id p jobs absent j m = elim (Bool-cases (j.id == id)) [
  | inl here ↦ absurd (absent (rw (same→eq j.id id here) at (map-Memᴰ id_of jobs j m)))
  | inr away ↦ rw away refl
]

update_loop_found :
    (id : String) (p : Job → Bool) (change : Job → Job) (jobs : List Job) (k : Job)
    → Unique id_of jobs
    → first_with id_of id jobs ≡ some k
    → (update_loop (λ j. j.id == id && p j) change jobs none).1
      ≡ (if p k then some (change k) else none)
unfolding update_loop
update_loop_found id p change [] k u found = cc
update_loop_found id p change (job ∷ jobs) k u found = elim (Bool-cases (job.id == id)) [
  | inl here ↦
      let absent = rw (same→eq job.id id here) at u.0 in
      let first : job ≡ k = some_inj job k (rw here at found) in
      rw (here, sym first)
        (update_loop_missed (λ j. j.id == id && p j) change jobs
          (if p job then some (change job) else none) (absent_hit id p jobs absent))
  | inr away ↦ rw away (update_loop_found id p change jobs k u.1 (rw away at found))
]

-- If ids are unique, an update returns the job that it changed, or `None` if the job has not the
-- expected status.
pub update-found :
    (now id : String) (state : State) (status expected : Option ScheduledJobStatus) (s : Schedules)
    (k : Job)
    → Unique id_of s.jobs
    → get_scheduled_ingestion_job id s ≡ some k
    → (update_scheduled_ingestion_job_state now id state status expected s).1
      ≡ (if expects expected k then some (updated_job now state status k) else none)
unfolding get_scheduled_ingestion_job update_scheduled_ingestion_job_state
update-found now id state status expected s k u found =
    update_loop_found id (expects expected) (updated_job now state status) s.jobs k u found

pub update-Unique :
    (now id : String) (state : State) (status expected : Option ScheduledJobStatus) (s : Schedules)
    → Unique id_of s.jobs
    → Unique id_of (update_scheduled_ingestion_job_state now id state status expected s).0.jobs
unfolding update_scheduled_ingestion_job_state
update-Unique now id state status expected s u =
    let change = updated_job now state status in
    let hit : Job → Bool = λ j. j.id == id && expects expected j in
    rw (update_loop-map hit change s.jobs none) (
      rw
        (map-keys_kept id_of (λ j. if hit j then change j else j) s.jobs
          (λ j. elim (Bool-cases (hit j)) [ inl y ↦ rw y refl | inr n ↦ rw n refl ]))
        u)
