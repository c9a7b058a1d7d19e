-- ===== src/Scheduler/Runner/Exclusive.antt =====
-- auto_ingest/cli.py: workers that run scheduled jobs on one store, in any order of their calls.
use mathlib.Core.Path.{subst}
use nesy_reasoning_mcp.Prelude.{
  ◌≡◌, refl, sym, ◌∙◌, ap, Bool, true, false, Bool-cases, inl, inr, if◌then◌else◌, String, Option,
  some, none, some_inj, List, ◌∷◌, map, All, All-Memᴰ, All-of_Memᴰ, not, Memᴰ, Memᴰ-map, map-Memᴰ,
  Distinct, Unique, first_with, touched, arith, text_key, ◌==◌, same→eq, same_refl,
}
use nesy_reasoning_mcp.Schemas.{Fields}
use nesy_reasoning_mcp.Scheduler.Schemas.{
  Job, Run, State, ScheduledJobStatus, job_status_key, RunTrigger,
}
use nesy_reasoning_mcp.Scheduler.States.{Clock}
use nesy_reasoning_mcp.Scheduler.States.WriteSafety.{unsafe_writes, error-write_diagnostics}
use nesy_reasoning_mcp.Scheduler.Runner.{World, Readings, claim_job, error_diagnostics}
use nesy_reasoning_mcp.Scheduler.Runner.Begins.{ClaimEffect, SkipEffect}
use nesy_reasoning_mcp.Storage.Schedules.{
  Schedules, get_scheduled_ingestion_job, update_scheduled_ingestion_job_state,
}
use nesy_reasoning_mcp.Storage.Schedules.Refines.{id_of, expects, updated_job, get-update}
use nesy_reasoning_mcp.Storage.Schedules.Claims.{update-found, update-Unique}

-- A claim: the snapshot of the job that a worker runs, and the run.
abbrev pub Claim : Type 0
Claim = Job × Run

abbrev pub claim_id : Claim → String
claim_id cl = cl.0.id

abbrev pub find_job : String → List Job → Option Job
find_job id jobs = first_with id_of id jobs

-- The settings that no run changes.
abbrev pub SameSettings : Job → Job → Type 0
SameSettings k job = (k.write_config ≡ job.write_config) × (k.provider_config ≡ job.provider_config)

abbrev settings_are_safe : Job → Bool
settings_are_safe k = not (unsafe_writes k.write_config k.provider_config)

-- The stored job of a claim is RUNNING, and its writes are safe.
abbrev pub IsHeld : List Job → Claim → Type 0
IsHeld jobs cl =
    (k : Job) × (find_job cl.0.id jobs ≡ some k)
    × (k.status ≡ ScheduledJobStatus.running)
    × (settings_are_safe k ≡ true)

-- Each job is stored once, is RUNNING while a worker runs it, and no two workers run it.
abbrev pub Exclusive : List Claim → List Job → Type 0
Exclusive claims jobs =
    Unique id_of jobs × All (IsHeld jobs) claims × Distinct (map claim_id claims)

-- A snapshot, however old, of a stored job.
abbrev pub FromStore : Job → World → Type 0
FromStore job w = (k : Job) × (find_job job.id w.schedules.jobs ≡ some k) × SameSettings k job

IsHeld-same :
    (jobs jobs' : List Job) (cl : Claim)
    → find_job cl.0.id jobs' ≡ find_job cl.0.id jobs
    → IsHeld jobs cl
    → IsHeld jobs' cl
IsHeld-same jobs jobs' cl same (k, found, running, safe) = (k, same ∙ found, running, safe)

-- An update of another id leaves a job as it is.
update_other :
    (now id other : String) (state : State) (status expected : Option ScheduledJobStatus)
    (s : Schedules)
    → (id == other) ≡ false
    → find_job other (update_scheduled_ingestion_job_state now id state status expected s).0.jobs
      ≡ find_job other s.jobs
unfolding get_scheduled_ingestion_job
update_other now id other state status expected s away =
    get-update now id other state status expected s ∙ rw away refl

-- Two ids of which one is that of a claim and the other is not.
other_id :
    (id : String) (claims : List Claim) (cl : Claim)
    → (¬ Memᴰ id (map claim_id claims))
    → Memᴰ cl claims
    → (id == cl.0.id) ≡ false
other_id id claims cl fresh m = elim (Bool-cases (id == cl.0.id)) [
  | inr away ↦ away
  | inl same ↦
      absurd (fresh (rw (sym (same→eq id cl.0.id same)) at (map-Memᴰ claim_id claims cl m)))
]

-- An update of an id that no worker runs keeps the claims.
pub update-Exclusive :
    (now id : String) (state : State) (status expected : Option ScheduledJobStatus) (s : Schedules)
    (claims : List Claim)
    → (¬ Memᴰ id (map claim_id claims))
    → Exclusive claims s.jobs
    → Exclusive claims (update_scheduled_ingestion_job_state now id state status expected s).0.jobs
update-Exclusive now id state status expected s claims fresh (u, held, d) = (
  update-Unique now id state status expected s u,
  All-of_Memᴰ (IsHeld _) claims (λ cl m.
      IsHeld-same s.jobs _ cl
        (update_other now id cl.0.id state status expected s (other_id id claims cl fresh m))
        (All-Memᴰ (IsHeld s.jobs) claims held m)),
  d,
)

-- A job that some worker runs has the status RUNNING in the store, and safe writes.
held_at :
    (id : String) (claims : List Claim) (jobs : List Job) (k : Job)
    → All (IsHeld jobs) claims
    → find_job id jobs ≡ some k
    → Memᴰ id (map claim_id claims)
    → (k.status ≡ ScheduledJobStatus.running) × (settings_are_safe k ≡ true)
held_at id claims jobs k held found m =
    let (cl, mc, e) = Memᴰ-map claim_id claims id m in
    let (k', found', running, safe) = All-Memᴰ (IsHeld jobs) claims held mc in
    let found_here : find_job id jobs ≡ some k' = rw e found' in
    let one : k' ≡ k = some_inj k' k (sym found_here ∙ found) in
    (rw (sym one) running, rw (sym one) safe)

settings_of :
    (k job : Job)
    → SameSettings k job
    → error_diagnostics job ≡ unsafe_writes k.write_config k.provider_config
settings_of k job (w, p) = rw w (rw p (error-write_diagnostics job))

module _ (r : Readings) (job : Job) (s : Schedules) (k : Job) (u : Unique id_of s.jobs)
    (found : find_job job.id s.jobs ≡ some k) where
  abbrev claim_change : Job → Job
  claim_change =
      updated_job r.stored_at (record job.state { current_run_id = some r.run_id })
        (some ScheduledJobStatus.running)

  claim_result :
      (claim_job r job s).1 ≡ (if expects (some job.status) k then some (claim_change k) else none)
  unfolding get_scheduled_ingestion_job
  claim_result =
      update-found r.stored_at job.id (record job.state { current_run_id = some r.run_id })
        (some ScheduledJobStatus.running) (some job.status) s k u found

  claim_find :
      (other : String)
      → find_job other (claim_job r job s).0.jobs ≡ (
          if job.id == other
          then touched (expects (some job.status)) claim_change (find_job job.id s.jobs)
          else find_job other s.jobs)
  unfolding get_scheduled_ingestion_job
  claim_find other =
      get-update r.stored_at job.id other (record job.state { current_run_id = some r.run_id })
        (some ScheduledJobStatus.running) (some job.status) s

  claim_taken : (x : Job) → (claim_job r job s).1 ≡ some x → k.status ≡ job.status
  claim_taken x taken = elim (Bool-cases (k.status == job.status)) [
    | inl y ↦ same→eq k.status job.status y
    | inr n ↦
        let lost : (claim_job r job s).1 ≡ none = claim_result ∙ rw n refl in
        let clash : some x ≡ none = sym taken ∙ lost in cc
  ]

  -- A claim that takes the job makes it RUNNING.
  claim_taken_find :
      k.status ≡ job.status → find_job job.id (claim_job r job s).0.jobs ≡ some (claim_change k)
  claim_taken_find e =
      claim_find job.id ∙ rw (same_refl job.id) (rw found (rw e (rw (same_refl job.status) refl)))

  -- A claim that does not take the job changes no job.
  claim_lost_find :
      (claim_job r job s).1 ≡ none
      → (other : String) → find_job other (claim_job r job s).0.jobs ≡ find_job other s.jobs
  claim_lost_find lost other = elim (Bool-cases (job.id == other)) [
    | inr away ↦ claim_find other ∙ rw away refl
    | inl here ↦ elim (Bool-cases (k.status == job.status)) [
      | inl y ↦
          let taken : (claim_job r job s).1 ≡ some (claim_change k) = claim_result ∙ rw y refl in
          let clash : none ≡ some (claim_change k) = sym lost ∙ taken in absurd (ground arith)
      | inr n ↦
          claim_find other
          ∙ (rw here (
              rw found
                (rw n (sym found ∙ ap (λ i. find_job i s.jobs) (same→eq job.id other here)))))
    ]
  ]

module _ (c : Clock) (hash : Fields → String) where
  pub claim-Exclusive :
      (r : Readings) (job : Job) (t : RunTrigger) (w w' : World) (run : Run) (claims : List Claim)
      → FromStore job w
      → ClaimEffect c hash r job t w run w'
      → Exclusive claims w.schedules.jobs
      → Exclusive ((job, run) ∷ claims) w'.schedules.jobs
  claim-Exclusive r job t w w' run claims (k, found, same) (idle, safe, (x, taken), jobs, _)
        (u, held, d) =
      let e = claim_taken r job w.schedules k u found x taken in
      let fresh : ¬ Memᴰ job.id (map claim_id claims) = λ m.
        let running = (held_at job.id claims w.schedules.jobs k held found m).0 in
        let busy : (job.status == ScheduledJobStatus.running) ≡ true = rw (sym e ∙ running) refl in
        (let clash : true ≡ false = sym busy ∙ idle in cc) in
      let settings : settings_are_safe k ≡ true = rw (sym (settings_of k job same) ∙ safe) refl in
      let (u', held', d') =
        update-Exclusive r.stored_at job.id (record job.state { current_run_id = some r.run_id })
          (some ScheduledJobStatus.running) (some job.status) w.schedules claims fresh
          (u, held, d) in
      subst (Exclusive ((job, run) ∷ claims)) (sym jobs) (
        u',
        (
          (
            claim_change r job w.schedules k u found k,
            claim_taken_find r job w.schedules k u found e,
            refl,
            settings,
          ),
          held',
        ),
        (fresh, d'),
      )

  pub skip-Exclusive :
      (r : Readings) (job : Job) (t : RunTrigger) (w w' : World) (claims : List Claim)
      → FromStore job w
      → SkipEffect c hash r job t w w'
      → Exclusive claims w.schedules.jobs
      → Exclusive claims w'.schedules.jobs
  skip-Exclusive r job t w w' claims (k, found, same) (inl jobs) ex =
      subst (Exclusive claims) (sym jobs) ex
  skip-Exclusive r job t w w' claims (k, found, same) (inr (inl (unsafe, (state, jobs))))
        (u, held, d) =
      subst (Exclusive claims) (sym jobs) (
        update-Exclusive r.stored_at job.id state (some ScheduledJobStatus.failed) none w.schedules
          claims
          (λ m.
            let safe = (held_at job.id claims w.schedules.jobs k held found m).1 in
            let writes : unsafe_writes k.write_config k.provider_config ≡ true =
              sym (settings_of k job same) ∙ unsafe in
            (let clash : false ≡ true = rw writes at safe in cc))
          (u, held, d))
  skip-Exclusive r job t w w' claims (k, found, same) (inr (inr (lost, jobs))) (u, held, d) =
      subst (Exclusive claims) (sym jobs) (
        update-Unique r.stored_at job.id (record job.state { current_run_id = some r.run_id })
            (some ScheduledJobStatus.running) (some job.status) w.schedules u,
        All-of_Memᴰ (IsHeld _) claims (λ cl m.
            IsHeld-same w.schedules.jobs _ cl
              (claim_lost_find r job w.schedules k u found lost cl.0.id)
              (All-Memᴰ (IsHeld w.schedules.jobs) claims held m)),
        d,
      )
