-- ===== src/Scheduler/Runner/Workers.antt =====
-- auto_ingest/cli.py: the calls of any number of workers on one store, as steps.
use mathlib.Core.Path.{subst}
use mathlib.Core.List.Memᴰ
use mathlib.Core.List.{map-append}
use nesy_reasoning_mcp.Prelude.{
  ◌≡◌, refl, sym, inl, inr, String, some, none, List, [], ◌∷◌, ◌++◌, map, All, Memᴰ, Distinct,
}
use nesy_reasoning_mcp.Schemas.{Fields}
use nesy_reasoning_mcp.Scheduler.Schemas.{Job, Run, RunTrigger}
use nesy_reasoning_mcp.Scheduler.States.{Clock}
use nesy_reasoning_mcp.Scheduler.Runner.{
  World, Readings, ended, claimed, Ending, begin_run, RunOutcome, end_run, scheduled_progress,
}
use nesy_reasoning_mcp.Scheduler.Runner.Begins.{Effect, begin_run-Effect, end_run_jobs}
use nesy_reasoning_mcp.Scheduler.Runner.Exclusive.{
  Claim, claim_id, Exclusive, IsHeld, FromStore, claim-Exclusive, skip-Exclusive, update-Exclusive,
}
use nesy_reasoning_mcp.Storage.Schedules.{append_scheduled_ingestion_run}

module _ (c : Clock) (hash : Fields → String) where
  -- The runs that workers have claimed, and the store. A worker may begin with a snapshot of any
  -- age, and claims end in any order.
  pub data Step : List Claim → World → List Claim → World → Type 0 where
    claims :
        (held : List Claim) (w w' : World) (r : Readings) (job : Job) (t : RunTrigger) (run : Run)
        → FromStore job w
        → begin_run c hash r job t w ≡ claimed run w'
        → Step held w ((job, run) ∷ held) w'
    skips :
        (held : List Claim) (w w' : World) (r : Readings) (job : Job) (t : RunTrigger) (e : Ending)
        → FromStore job w
        → begin_run c hash r job t w ≡ ended w' e
        → Step held w held w'
    reports :
        (held : List Claim) (w : World) (job : Job) (run : Run) (events : List Fields)
        (event : Fields)
        → Step held w held (scheduled_progress job run events event w)
    ends :
        (before after : List Claim) (w : World) (r : Readings) (job : Job) (run : Run)
        (outcome : RunOutcome)
        → Step
            (before ++ ((job, run) ∷ after))
            w
            (before ++ after)
            (end_run c hash r job run outcome w).0

  pub data Steps (held : List Claim) (w : World) : List Claim → World → Type 0 where
    none_yet : Steps held w held w
    then_step :
        {held₁ held₂ : List Claim} {w₁ w₂ : World}
        → Steps held w held₁ w₁
        → Step held₁ w₁ held₂ w₂
        → Steps held w held₂ w₂

  All-remove :
      (P : Claim → Type 0) (before after : List Claim) (x : Claim)
      → All P (before ++ (x ∷ after))
      → All P (before ++ after)
  All-remove P [] after x (h, hs) = hs
  All-remove P (y ∷ before) after x (h, hs) = (h, All-remove P before after x hs)

  Memᴰ_insert :
      (before after : List String) (x a : String)
      → Memᴰ a (before ++ after)
      → Memᴰ a (before ++ (x ∷ after))
  Memᴰ_insert [] after x a m = Memᴰ.tail m
  Memᴰ_insert (b ∷ before) after x a (Memᴰ.head e) = Memᴰ.head e
  Memᴰ_insert (b ∷ before) after x a (Memᴰ.tail m) = Memᴰ.tail (Memᴰ_insert before after x a m)

  -- An element that is taken out of a list without repetitions is not in the rest.
  Distinct-remove :
      (before after : List String) (x : String)
      → Distinct (before ++ (x ∷ after))
      → Distinct (before ++ after) × (¬ Memᴰ x (before ++ after))
  Distinct-remove [] after x (new, d) = (d, new)
  Distinct-remove (b ∷ before) after x (new, d) =
      let (d', absent) = Distinct-remove before after x d in
      (
        (λ m. new (Memᴰ_insert before after x b m), d'),
        λ m. elim (Memᴰ.cases_cons m) [
          | inl e ↦ new (rw (sym e) (Memᴰ.append_right before (Memᴰ.head refl)))
          | inr t ↦ absent t
        ],
      )

  end-Exclusive :
      (before after : List Claim) (w : World) (r : Readings) (job : Job) (run : Run)
      (outcome : RunOutcome)
      → Exclusive (before ++ ((job, run) ∷ after)) w.schedules.jobs
      → Exclusive (before ++ after) (end_run c hash r job run outcome w).0.schedules.jobs
  end-Exclusive before after w r job run outcome (u, held, d) =
      let (d', absent) =
        Distinct-remove (map claim_id before) (map claim_id after) job.id
          (rw (map-append claim_id before ((job, run) ∷ after)) at d) in
      let fresh : ¬ Memᴰ job.id (map claim_id (before ++ after)) =
        rw (map-append claim_id before after) absent in
      let rest : Exclusive (before ++ after) w.schedules.jobs = (
        u,
        All-remove (IsHeld w.schedules.jobs) before after (job, run) held,
        rw (map-append claim_id before after) d',
      ) in
      elim (end_run_jobs c hash r job RunTrigger.due w run outcome) [
        | inl (e, h, _, same) ↦ subst (Exclusive (before ++ after)) (sym same) rest
        | inr (n, h, same) ↦ subst (Exclusive (before ++ after)) (sym same) (
            update-Exclusive r.stored_at job.id n.1 (some n.0) none w.schedules (before ++ after)
              fresh rest)
      ]

  Step-Exclusive :
      {held₁ held₂ : List Claim} {w₁ w₂ : World}
      → Step held₁ w₁ held₂ w₂
      → Exclusive held₁ w₁.schedules.jobs
      → Exclusive held₂ w₂.schedules.jobs
  unfolding scheduled_progress append_scheduled_ingestion_run
  Step-Exclusive (claims held w w' r job t run from e) ex =
      claim-Exclusive c hash r job t w w' run held from
        (subst (Effect c hash r job t w) e (begin_run-Effect c hash r job t w)) ex
  Step-Exclusive (skips held w w' r job t ending from e) ex =
      skip-Exclusive c hash r job t w w' held from
        (subst (Effect c hash r job t w) e (begin_run-Effect c hash r job t w)) ex
  Step-Exclusive (reports held w job run events event) ex = ex
  Step-Exclusive (ends before after w r job run outcome) ex =
      end-Exclusive before after w r job run outcome ex

  -- From a store with unique job ids and no runs, any calls of any workers lead to a store with
  -- unique job ids in which every claimed run's job is RUNNING, and no two workers run one job.
  pub Steps-Exclusive :
      {w w' : World} {held : List Claim}
      → Exclusive [] w.schedules.jobs
      → Steps [] w held w'
      → Exclusive held w'.schedules.jobs
  Steps-Exclusive ex none_yet = ex
  Steps-Exclusive ex (then_step steps step) = Step-Exclusive step (Steps-Exclusive ex steps)
