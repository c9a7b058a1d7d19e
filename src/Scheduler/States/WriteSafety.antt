-- ===== src/Scheduler/States/WriteSafety.antt =====
-- auto_ingest/scheduler.py: which write settings block a run.
use nesy_reasoning_mcp.Prelude.{◌≡◌, refl, Bool, Bool-cases, inl, inr, ◌&&◌, ◌||◌, not, ltb, any}
use nesy_reasoning_mcp.Scheduler.Schemas.{Job, WriteConfig, ProviderConfig}
use nesy_reasoning_mcp.Scheduler.States.{
  is_error, scheduled_reviewer_count, scheduled_write_diagnostics,
}

-- Scheduled writes that were not allowed, or that fewer than two reviewers decide without the
-- permission for one.
abbrev pub unsafe_writes : WriteConfig → ProviderConfig → Bool
unsafe_writes w p =
    w.auto_write
    && (not w.allow_scheduled_writes
        || (ltb (scheduled_reviewer_count p) 2 && not w.allow_single_reviewer_write))

-- The diagnostics of a job have an error exactly if its scheduled writes are not safe.
pub error-write_diagnostics :
    (job : Job)
    → any is_error (scheduled_write_diagnostics job)
      ≡ unsafe_writes job.write_config job.provider_config
unfolding scheduled_write_diagnostics
error-write_diagnostics job = elim (Bool-cases job.write_config.auto_write) [
  | inr a ↦ rw a (elim (Bool-cases job.write_config.allow_scheduled_writes) [
    | inl b ↦ rw b refl
    | inr b ↦ rw b refl
  ])
  | inl a ↦ rw a (elim (Bool-cases job.write_config.allow_scheduled_writes) [
    | inr b ↦ rw b refl
    | inl b ↦
        rw b
          (elim (Bool-cases (
            ltb (scheduled_reviewer_count job.provider_config) 2
            && not job.write_config.allow_single_reviewer_write)) [
              | inl d ↦ rw d refl
              | inr d ↦ rw d refl
            ])
  ])
]
