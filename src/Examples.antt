-- ===== src/Examples.antt =====
-- The theorems at concrete inputs, and tests of the definitions.
mod ListGraph
mod Reasoning
mod Negation
mod Contradictions
mod Storage
mod Jobs
mod Voting
mod ReviewQueue
mod Gate
mod Scheduler
mod ScheduledJobs
