-- ===== src/Scheduler.antt =====
-- auto_ingest/scheduler.py: scheduled ingestion jobs, and the cron expressions that time them.
pub mod Calendar
pub mod Cron
pub mod Errors
pub mod Texts
pub mod Expressions
pub mod Schemas
pub mod States
pub mod Runner
