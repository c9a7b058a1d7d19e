-- ===== src/Storage.antt =====
-- storage/: the in-memory store and the helpers that it shares with the other backends.
pub mod Error
pub mod Upsert
pub mod Common
pub mod Replace
pub mod Memory
pub mod Jobs
pub mod ReviewQueue
pub mod Schedules
pub mod Audit
