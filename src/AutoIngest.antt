-- ===== src/AutoIngest.antt =====
-- auto_ingest/: what decides over candidate relations before they reach the graph.
pub mod Decisions
pub mod Records
pub mod Voting
pub mod Gate
