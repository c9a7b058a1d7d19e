-- ===== src/AutoIngest/Voting.antt =====
-- auto_ingest/review_voting.py: the aggregation of several reviewers' decisions on a candidate.
pub mod Summary
pub mod Policies
pub mod Aggregation
pub mod Approval
pub mod HighPriority
