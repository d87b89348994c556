-- ===== src/Execution.antt =====
-- The execution of an analysis: a change event and its analysis job, under a lease.
pub mod ChangeEvents
pub mod AnalysisJobs
pub mod Orchestration
mod Tests
