-- ===== src/Reconcile/Aggregation.antt =====
-- application/risk_reconcile/service.py: when the outcomes of a job end it, and how.
pub mod Ends
mod Tests
use ip_risk_agent_v.Base.{
  Bool, true, false, not, ◌&&◌, if◌then◌else◌, any, all, keep, map, Option, none, some, List, [],
  ◌∷◌, ◌++◌, Text, codes, text_eq, Instant, aware, Outcome, ok, raised, ◌>>=◌, Error,
}
use ip_risk_agent_v.Contracts.{AnalysisType, AnalysisStatus}
use ip_risk_agent_v.Execution.ChangeEvents.{ChangeEvent, complete_change_event, fail_change_event}
use ip_risk_agent_v.Execution.AnalysisJobs.{
  AnalysisJob, AnalysisJobStatus, AnalysisOutcome, ProviderFailureSummary, covers_requested,
  is_authoritative, complete_analysis_job, is_empty,
}

abbrev pub has_failed : AnalysisStatus → Bool
has_failed AnalysisStatus.failed = true
has_failed _ = false

abbrev pub was_skipped : AnalysisStatus → Bool
was_skipped AnalysisStatus.skipped = true
was_skipped _ = false

-- The provider failures of the outcomes that failed.
abbrev pub failures_of : List AnalysisOutcome → List ProviderFailureSummary
failures_of [] = []
failures_of (o ∷ os) =
    if has_failed o.status then o.provider_failures ++ failures_of os else failures_of os

abbrev pub is_rate_limited : ProviderFailureSummary → Bool
is_rate_limited f = text_eq f.category (codes "RATE_LIMITED")

-- `_failure_reason`
unfoldable pub failure_reason : List AnalysisOutcome → Text
failure_reason outcomes =
    if not (is_empty (failures_of outcomes)) && all is_rate_limited (failures_of outcomes)
    then codes "PROVIDER:QUOTA_EXHAUSTED"
    else codes "one or more requested analyses failed"

-- How a job ends whose outcomes are all there.
pub record Ending : Type 0 where
  pub status : AnalysisJobStatus
  pub failure_safe : Option Text

unfoldable pub ending_of : List AnalysisOutcome → Ending
unfolding failure_reason
ending_of outcomes =
    if any (λ o. has_failed o.status) outcomes
    then record { status = AnalysisJobStatus.failed; failure_safe = some (failure_reason outcomes) }
    else if all is_authoritative outcomes
    then record { status = AnalysisJobStatus.succeeded; failure_safe = none }
    else record {
      status = AnalysisJobStatus.inconclusive;
      failure_safe = some (
          if all (λ o. was_skipped o.status) outcomes
          then codes "ANALYSIS:NOT_APPLICABLE"
          else codes "ANALYSIS:INCOMPLETE_COVERAGE");
    }

abbrev end_event :
    AnalysisJobStatus → Option Text → ChangeEvent → Instant → Outcome Error ChangeEvent
end_event AnalysisJobStatus.failed (some reason) event occurred_at =
    fail_change_event event (aware occurred_at) reason
end_event _ _ event occurred_at = complete_change_event event (aware occurred_at)

-- `_aggregate_job`
unfoldable pub aggregate_job :
    AnalysisJob → ChangeEvent → Instant → Outcome Error (AnalysisJob × ChangeEvent)
unfolding ending_of
aggregate_job job event occurred_at =
    let ending = ending_of (map (λ item. item.1) job.analysis_outcomes) in
    let ended = (do
      ended_job ← complete_analysis_job job ending.status (aware occurred_at) ending.failure_safe
      ended_event ← end_event ending.status ending.failure_safe event occurred_at
      ok (ended_job, ended_event)) in
    if not (covers_requested job.analysis_outcomes job.requested_analysis_types)
    then ok (job, event)
    else ended
