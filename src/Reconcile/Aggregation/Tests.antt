-- ===== src/Reconcile/Aggregation/Tests.antt =====
-- A job of one analysis whose provider ran out of quota.
use ip_risk_agent_v.Base.{
  ◌≡◌, refl, arith, true, none, [], ◌∷◌, codes, ok, require_non_empty, strip, strip_of, lstrip,
  rstrip, text_eq, same_text,
}
use ip_risk_agent_v.Contracts.{AnalysisType, AnalysisStatus, AnalysisCoverage}
use ip_risk_agent_v.Execution.ChangeEvents.{
  same_identity, post_init as event_post_init, check_status as event_check_status,
}
use ip_risk_agent_v.Execution.ChangeEvents.Validity as EventValidity
use ip_risk_agent_v.Execution.AnalysisJobs.{
  AnalysisJob, AnalysisOutcome, check_outcomes, post_init as job_post_init,
  check_status as job_check_status,
}
use ip_risk_agent_v.Execution.AnalysisJobs.Validity as JobValidity
use ip_risk_agent_v.Execution.Orchestration.{Execution}
use ip_risk_agent_v.Execution.Orchestration.Coherence.{Coherent, Timely}
use ip_risk_agent_v.Reconcile.Examples.{event, unanswered}
use ip_risk_agent_v.Reconcile.Aggregation.{failure_reason, aggregate_job}
use ip_risk_agent_v.Reconcile.Aggregation.Ends.{Ended, outcomes_of, aggregate_job_ends}

abbrev limited : AnalysisOutcome
limited = record {
  analysis_type = AnalysisType.patent;
  result_fingerprint = codes "f";
  status = AnalysisStatus.failed;
  coverage = AnalysisCoverage.none;
  analyzer_version = codes "1";
  started_at = 20;
  completed_at = 21;
  provider_failures =
      record {
        provider = codes "p";
        category = codes "RATE_LIMITED";
        retryable = true;
        safe_message = codes "later";
      }
      ∷ [];
  model_id = none;
  prompt_version = none;
  policy_version = none;
  rag_corpus_version = none;
}

abbrev job : AnalysisJob
job = record unanswered { analysis_outcomes = (AnalysisType.patent, limited) ∷ [] }

out_of_quota : failure_reason (outcomes_of job) ≡ codes "PROVIDER:QUOTA_EXHAUSTED"
unfolding failure_reason text_eq
out_of_quota = refl

event-IsValid : EventValidity.IsValid event
unfolding event_post_init event_check_status same_identity same_text text_eq require_non_empty strip
    strip_of lstrip rstrip
event-IsValid = (EventValidity.change_event_fixed_iff event).0 refl

job-IsValid : JobValidity.IsValid job
unfolding job_post_init job_check_status check_outcomes require_non_empty strip strip_of lstrip
    rstrip
job-IsValid = (JobValidity.job_fixed job).0 refl

abbrev execution : Execution
execution = record { event = event; job = job }

execution-Coherent : Coherent execution
execution-Coherent = record { event = event-IsValid; job = job-IsValid; paired = tt }

execution-Timely : Timely execution 30
execution-Timely = record {
  event_created = omega arith;
  job_created = omega arith;
  job_started = omega arith;
}

aggregate_job_ends_example :
    (y : Execution) × (aggregate_job job event 30 ≡ ok (y.job, y.event)) × Ended (outcomes_of job) y
aggregate_job_ends_example =
    aggregate_job_ends execution 30 execution-Coherent execution-Timely refl refl
