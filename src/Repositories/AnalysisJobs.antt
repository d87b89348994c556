-- ===== src/Repositories/AnalysisJobs.antt =====
-- `InMemoryAnalysisJobRepository` of application/repositories/in_memory.py.
use ip_risk_agent_v.Base.{
  ◌==◌, Bool, true, false, not, ◌&&◌, ◌||◌, is_some, if◌then◌else◌, Option, none, some, List, [],
  ◌∷◌, keep, any, all, Text, text_eq, same_text, text_leb, sorted, get_item, set_item, values,
  not_found, unique_violation, Instant,
}
use ip_risk_agent_v.Exec.{Exec, raise, gets, modify, refuse_if, ◌>>=◌, ◌>>◌}
use ip_risk_agent_v.Contracts.{AnalysisType, AnalysisStatus, AnalysisCoverage, same_analysis}
use ip_risk_agent_v.Execution.AnalysisJobs.{
  AnalysisJob, AnalysisOutcome, ProviderFailureSummary, is_queued, is_running, is_empty, requested,
}
use ip_risk_agent_v.Repositories.{ControlState}

unfoldable pub get : ControlState → Text → Option AnalysisJob
get s job_id = get_item s.analysis_jobs job_id

abbrev write : AnalysisJob → ControlState → ControlState
write job s = record s { analysis_jobs = set_item job.id job s.analysis_jobs }

unfoldable pub add : AnalysisJob → Exec ControlState (Unit {0})
add job = do
  known ← gets (λ s. get_item s.analysis_jobs job.id)
  refuse_if (is_some known) (unique_violation "analysis job already exists")
  modify (write job)

abbrev same_status : AnalysisStatus → AnalysisStatus → Bool
same_status AnalysisStatus.succeeded AnalysisStatus.succeeded = true
same_status AnalysisStatus.failed AnalysisStatus.failed = true
same_status AnalysisStatus.inconclusive AnalysisStatus.inconclusive = true
same_status AnalysisStatus.skipped AnalysisStatus.skipped = true
same_status _ _ = false

abbrev same_coverage : AnalysisCoverage → AnalysisCoverage → Bool
same_coverage AnalysisCoverage.complete AnalysisCoverage.complete = true
same_coverage AnalysisCoverage.partial AnalysisCoverage.partial = true
same_coverage AnalysisCoverage.none AnalysisCoverage.none = true
same_coverage _ _ = false

abbrev same_flag : Bool → Bool → Bool
same_flag true b = b
same_flag false b = not b

abbrev same_failures : List ProviderFailureSummary → List ProviderFailureSummary → Bool
same_failures [] [] = true
same_failures (f ∷ fs) (g ∷ gs) =
    text_eq f.provider g.provider
    && text_eq f.category g.category
    && same_flag f.retryable g.retryable
    && text_eq f.safe_message g.safe_message
    && same_failures fs gs
same_failures _ _ = false

-- `a == b` on outcomes.
abbrev pub same_outcome : AnalysisOutcome → AnalysisOutcome → Bool
same_outcome a b =
    same_analysis a.analysis_type b.analysis_type
    && text_eq a.result_fingerprint b.result_fingerprint
    && same_status a.status b.status
    && same_coverage a.coverage b.coverage
    && text_eq a.analyzer_version b.analyzer_version
    && a.started_at == b.started_at
    && a.completed_at == b.completed_at
    && same_failures a.provider_failures b.provider_failures
    && same_text a.model_id b.model_id
    && same_text a.prompt_version b.prompt_version
    && same_text a.policy_version b.policy_version
    && same_text a.rag_corpus_version b.rag_corpus_version

-- `job.analysis_outcomes.get(analysis_type)`
unfoldable pub outcome_for :
    List (AnalysisType × AnalysisOutcome) → AnalysisType → Option AnalysisOutcome
outcome_for [] analysis_type = none
outcome_for ((t, o) ∷ rest) analysis_type =
    if same_analysis t analysis_type then some o else outcome_for rest analysis_type

abbrev same_instant : Option Instant → Option Instant → Bool
same_instant none none = true
same_instant (some a) (some b) = a == b
same_instant _ _ = false

abbrev pub is_attempt_reset : AnalysisJob → AnalysisJob → Bool
is_attempt_reset previous job =
    not (is_queued previous.status)
    && (is_queued job.status || is_running job.status)
    && is_empty job.analysis_outcomes
    && (is_queued job.status || not (same_instant job.started_at previous.started_at))

abbrev keeps_outcome :
    AnalysisJob → (AnalysisType × AnalysisOutcome) → Option AnalysisOutcome → Bool
keeps_outcome job item none = false
keeps_outcome job item (some o) = same_outcome o item.1

unfoldable pub save_over : Option AnalysisJob → AnalysisJob → Exec ControlState (Unit {0})
unfolding outcome_for
save_over none job = raise not_found
save_over (some previous) job = do
  refuse_if
      (not (
        text_eq previous.change_event_id job.change_event_id
        && text_eq previous.artifact_id job.artifact_id
        && text_eq previous.revision job.revision))
      (unique_violation "analysis job source identity is immutable")
  refuse_if
      (not (all (λ t. requested t previous.requested_analysis_types) job.requested_analysis_types))
      (unique_violation "analysis job requested types may only be narrowed")
  refuse_if
      (not (is_attempt_reset previous job)
        && any (λ item. not (keeps_outcome job item (outcome_for job.analysis_outcomes item.0)))
            previous.analysis_outcomes)
      (unique_violation "analysis job outcomes are append-only within an attempt")
  modify (write job)

unfoldable pub save : AnalysisJob → Exec ControlState (Unit {0})
unfolding save_over
save job = do previous ← gets (λ s. get_item s.analysis_jobs job.id); save_over previous job

unfoldable pub list_for_change : ControlState → Text → List AnalysisJob
list_for_change s change_event_id =
    sorted (λ a b. text_leb a.id b.id)
      (keep (λ j. text_eq j.change_event_id change_event_id) (values s.analysis_jobs))
