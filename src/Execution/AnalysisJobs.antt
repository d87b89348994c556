-- ===== src/Execution/AnalysisJobs.antt =====
-- application/analysis_jobs/models.py and transitions.py: the job that analyses one change.
pub mod Validity
pub mod Soundness
pub mod Results
pub mod Returns
use ip_risk_agent_v.Base.{
  ℕ, suc, ◌+◌, ◌≤◌, Bool, true, false, ◌&&◌, ◌||◌, not, leb, ltb, is_none, is_some, if◌then◌else◌,
  Option, none, some, Text, String, List, [], ◌∷◌, any, all, map, Instant, Datetime, normalize_utc,
  require_non_empty, require_chronological, Outcome, ok, raised, ◌>>=◌, ◌>>◌, raise_if, Error,
  invariant, type_error, naive, aware,
}
use ip_risk_agent_v.Contracts.{AnalysisType, AnalysisStatus, AnalysisCoverage, same_analysis}
use ip_risk_agent_v.Risk.Transitions.{is_succeeded, is_complete}
use ip_risk_agent_v.Execution.ChangeEvents.{optional_non_empty}

pub data AnalysisJobStatus : Type 0 where
  queued running succeeded failed inconclusive : AnalysisJobStatus

pub record ProviderFailureSummary : Type 0 where
  pub provider : Text
  pub category : Text
  pub retryable : Bool
  pub safe_message : Text

pub record AnalysisOutcome : Type 0 where
  pub analysis_type : AnalysisType
  pub result_fingerprint : Text
  pub status : AnalysisStatus
  pub coverage : AnalysisCoverage
  pub analyzer_version : Text
  pub started_at : Instant
  pub completed_at : Instant
  pub provider_failures : List ProviderFailureSummary
  pub model_id : Option Text
  pub prompt_version : Option Text
  pub policy_version : Option Text
  pub rag_corpus_version : Option Text

pub record AnalysisJob : Type 0 where
  pub id : Text
  pub change_event_id : Text
  pub artifact_id : Text
  pub revision : Text
  pub requested_analysis_types : List AnalysisType
  pub status : AnalysisJobStatus
  pub created_at : Instant
  pub started_at : Option Instant
  pub completed_at : Option Instant
  pub failure_safe : Option Text
  pub analysis_outcomes : List (AnalysisType × AnalysisOutcome)
  pub analysis_input_checksum : Option Text

abbrev pub is_queued : AnalysisJobStatus → Bool
is_queued AnalysisJobStatus.queued = true
is_queued _ = false

abbrev pub is_running : AnalysisJobStatus → Bool
is_running AnalysisJobStatus.running = true
is_running _ = false

abbrev pub is_failed : AnalysisJobStatus → Bool
is_failed AnalysisJobStatus.failed = true
is_failed _ = false

abbrev pub is_success : AnalysisJobStatus → Bool
is_success AnalysisJobStatus.succeeded = true
is_success _ = false

abbrev pub is_terminal : AnalysisJobStatus → Bool
is_terminal AnalysisJobStatus.queued = false
is_terminal AnalysisJobStatus.running = false
is_terminal _ = true

-- `t in types`
abbrev pub requested : AnalysisType → List AnalysisType → Bool
requested t types = any (same_analysis t) types

abbrev pub is_empty {ℓ} : {A : Type ℓ} → List A → Bool
is_empty [] = true
is_empty (x ∷ xs) = false

-- `len(types) == len(set(types))`
abbrev pub unique : List AnalysisType → Bool
unique [] = true
unique (t ∷ types) = not (requested t types) && unique types

-- `set(outcomes) == set(requested)`
abbrev pub covers_requested : List (AnalysisType × AnalysisOutcome) → List AnalysisType → Bool
covers_requested outcomes types =
    all (λ o. requested o.0 types) outcomes
    && all (λ t. any (λ o. same_analysis t o.0) outcomes) types

abbrev pub is_authoritative : AnalysisOutcome → Bool
is_authoritative o = is_succeeded o.status && is_complete o.coverage

-- The loop over `analysis_outcomes.items()`.
unfoldable pub check_outcomes :
    List (AnalysisType × AnalysisOutcome) → List AnalysisType → Outcome Error (Unit {0})
check_outcomes [] types = ok tt
check_outcomes ((t, o) ∷ rest) types = do
  raise_if (not (same_analysis o.analysis_type t))
      (invariant "analysis_job outcome key must match outcome analysis_type")
  raise_if (not (requested t types))
      (invariant "analysis_job outcome must be a requested analysis type")
  check_outcomes rest types

abbrev or_instant : Option Instant → Instant → Instant
or_instant none t = t
or_instant (some s) t = s

-- The checks on `started_at` and `completed_at`.
abbrev check_started : Instant → Option Instant → Outcome Error (Unit {0})
check_started created none = ok tt
check_started created (some started) =
    require_chronological created started "analysis_job.created_at" "analysis_job.started_at"

abbrev check_completed : Instant → Option Instant → Option Instant → Outcome Error (Unit {0})
check_completed created started none = ok tt
check_completed created started (some completed) =
    require_chronological (or_instant started created) completed "analysis_job.started_at"
      "analysis_job.completed_at"

-- The checks on a terminal status.
abbrev check_terminal : AnalysisJob → Outcome Error AnalysisJob
check_terminal j = do
  raise_if (is_none j.started_at || is_none j.completed_at)
      (invariant "terminal analysis job requires started_at and completed_at")
  raise_if (is_failed j.status && is_none j.failure_safe)
      (invariant "FAILED analysis job requires failure_safe")
  raise_if (is_success j.status && is_some j.failure_safe)
      (invariant "SUCCEEDED analysis job cannot have failure_safe")
  raise_if
      (not (is_empty j.analysis_outcomes)
        && not (covers_requested j.analysis_outcomes j.requested_analysis_types))
      (invariant "terminal result-bearing job requires every requested outcome")
  raise_if (is_success j.status && any (λ o. not (is_authoritative o.1)) j.analysis_outcomes)
      (invariant "SUCCEEDED analysis job requires authoritative outcomes")
  ok j

-- The checks on the status that end `__post_init__`.
unfoldable pub check_status : AnalysisJob → AnalysisJobStatus → Outcome Error AnalysisJob
check_status j AnalysisJobStatus.queued = do
  raise_if (is_some j.started_at || is_some j.completed_at)
      (invariant "QUEUED analysis job cannot have execution timestamps")
  raise_if (is_some j.failure_safe) (invariant "QUEUED analysis job cannot have failure_safe")
  raise_if (not (is_empty j.analysis_outcomes))
      (invariant "QUEUED analysis job cannot have outcomes")
  ok j
check_status j AnalysisJobStatus.running = do
  raise_if (is_none j.started_at || is_some j.completed_at)
      (invariant "RUNNING analysis job requires started_at and forbids completed_at")
  raise_if (is_some j.failure_safe) (invariant "RUNNING analysis job cannot have failure_safe")
  ok j
check_status j AnalysisJobStatus.succeeded = check_terminal j
check_status j AnalysisJobStatus.failed = check_terminal j
check_status j AnalysisJobStatus.inconclusive = check_terminal j

-- `AnalysisJob.__post_init__`: the fields that may not be empty, and the rest.
unfoldable pub name_fields : AnalysisJob → Outcome Error AnalysisJob
name_fields j = do
  id ← require_non_empty j.id "analysis_job.id"
  change_event_id ← require_non_empty j.change_event_id "analysis_job.change_event_id"
  artifact_id ← require_non_empty j.artifact_id "analysis_job.artifact_id"
  revision ← require_non_empty j.revision "analysis_job.revision"
  ok record j {
    id = id;
    change_event_id = change_event_id;
    artifact_id = artifact_id;
    revision = revision;
  }

unfoldable pub check_fields : AnalysisJob → Outcome Error AnalysisJob
check_fields j = do
  raise_if (is_empty j.requested_analysis_types)
      (invariant "analysis_job.requested_analysis_types must not be empty")
  raise_if (not (unique j.requested_analysis_types))
      (invariant "analysis_job.requested_analysis_types must be unique")
  check_started j.created_at j.started_at
  check_completed j.created_at j.started_at j.completed_at
  failure_safe ← optional_non_empty j.failure_safe "analysis_job.failure_safe"
  check_outcomes j.analysis_outcomes j.requested_analysis_types
  check_status record j { failure_safe = failure_safe } j.status

-- What the constructor and `dataclasses.replace` return.
unfoldable pub post_init : AnalysisJob → Outcome Error AnalysisJob
unfolding name_fields check_fields
post_init j = do named ← name_fields j; check_fields named

unfoldable pub claim_analysis_job : AnalysisJob → Datetime → Outcome Error AnalysisJob
claim_analysis_job job occurred_at = do
  raise_if (not (is_queued job.status)) (invariant "only a QUEUED analysis job may be claimed")
  occurred_at ← normalize_utc occurred_at "analysis_job_claim.occurred_at"
  post_init record job { status = AnalysisJobStatus.running; started_at = some occurred_at }

abbrev or_empty : Option Text → Text
or_empty none = []
or_empty (some s) = s

-- The `failure_safe` of a completion, as each terminal status takes it.
abbrev pub completion_failure : AnalysisJobStatus → Option Text → Outcome Error (Option Text)
completion_failure AnalysisJobStatus.failed failure_safe = do
  t ← require_non_empty (or_empty failure_safe) "analysis_job.failure_safe"
  ok (some t)
completion_failure AnalysisJobStatus.succeeded failure_safe = do
  raise_if (is_some failure_safe) (invariant "SUCCEEDED analysis job cannot have failure_safe")
  ok failure_safe
completion_failure _ failure_safe = ok failure_safe

unfoldable pub complete_analysis_job :
    AnalysisJob → AnalysisJobStatus → Datetime → Option Text → Outcome Error AnalysisJob
complete_analysis_job job status occurred_at failure_safe = do
  raise_if (not (is_running job.status)) (invariant "only a RUNNING analysis job may complete")
  raise_if (not (is_terminal status))
      (invariant "analysis job completion requires a terminal status")
  occurred_at ← normalize_utc occurred_at "analysis_job_completion.occurred_at"
  failure_safe ← completion_failure status failure_safe
  post_init
      record job { status = status; completed_at = some occurred_at; failure_safe = failure_safe }

-- The job as it was before its first attempt.
abbrev pub reset : AnalysisJob → AnalysisJob
reset job = record job {
  status = AnalysisJobStatus.queued;
  started_at = none;
  completed_at = none;
  failure_safe = none;
  analysis_outcomes = [];
}

unfoldable pub reanalyze_analysis_job : AnalysisJob → Bool → Outcome Error AnalysisJob
reanalyze_analysis_job job reclaim_stale = do
  raise_if (is_queued job.status || (is_running job.status && not reclaim_stale))
      (invariant "analysis is already in flight")
  post_init (reset job)

unfoldable pub requeue_analysis_job : AnalysisJob → Outcome Error AnalysisJob
requeue_analysis_job job = do
  raise_if (not (is_failed job.status)) (invariant "only a FAILED analysis job may be requeued")
  post_init (reset job)

-- The start of a reclaimed attempt: later than the start of the attempt before, if only by a
-- microsecond. Comparing a time without a timezone to an instant is a TypeError.
abbrev pub next_start : Option Instant → Datetime → Outcome Error Instant
next_start none (aware t) = ok t
next_start none (naive t) = normalize_utc (naive t) "analysis_job.started_at"
next_start (some started) (naive t) = raised type_error
next_start (some started) (aware t) = do
  raise_if (ltb t started) (invariant "analysis job reclaim cannot predate the current attempt")
  ok (if ltb started t then t else started + 1)

unfoldable pub reclaim_analysis_job : AnalysisJob → Datetime → Outcome Error AnalysisJob
reclaim_analysis_job job occurred_at = do
  raise_if (not (is_running job.status || is_failed job.status))
      (invariant "only a RUNNING or FAILED analysis job may be reclaimed")
  started_at ← next_start job.started_at occurred_at
  post_init record job {
    status = AnalysisJobStatus.running;
    started_at = some started_at;
    completed_at = none;
    failure_safe = none;
    analysis_outcomes = [];
  }
