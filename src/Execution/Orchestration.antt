-- ===== src/Execution/Orchestration.antt =====
-- application/analysis_jobs/service.py: the operations that move a change event and its job
-- together, on the pair that the unit of work holds. The clock's reading is an argument; what an
-- operation returns is also what it saves.
pub mod Coherence
pub mod Reachable
pub mod Waiting
use ip_risk_agent_v.Base.{
  ℕ, ◌+◌, Bool, true, false, ◌&&◌, ◌||◌, not, leb, ltb, ◌==◌, if◌then◌else◌, Option, none, some,
  Text, text_eq, strip, same_text, List, [], ◌∷◌, Instant, Datetime, aware, Outcome, ok, raised,
  ◌>>=◌, ◌>>◌, raise_if, Error, orchestration, not_found, normalize_utc,
}
use ip_risk_agent_v.Execution.ChangeEvents.{
  ChangeEvent, ChangeEventStatus, claim_change_event, reclaim_change_event, complete_change_event,
  fail_change_event, reanalyze_change_event, requeue_change_event, analysis_lease_is_live,
}
use ip_risk_agent_v.Execution.AnalysisJobs.{
  AnalysisJob, AnalysisJobStatus, claim_analysis_job, complete_analysis_job, reanalyze_analysis_job,
  requeue_analysis_job, reclaim_analysis_job, is_success,
}

-- `AnalysisExecutionState`
pub record Execution : Type 0 where
  pub event : ChangeEvent
  pub job : AnalysisJob

abbrev same_job_status : AnalysisJobStatus → AnalysisJobStatus → Bool
same_job_status AnalysisJobStatus.queued AnalysisJobStatus.queued = true
same_job_status AnalysisJobStatus.running AnalysisJobStatus.running = true
same_job_status AnalysisJobStatus.succeeded AnalysisJobStatus.succeeded = true
same_job_status AnalysisJobStatus.failed AnalysisJobStatus.failed = true
same_job_status AnalysisJobStatus.inconclusive AnalysisJobStatus.inconclusive = true
same_job_status _ _ = false

abbrev same_status : ChangeEventStatus → ChangeEventStatus → Bool
same_status ChangeEventStatus.pending ChangeEventStatus.pending = true
same_status ChangeEventStatus.processing ChangeEventStatus.processing = true
same_status ChangeEventStatus.done ChangeEventStatus.done = true
same_status ChangeEventStatus.failed ChangeEventStatus.failed = true
same_status _ _ = false

-- `event.status is s and job.status is t`
abbrev both : Execution → ChangeEventStatus → AnalysisJobStatus → Bool
both x s t = same_status x.event.status s && same_job_status x.job.status t

-- `_load_execution`, given what the repositories return.
unfoldable pub load_execution : Option ChangeEvent → List AnalysisJob → Outcome Error Execution
load_execution none jobs = raised not_found
load_execution (some event) (job ∷ []) = do
  raise_if (not (same_text event.artifact_id (some job.artifact_id)))
      (orchestration "ChangeEvent and AnalysisJob artifact identity must match")
  ok record { event = event; job = job }
load_execution (some event) _ =
    raised (orchestration "ChangeEvent execution requires exactly one AnalysisJob")

abbrev lease_unexpired : Option Instant → Instant → Bool
lease_unexpired none now = false
lease_unexpired (some expiry) now = ltb now expiry

abbrev reclaim : Execution → Instant → ℕ → Outcome Error (Option Execution)
reclaim x now lease_duration = do
  event ← reclaim_change_event x.event (aware now) (aware (now + lease_duration))
  job ← reclaim_analysis_job x.job (aware now)
  ok (some record { event = event; job = job })

abbrev first_claim : Execution → Instant → ℕ → Outcome Error (Option Execution)
first_claim x now lease_duration = do
  raise_if (not (same_job_status x.job.status AnalysisJobStatus.queued))
      (orchestration "PENDING ChangeEvent requires QUEUED AnalysisJob")
  event ← claim_change_event x.event (aware now) (aware (now + lease_duration))
  job ← claim_analysis_job x.job (aware now)
  ok (some record { event = event; job = job })

-- The branches of `_claim_once`, at the clock's instant.
unfoldable pub claim_at : Execution → Instant → ℕ → Bool → Outcome Error (Option Execution)
claim_at x now lease_duration allow_retry =
    if both x ChangeEventStatus.processing AnalysisJobStatus.running
    then if lease_unexpired x.event.lease_expires_at now
      then ok none
      else reclaim x now lease_duration
    else if both x ChangeEventStatus.failed AnalysisJobStatus.failed
    then if not allow_retry
      then raised (orchestration "failed execution requires an explicit retry claim")
      else reclaim x now lease_duration
    else if both x ChangeEventStatus.done AnalysisJobStatus.succeeded
        || both x ChangeEventStatus.done AnalysisJobStatus.inconclusive
    then ok none
    else if same_status x.event.status ChangeEventStatus.pending
    then first_claim x now lease_duration
    else raised (orchestration "execution state cannot be claimed")

-- `_claim_once`: the execution that the worker may run and that is saved, or `none` if there is
-- nothing for it to do.
unfoldable pub claim : Execution → Datetime → ℕ → Bool → Outcome Error (Option Execution)
unfolding claim_at
claim x clock lease_duration allow_retry = do
  now ← normalize_utc clock "analysis_claim.clock"
  claim_at x now lease_duration allow_retry

abbrev is_finish : AnalysisJobStatus → Bool
is_finish AnalysisJobStatus.succeeded = true
is_finish AnalysisJobStatus.inconclusive = true
is_finish _ = false

abbrev finish_running :
    Execution → Datetime → AnalysisJobStatus → Option Text → Outcome Error Execution
finish_running x clock status failure_safe = do
  job ← complete_analysis_job x.job status clock failure_safe
  event ← complete_change_event x.event clock
  ok record { event = event; job = job }

unfoldable pub finish :
    Execution → Datetime → AnalysisJobStatus → Option Text → Outcome Error Execution
finish x clock status failure_safe =
    if not (is_finish status)
    then raised (orchestration "finish status must be SUCCEEDED or INCONCLUSIVE")
    else if both x ChangeEventStatus.done status
    then ok x
    else if not (both x ChangeEventStatus.processing AnalysisJobStatus.running)
    then raised (orchestration "only a running execution may finish")
    else finish_running x clock status failure_safe

abbrev owns : Option ℕ → ℕ → Bool
owns none attempts = true
owns (some attempt) attempts = attempts == attempt

abbrev fail_running : Execution → Datetime → Text → Outcome Error Execution
fail_running x clock failure_safe = do
  job ← complete_analysis_job x.job AnalysisJobStatus.failed clock (some failure_safe)
  event ← fail_change_event x.event clock failure_safe
  ok record { event = event; job = job }

unfoldable pub fail : Execution → Datetime → Text → Option ℕ → Outcome Error Execution
fail x clock failure_safe attempt =
    if not (owns attempt x.event.attempts)
    then raised (orchestration "analysis failure attempt does not own the current lease")
    else if both x ChangeEventStatus.failed AnalysisJobStatus.failed
        && same_text x.event.last_error_safe (some (strip failure_safe))
        && same_text x.job.failure_safe (some (strip failure_safe))
    then ok x
    else if not (both x ChangeEventStatus.processing AnalysisJobStatus.running)
    then raised (orchestration "only a running execution may fail")
    else fail_running x clock failure_safe

unfoldable pub request_reanalysis : Execution → Datetime → Outcome Error Execution
request_reanalysis x clock = do
  live ← analysis_lease_is_live x.event clock
  event ← reanalyze_change_event x.event clock
  job ← reanalyze_analysis_job x.job (not live)
  ok record { event = event; job = job }

unfoldable pub retry_failed : Execution → Datetime → Outcome Error Execution
retry_failed x clock =
    if both x ChangeEventStatus.pending AnalysisJobStatus.queued
    then ok x
    else if not (both x ChangeEventStatus.failed AnalysisJobStatus.failed)
    then raised (orchestration "only a failed execution may be retried")
    else do
      event ← requeue_change_event x.event clock
      job ← requeue_analysis_job x.job
      ok record { event = event; job = job }
