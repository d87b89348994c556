-- ===== src/Execution/Orchestration/Reachable.antt =====
-- The executions that any sequence of calls of application/analysis_jobs/service.py leaves behind,
-- with any clocks, workers and orders.
use ip_risk_agent_v.Base.{
  ◌>>=◌, not, subst, ◌≡◌, ◌⊎◌, inl, inr, arith, ◌≤◌, ◌+◌, ℕ, Bool, true, Option, some, Text,
  Instant, Datetime, aware, naive, Outcome, ok, raised, Error, orchestration,
}
use ip_risk_agent_v.Execution.ChangeEvents.{
  ChangeEventStatus, reanalyze_change_event, analysis_lease_is_live,
}
use ip_risk_agent_v.Execution.ChangeEvents.Returns.{
  claim_change_event-EndsIn, reclaim_change_event-EndsIn, complete_change_event-EndsIn,
  fail_change_event-EndsIn, reanalyze_change_event-EndsIn, requeue_change_event-EndsIn,
}
use ip_risk_agent_v.Execution.AnalysisJobs.{AnalysisJobStatus, reanalyze_analysis_job}
use ip_risk_agent_v.Execution.AnalysisJobs.Returns.{
  claim_analysis_job-EndsIn, complete_analysis_job-EndsIn, reanalyze_analysis_job-EndsIn,
  requeue_analysis_job-EndsIn, reclaim_analysis_job-EndsIn,
}
use ip_risk_agent_v.Execution.Orchestration.{
  Execution, claim, reclaim, first_claim, finish, finish_running, is_finish, fail, fail_running,
  request_reanalysis, retry_failed,
}
use ip_risk_agent_v.Execution.Orchestration.Coherence.{Paired, Coherent}
use ip_risk_agent_v.Execution.ChangeEvents.Returns as EventReturns
use ip_risk_agent_v.Execution.AnalysisJobs.Returns as JobReturns

-- What a call that succeeds leaves behind: both parts valid, with these statuses and attempts.
record Left (s : ChangeEventStatus) (t : AnalysisJobStatus) (n : ℕ) (y : Execution) : Type 0 where
  pub event : EventReturns.EndsIn s n y.event
  pub job : JobReturns.EndsIn t y.job

Left-Coherent :
    (s : ChangeEventStatus) (t : AnalysisJobStatus) (n : ℕ) (y : Execution)
    → Paired s t
    → Left s t n y
    → Coherent y
Left-Coherent s t n y p k = ground arith

module _ (x y : Execution) where
  reclaim-Left :
      (now : Instant) (d : ℕ)
      → reclaim x now d ≡ ok (some y)
      → Left ChangeEventStatus.processing AnalysisJobStatus.running (x.event.attempts + 1) y
  reclaim-Left now d h = ground (
    arith,
    reclaim_change_event-EndsIn x.event y.event (aware now) (aware (now + d)),
    reclaim_analysis_job-EndsIn x.job y.job (aware now),
  )

  first_claim-Left :
      (now : Instant) (d : ℕ)
      → first_claim x now d ≡ ok (some y)
      → Left ChangeEventStatus.processing AnalysisJobStatus.running (x.event.attempts + 1) y
  first_claim-Left now d h = ground (
    arith,
    claim_change_event-EndsIn x.event y.event (aware now) (aware (now + d)),
    claim_analysis_job-EndsIn x.job y.job (aware now),
  )

  claim-Left :
      (clock : Datetime) (d : ℕ) (retry : Bool)
      → claim x clock d retry ≡ ok (some y)
      → Left ChangeEventStatus.processing AnalysisJobStatus.running (x.event.attempts + 1) y
  unfolding claim
  claim-Left (aware now) d retry h = ground (arith, reclaim-Left now d, first_claim-Left now d)
  claim-Left (naive now) d retry h = absurd (ground arith)

  finish_running-Left :
      (clock : Datetime) (status : AnalysisJobStatus) (failure : Option Text)
      → finish_running x clock status failure ≡ ok y
      → Left ChangeEventStatus.done status x.event.attempts y
  finish_running-Left clock status failure h = ground (
    arith,
    complete_analysis_job-EndsIn x.job y.job status clock failure,
    complete_change_event-EndsIn x.event y.event clock,
  )

  fail_running-Left :
      (clock : Datetime) (failure : Text)
      → fail_running x clock failure ≡ ok y
      → Left ChangeEventStatus.failed AnalysisJobStatus.failed x.event.attempts y
  fail_running-Left clock failure h = ground (
    arith,
    complete_analysis_job-EndsIn x.job y.job AnalysisJobStatus.failed clock (some failure),
    fail_change_event-EndsIn x.event y.event clock failure,
  )

  -- A finish or a failure that was saved before is answered with what is there.
  finish-cases :
      (clock : Datetime) (s : AnalysisJobStatus) (failure : Option Text)
      → finish x clock s failure ≡ ok y
      → (x ≡ y) ⊎ ((is_finish s ≡ true) × Left ChangeEventStatus.done s x.event.attempts y)
  unfolding finish
  finish-cases clock s failure h = ground (arith, finish_running-Left clock s failure)

  fail-cases :
      (clock : Datetime) (failure : Text) (attempt : Option ℕ)
      → fail x clock failure attempt ≡ ok y
      → (x ≡ y) ⊎ Left ChangeEventStatus.failed AnalysisJobStatus.failed x.event.attempts y
  unfolding fail
  fail-cases clock failure attempt h = ground (arith, fail_running-Left clock failure)

  reanalyzed_after-Left :
      (clock : Datetime) (call : Outcome Error Bool)
      → (call >>= λ live. reanalyze_change_event x.event clock >>= λ event.
          reanalyze_analysis_job x.job (not live) >>= λ job. ok record { event = event; job = job })
        ≡ ok y
      → Left ChangeEventStatus.pending AnalysisJobStatus.queued x.event.attempts y
  reanalyzed_after-Left clock (ok live) h = ground (
    arith,
    reanalyze_change_event-EndsIn x.event y.event clock,
    reanalyze_analysis_job-EndsIn x.job y.job (not live),
  )
  reanalyzed_after-Left clock (raised e) h = absurd (ground arith)

  request_reanalysis-Left :
      (clock : Datetime)
      → request_reanalysis x clock ≡ ok y
      → Left ChangeEventStatus.pending AnalysisJobStatus.queued x.event.attempts y
  unfolding request_reanalysis
  request_reanalysis-Left clock h =
      reanalyzed_after-Left clock (analysis_lease_is_live x.event clock) h

  retry_failed-cases :
      (clock : Datetime)
      → retry_failed x clock ≡ ok y
      → (x ≡ y) ⊎ Left ChangeEventStatus.pending AnalysisJobStatus.queued x.event.attempts y
  unfolding retry_failed
  retry_failed-cases clock h = ground (
    arith,
    requeue_change_event-EndsIn x.event y.event clock,
    requeue_analysis_job-EndsIn x.job y.job,
  )

-- One call of the service that succeeds and saves, by any worker at any time.
pub data Step (x y : Execution) : Type 0 where
  claims :
      (clock : Datetime) (d : ℕ) (retry : Bool) → claim x clock d retry ≡ ok (some y) → Step x y
  finishes :
      (clock : Datetime) (s : AnalysisJobStatus) (failure : Option Text)
      → finish x clock s failure ≡ ok y
      → Step x y
  fails :
      (clock : Datetime) (failure : Text) (attempt : Option ℕ)
      → fail x clock failure attempt ≡ ok y
      → Step x y
  reanalyses : (clock : Datetime) → request_reanalysis x clock ≡ ok y → Step x y
  retries : (clock : Datetime) → retry_failed x clock ≡ ok y → Step x y

pub data Steps : Execution → Execution → Type 0 where
  done : {x : Execution} → Steps x x
  then_step : {x y z : Execution} → Steps x y → Step y z → Steps x z

Step-Coherent : (x y : Execution) → Coherent x → Step x y → Coherent y
Step-Coherent x y c (claims clock d retry h) =
    Left-Coherent ChangeEventStatus.processing AnalysisJobStatus.running (x.event.attempts + 1) y tt
      (claim-Left x y clock d retry h)
Step-Coherent x y c (finishes clock s failure h) = elim (finish-cases x y clock s failure h) [
  | inl e ↦ subst Coherent e c
  | inr (f, k) ↦ Left-Coherent ChangeEventStatus.done s x.event.attempts y (ground arith) k
]
Step-Coherent x y c (fails clock failure attempt h) =
    elim (fail-cases x y clock failure attempt h) [
      | inl e ↦ subst Coherent e c
      | inr k ↦
          Left-Coherent ChangeEventStatus.failed AnalysisJobStatus.failed x.event.attempts y tt k
    ]
Step-Coherent x y c (reanalyses clock h) =
    Left-Coherent ChangeEventStatus.pending AnalysisJobStatus.queued x.event.attempts y tt
      (request_reanalysis-Left x y clock h)
Step-Coherent x y c (retries clock h) = elim (retry_failed-cases x y clock h) [
  | inl e ↦ subst Coherent e c
  | inr k ↦ Left-Coherent ChangeEventStatus.pending AnalysisJobStatus.queued x.event.attempts y tt k
]

-- From a coherent execution, any calls of the service that succeed, by any workers, in any order and
-- with any clocks, leave a coherent one: event and job are valid and their statuses belong together.
pub Steps-Coherent : (x y : Execution) → Coherent x → Steps x y → Coherent y
Steps-Coherent x _ c done = c
Steps-Coherent x z c (then_step {y = y} s t) = Step-Coherent y z (Steps-Coherent x y c s) t

Step-attempts : (x y : Execution) → Step x y → x.event.attempts ≤ y.event.attempts
Step-attempts x y (claims clock d retry h) = ground (arith, claim-Left x y clock d retry h)
Step-attempts x y (finishes clock s failure h) = ground (arith, finish-cases x y clock s failure h)
Step-attempts x y (fails clock failure attempt h) =
    ground (arith, fail-cases x y clock failure attempt h)
Step-attempts x y (reanalyses clock h) = ground (arith, request_reanalysis-Left x y clock h)
Step-attempts x y (retries clock h) = ground (arith, retry_failed-cases x y clock h)

Steps-attempts : (x y : Execution) → Steps x y → x.event.attempts ≤ y.event.attempts
Steps-attempts x _ done = omega arith
Steps-attempts x z (then_step {y = y} s t) =
    let a = Steps-attempts x y s in let b = Step-attempts y z t in omega arith

-- A worker whose execution another worker claimed after it can no longer record a failure, whatever
-- happened before and after that claim.
pub superseded_worker_cannot_fail :
    (mine before taken now : Execution) (clock : Datetime) (d : ℕ) (retry : Bool)
    → Steps mine before
    → claim before clock d retry ≡ ok (some taken)
    → Steps taken now
    → (later : Datetime) (failure : Text)
    → fail now later failure (some mine.event.attempts)
      ≡ raised (orchestration "analysis failure attempt does not own the current lease")
unfolding fail
superseded_worker_cannot_fail mine before taken now clock d retry s h t later failure =
    let a = Steps-attempts mine before s in
    let b = Steps-attempts taken now t in
    let k = claim-Left before taken clock d retry h in ground arith
