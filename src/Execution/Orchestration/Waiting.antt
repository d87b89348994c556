-- ===== src/Execution/Orchestration/Waiting.antt =====
-- A job with some of its outcomes but not all, as composition/pipeline.py can leave it, and what
-- application/analysis_jobs/service.py can still do with it.
use ip_risk_agent_v.Base.{
  ◌≡◌, ◌≢◌, refl, sym, subst, arith, ◌≤◌, ◌<◌, true, false, Bool-cases, inl, inr, ℕ, Bool, ◌∙◌,
  Outcome-cases, Option, some, none, Text, List, [], ◌∷◌, All, Instant, Datetime, aware, naive, ok,
}
use ip_risk_agent_v.Contracts.{AnalysisType}
use ip_risk_agent_v.Execution.ChangeEvents.{
  ChangeEventStatus, reanalyze_change_event, analysis_lease_is_live,
}
use ip_risk_agent_v.Execution.AnalysisJobs.{
  AnalysisJob, AnalysisJobStatus, is_empty, covers_requested, complete_analysis_job, post_init,
  name_fields, check_status, reclaim_analysis_job, reanalyze_analysis_job, next_start, reset,
}
use ip_risk_agent_v.Execution.AnalysisJobs.Results.{IsHalfway, complete_halfway_refused}
use ip_risk_agent_v.Execution.AnalysisJobs.Validity.{check_fields-IsChecked}
use ip_risk_agent_v.Execution.AnalysisJobs.Soundness.{
  Among, Answered, Answered-all_iff, is_empty_iff,
}
use ip_risk_agent_v.Execution.Orchestration.{
  Execution, claim, finish, fail, request_reanalysis, retry_failed,
}
use ip_risk_agent_v.Execution.Orchestration.Reachable.{Step}

-- There are outcomes, and a type that was requested has none.
pub record IsHalfDone (j : AnalysisJob) : Type 0 where
  pub some_outcome : j.analysis_outcomes ≢ []
  pub type : AnalysisType
  pub wanted : Among type j.requested_analysis_types
  pub missing : ¬ Answered type j.analysis_outcomes

All-Among :
    (P : AnalysisType → Type 0) (t : AnalysisType) (types : List AnalysisType)
    → All P types
    → Among t types
    → P t
All-Among P t [] h k = absurd k
All-Among P t (x ∷ types) h (inl e) = subst P (sym e) h.0
All-Among P t (x ∷ types) h (inr k) = All-Among P t types h.1 k

IsHalfDone-IsHalfway : (j : AnalysisJob) → IsHalfDone j → IsHalfway j
IsHalfDone-IsHalfway j p = (
  elim (Bool-cases (is_empty j.analysis_outcomes)) [
    | inl e ↦ absurd (p.some_outcome ((is_empty_iff j.analysis_outcomes).0 e))
    | inr e ↦ e
  ],
  elim (Bool-cases (covers_requested j.analysis_outcomes j.requested_analysis_types)) [
    | inl e ↦
        let all = Answered-all_iff j.analysis_outcomes j.requested_analysis_types in
        absurd (
          p.missing (
            All-Among (λ t. Answered t j.analysis_outcomes) p.type j.requested_analysis_types
              (all.0 (ground (arith, e))) p.wanted))
    | inr e ↦ e
  ],
)

-- The time at which a call is made.
abbrev pub clock_of : {x y : Execution} → Step x y → Datetime
clock_of (Step.claims clock d retry h) = clock
clock_of (Step.finishes clock s failure h) = clock
clock_of (Step.fails clock failure attempt h) = clock
clock_of (Step.reanalyses clock h) = clock
clock_of (Step.retries clock h) = clock

name_fields-outcomes :
    (c j : AnalysisJob) → name_fields c ≡ ok j → j.analysis_outcomes ≡ c.analysis_outcomes
unfolding name_fields
name_fields-outcomes c j h = ground arith

check_status-outcomes :
    (c j : AnalysisJob) (s : AnalysisJobStatus)
    → check_status c s ≡ ok j
    → j.analysis_outcomes ≡ c.analysis_outcomes
unfolding check_status
check_status-outcomes c j AnalysisJobStatus.queued h = ground arith
check_status-outcomes c j AnalysisJobStatus.running h = ground arith
check_status-outcomes c j AnalysisJobStatus.succeeded h = ground arith
check_status-outcomes c j AnalysisJobStatus.failed h = ground arith
check_status-outcomes c j AnalysisJobStatus.inconclusive h = ground arith

post_init-outcomes :
    (c j : AnalysisJob) → post_init c ≡ ok j → j.analysis_outcomes ≡ c.analysis_outcomes
unfolding post_init
post_init-outcomes c j h = elim (Outcome-cases (name_fields c)) [
  | inl (d, q) ↦
      let same : d.analysis_outcomes ≡ c.analysis_outcomes = name_fields-outcomes c d q in
      let (f, k) = check_fields-IsChecked d j (rw q at h) in
      check_status-outcomes (record d { failure_safe = f }) j d.status k.status ∙ same
  | inr (x, q) ↦ absurd (ground arith)
]

reclaim_analysis_job-outcomes :
    (j k : AnalysisJob) (t : Datetime) → reclaim_analysis_job j t ≡ ok k → k.analysis_outcomes ≡ []
unfolding reclaim_analysis_job
reclaim_analysis_job-outcomes j k t h = elim (Outcome-cases (next_start j.started_at t)) [
  | inl (a, e) ↦ ground (
    arith,
    h,
    e,
    post_init-outcomes
        (record j {
          status = AnalysisJobStatus.running;
          started_at = some a;
          completed_at = none;
          failure_safe = none;
          analysis_outcomes = [];
        })
        k,
  )
  | inr (x, e) ↦ absurd (ground (arith, h, e))
]

reanalyze_analysis_job-outcomes :
    (j k : AnalysisJob) (stale : Bool)
    → reanalyze_analysis_job j stale ≡ ok k
    → k.analysis_outcomes ≡ []
unfolding reanalyze_analysis_job
reanalyze_analysis_job-outcomes j k stale h = ground (arith, post_init-outcomes (reset j) k)

-- The call ends the execution.
abbrev pub IsEnding : {x y : Execution} → Step x y → Type 0
IsEnding (Step.finishes clock s failure h) = Unit
IsEnding (Step.fails clock failure attempt h) = Unit
IsEnding _ = ⊥

-- The call takes the execution for a new attempt.
abbrev pub IsRestart : {x y : Execution} → Step x y → Type 0
IsRestart (Step.claims clock d retry h) = Unit
IsRestart (Step.reanalyses clock h) = Unit
IsRestart _ = ⊥

-- The step is a restart that was made when the lease was over, and what was accepted is gone.
pub record StartsOver (expiry : Instant) (x y : Execution) (s : Step x y) : Type 0 where
  pub again : IsRestart s
  pub time : Instant
  pub clock : clock_of s ≡ aware time
  pub over : expiry ≤ time
  pub forgotten : y.job.analysis_outcomes ≡ []

module _ (x : Execution) (expiry : Instant)
    (processing : x.event.status ≡ ChangeEventStatus.processing)
    (running : x.job.status ≡ AnalysisJobStatus.running)
    (lease : x.event.lease_expires_at ≡ some expiry) where
  claimed_over :
      (y : Execution) (now : Instant) (d : ℕ) (retry : Bool)
      → claim x (aware now) d retry ≡ ok (some y)
      → (expiry ≤ now) × (y.job.analysis_outcomes ≡ [])
  unfolding claim
  claimed_over y now d retry h =
      ground (arith, reclaim_analysis_job-outcomes x.job y.job (aware now))

  reanalysed_over :
      (y : Execution) (now : Instant)
      → request_reanalysis x (aware now) ≡ ok y
      → (expiry ≤ now) × (y.job.analysis_outcomes ≡ [])
  unfolding request_reanalysis analysis_lease_is_live reanalyze_change_event
  reanalysed_over y now h = ground (
    arith,
    reanalyze_analysis_job-outcomes x.job y.job true,
    reanalyze_analysis_job-outcomes x.job y.job false,
  )

  claimed_naive :
      (y : Execution) (now : Instant) (d : ℕ) (retry : Bool)
      → claim x (naive now) d retry ≢ ok (some y)
  unfolding claim
  claimed_naive y now d retry h = ground (arith, h)

  reanalysed_naive : (y : Execution) (now : Instant) → request_reanalysis x (naive now) ≢ ok y
  unfolding request_reanalysis analysis_lease_is_live reanalyze_change_event
  reanalysed_naive y now h = ground (arith, h)

  never_retried : (y : Execution) (clock : Datetime) → retry_failed x clock ≢ ok y
  unfolding retry_failed
  never_retried y clock h = ground (arith, h)

  -- While the lease of a running execution lasts, nobody takes the execution over: a call of the
  -- service that succeeds and saves, by any worker, at a time before the lease ends, is one that
  -- finishes the execution or records its failure. A claim, with or without a retry and whatever
  -- lease it asks for, a request for a new analysis and a retry of a failed one are not among them.
  pub lease_excludes :
      (y : Execution) (s : Step x y) (t : Instant) → clock_of s ≡ aware t → t < expiry → IsEnding s
  lease_excludes y (Step.claims (naive now) d retry h) t e l =
      absurd (claimed_naive y now d retry h)
  lease_excludes y (Step.claims (aware now) d retry h) t e l =
      let (over, _) = claimed_over y now d retry h in absurd (ground (arith, e))
  lease_excludes y (Step.finishes clock s failure h) t e l = tt
  lease_excludes y (Step.fails clock failure attempt h) t e l = tt
  lease_excludes y (Step.reanalyses (naive now) h) t e l = absurd (reanalysed_naive y now h)
  lease_excludes y (Step.reanalyses (aware now) h) t e l =
      let (over, _) = reanalysed_over y now h in absurd (ground (arith, e))
  lease_excludes y (Step.retries clock h) t e l = absurd (never_retried y clock h)

module _ (x : Execution) (expiry : Instant)
    (processing : x.event.status ≡ ChangeEventStatus.processing)
    (running : x.job.status ≡ AnalysisJobStatus.running)
    (lease : x.event.lease_expires_at ≡ some expiry) (half : IsHalfDone x.job) where
  never_finished :
      (y : Execution) (clock : Datetime) (s : AnalysisJobStatus) (failure : Option Text)
      → finish x clock s failure ≢ ok y
  unfolding finish
  never_finished y clock s failure h =
      let refused =
        complete_halfway_refused x.job s clock failure (IsHalfDone-IsHalfway x.job half) in
      elim (Outcome-cases (complete_analysis_job x.job s clock failure)) [
        | inl (j, e) ↦ refused j e
        | inr (w, e) ↦ ground (arith, h, e)
      ]

  never_failed :
      (y : Execution) (clock : Datetime) (failure : Text) (attempt : Option ℕ)
      → fail x clock failure attempt ≢ ok y
  unfolding fail
  never_failed y clock failure attempt h =
      let refused =
        complete_halfway_refused x.job AnalysisJobStatus.failed clock (some failure)
          (IsHalfDone-IsHalfway x.job half) in
      elim (Outcome-cases
        (complete_analysis_job x.job AnalysisJobStatus.failed clock (some failure))) [
          | inl (j, e) ↦ refused j e
          | inr (w, e) ↦ ground (arith, h, e)
        ]

  -- A running execution whose job has an outcome, and a requested type without one, waits for its
  -- lease. A call of the service that succeeds and saves, by any worker, is a claim or a request for a
  -- new analysis, it is made when the lease is over, and it drops the outcomes that were accepted: to
  -- finish the execution, to record its failure and to retry it are refused at any time.
  pub halfway_waits : (y : Execution) (s : Step x y) → StartsOver expiry x y s
  halfway_waits y (Step.claims (naive now) d retry h) =
      absurd (claimed_naive x expiry processing running lease y now d retry h)
  halfway_waits y (Step.claims (aware now) d retry h) =
      let (over, gone) = claimed_over x expiry processing running lease y now d retry h in
      record { again = tt; time = now; clock = refl; over = over; forgotten = gone }
  halfway_waits y (Step.finishes clock s failure h) = absurd (never_finished y clock s failure h)
  halfway_waits y (Step.fails clock failure attempt h) =
      absurd (never_failed y clock failure attempt h)
  halfway_waits y (Step.reanalyses (naive now) h) =
      absurd (reanalysed_naive x expiry processing running lease y now h)
  halfway_waits y (Step.reanalyses (aware now) h) =
      let (over, gone) = reanalysed_over x expiry processing running lease y now h in
      record { again = tt; time = now; clock = refl; over = over; forgotten = gone }
  halfway_waits y (Step.retries clock h) =
      absurd (never_retried x expiry processing running lease y clock h)
