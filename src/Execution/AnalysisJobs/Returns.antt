-- ===== src/Execution/AnalysisJobs/Returns.antt =====
-- Whatever job and clock a transition is given, what it returns is valid.
use ip_risk_agent_v.Base.{
  ◌>>=◌, ◌≡◌, arith, Bool, Option, Text, Instant, Datetime, aware, naive, Outcome, ok, raised,
  Error,
}
use ip_risk_agent_v.Execution.AnalysisJobs.{
  AnalysisJob, AnalysisJobStatus, post_init, claim_analysis_job, complete_analysis_job,
  reanalyze_analysis_job, requeue_analysis_job, reclaim_analysis_job, reset, next_start,
  completion_failure,
}
use ip_risk_agent_v.Execution.AnalysisJobs.Validity.{IsValid, post_init-IsValid}
use ip_risk_agent_v.Execution.AnalysisJobs.Results.{started, restarted, ended}

-- A valid job with this status.
pub record EndsIn (s : AnalysisJobStatus) (j : AnalysisJob) : Type 0 where
  pub valid : IsValid j
  pub status : j.status ≡ s

post_init-EndsIn : (c j : AnalysisJob) → post_init c ≡ ok j → EndsIn c.status j
post_init-EndsIn c j h = let (v, s) = post_init-IsValid c j h in record { valid = v; status = s }

module _ (j j' : AnalysisJob) where
  pub claim_analysis_job-EndsIn :
      (t : Datetime) → claim_analysis_job j t ≡ ok j' → EndsIn AnalysisJobStatus.running j'
  unfolding claim_analysis_job
  claim_analysis_job-EndsIn (aware t) h = ground (arith, post_init-EndsIn (started j t) j')
  claim_analysis_job-EndsIn (naive t) h = absurd (ground arith)

  pub requeue_analysis_job-EndsIn :
      requeue_analysis_job j ≡ ok j' → EndsIn AnalysisJobStatus.queued j'
  unfolding requeue_analysis_job
  requeue_analysis_job-EndsIn h = ground (arith, post_init-EndsIn (reset j) j')

  pub reanalyze_analysis_job-EndsIn :
      (stale : Bool) → reanalyze_analysis_job j stale ≡ ok j' → EndsIn AnalysisJobStatus.queued j'
  unfolding reanalyze_analysis_job
  reanalyze_analysis_job-EndsIn stale h = ground (arith, post_init-EndsIn (reset j) j')

  ended_after-EndsIn :
      (s : AnalysisJobStatus) (t : Instant) (call : Outcome Error (Option Text))
      → (call >>= λ f. post_init (ended j s t f)) ≡ ok j'
      → EndsIn s j'
  ended_after-EndsIn s t (ok f) h = post_init-EndsIn (ended j s t f) j' h
  ended_after-EndsIn s t (raised x) h = absurd (ground arith)

  restarted_after-EndsIn :
      (call : Outcome Error Instant)
      → (call >>= λ u. post_init (restarted j u)) ≡ ok j'
      → EndsIn AnalysisJobStatus.running j'
  restarted_after-EndsIn (ok u) h = post_init-EndsIn (restarted j u) j' h
  restarted_after-EndsIn (raised x) h = absurd (ground arith)

  pub complete_analysis_job-EndsIn :
      (s : AnalysisJobStatus) (t : Datetime) (failure : Option Text)
      → complete_analysis_job j s t failure ≡ ok j'
      → EndsIn s j'
  unfolding complete_analysis_job
  complete_analysis_job-EndsIn s (aware t) failure h =
      ground (arith, ended_after-EndsIn s t (completion_failure s failure))
  complete_analysis_job-EndsIn s (naive t) failure h = absurd (ground arith)

  pub reclaim_analysis_job-EndsIn :
      (t : Datetime) → reclaim_analysis_job j t ≡ ok j' → EndsIn AnalysisJobStatus.running j'
  unfolding reclaim_analysis_job
  reclaim_analysis_job-EndsIn (aware t) h =
      ground (arith, restarted_after-EndsIn (next_start j.started_at (aware t)))
  reclaim_analysis_job-EndsIn (naive t) h = absurd (ground arith)
