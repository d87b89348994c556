-- ===== src/Execution/AnalysisJobs/Results.antt =====
-- What each transition of a valid analysis job returns, and that the result is valid again.
use ip_risk_agent_v.Base.{
  ◌≡◌, ◌≢◌, ◌⊎◌, refl, arith, ◌≤◌, ◌<◌, ◌+◌, Bool, true, false, not, any, IsNormal, Option, none,
  some, Text, [], Instant, Datetime, aware, require_non_empty, require_non_empty-IsNormal, Outcome,
  ok, raised, ◌>>=◌, naive, Bool-cases, inl, inr, Error, if◌then◌else◌, ltb,
}
use ip_risk_agent_v.Execution.AnalysisJobs.{
  AnalysisJob, AnalysisJobStatus, post_init, claim_analysis_job, complete_analysis_job,
  reanalyze_analysis_job, requeue_analysis_job, reclaim_analysis_job, reset, check_outcomes,
  check_status, next_start, is_empty, completion_failure, is_terminal, covers_requested,
  is_authoritative,
}
use ip_risk_agent_v.Execution.AnalysisJobs.Validity.{IsValid, Accounted, post_init-accepts}

-- The call succeeds with this job, which is valid.
abbrev pub Gives : Outcome Error AnalysisJob → AnalysisJob → Type 0
Gives call j = (call ≡ ok j) × IsValid j

abbrev pub started : AnalysisJob → Instant → AnalysisJob
started j t = record j { status = AnalysisJobStatus.running; started_at = some t }

abbrev pub restarted : AnalysisJob → Instant → AnalysisJob
restarted j t = record j {
  status = AnalysisJobStatus.running;
  started_at = some t;
  completed_at = none;
  failure_safe = none;
  analysis_outcomes = [];
}

abbrev pub ended : AnalysisJob → AnalysisJobStatus → Instant → Option Text → AnalysisJob
ended j s t failure = record j { status = s; completed_at = some t; failure_safe = failure }

-- The attempt began by then, if one did.
abbrev pub StartedBy : Option Instant → Instant → Type 0
StartedBy none t = Unit
StartedBy (some s) t = s ≤ t

module _ (j : AnalysisJob) (v : IsValid j) where
  reset-IsValid : IsValid (reset j)
  unfolding check_outcomes
  reset-IsValid = ground arith

  pub requeue_analysis_job_lem :
      j.status ≡ AnalysisJobStatus.failed → Gives (requeue_analysis_job j) (reset j)
  unfolding requeue_analysis_job
  requeue_analysis_job_lem p =
      (ground (arith, post_init-accepts (reset j) reset-IsValid), reset-IsValid)

  -- A job that ended, or one that runs on after its lease.
  pub reanalyze_analysis_job_lem :
      (stale : Bool)
      → j.status ≢ AnalysisJobStatus.queued
      → (stale ≡ true) ⊎ (j.status ≢ AnalysisJobStatus.running)
      → Gives (reanalyze_analysis_job j stale) (reset j)
  unfolding reanalyze_analysis_job
  reanalyze_analysis_job_lem stale p q =
      (ground (arith, post_init-accepts (reset j) reset-IsValid), reset-IsValid)

module _ (j : AnalysisJob) (v : IsValid j) (t : Instant) (later : j.created_at ≤ t) where
  started-IsValid : j.status ≡ AnalysisJobStatus.queued → IsValid (started j t)
  started-IsValid p = ground arith

  pub claim_analysis_job_lem :
      j.status ≡ AnalysisJobStatus.queued → Gives (claim_analysis_job j (aware t)) (started j t)
  unfolding claim_analysis_job
  claim_analysis_job_lem p =
      (ground (arith, post_init-accepts (started j t) (started-IsValid p)), started-IsValid p)

  restarted-IsValid : IsValid (restarted j t)
  unfolding check_outcomes
  restarted-IsValid = ground arith

-- A reclaimed attempt starts at this time: strictly after the attempt before.
abbrev pub restart_time : Option Instant → Instant → Instant
restart_time none t = t
restart_time (some s) t = if ltb s t then t else s + 1

pub restart_time-lt : (s t : Instant) → s < restart_time (some s) t
restart_time-lt s t = ground arith

next_start_lem :
    (s : Option Instant) (t : Instant)
    → StartedBy s t
    → next_start s (aware t) ≡ ok (restart_time s t)
next_start_lem none t h = refl
next_start_lem (some s) t h = ground arith

restart_time-le : (s : Option Instant) (t : Instant) → t ≤ restart_time s t
restart_time-le none t = omega arith
restart_time-le (some s) t = ground arith

pub reclaim_analysis_job_lem :
    (j : AnalysisJob)
    → IsValid j
    → (t : Instant) → j.created_at ≤ t
    → (j.status ≡ AnalysisJobStatus.running) ⊎ (j.status ≡ AnalysisJobStatus.failed)
    → StartedBy j.started_at t
    → Gives (reclaim_analysis_job j (aware t)) (restarted j (restart_time j.started_at t))
unfolding reclaim_analysis_job
reclaim_analysis_job_lem j v t later p s =
    let u = restart_time j.started_at t in
    let rv = restarted-IsValid j v u (omega (arith, restart_time-le j.started_at t)) in
    (
      rw (next_start_lem j.started_at t s) (ground (arith, post_init-accepts (restarted j u) rv)),
      rv,
    )

module _ (j : AnalysisJob) (v : IsValid j) (p : j.status ≡ AnalysisJobStatus.running) (t : Instant)
    (s : StartedBy j.started_at t) where
  ended_failed-IsValid :
      (name : Text)
      → IsNormal name "analysis_job.failure_safe"
      → Accounted j
      → IsValid (ended j AnalysisJobStatus.failed t (some name))
  ended_failed-IsValid name n a = ground arith

  -- A running job fails with a reason, if none of its outcomes or all of them are there.
  pub complete_failed_lem :
      (failure name : Text)
      → require_non_empty failure "analysis_job.failure_safe" ≡ ok name
      → Accounted j
      → Gives
          (complete_analysis_job j AnalysisJobStatus.failed (aware t) (some failure))
          (ended j AnalysisJobStatus.failed t (some name))
  unfolding complete_analysis_job
  complete_failed_lem failure name n a =
      let w =
        ended_failed-IsValid name
          (require_non_empty-IsNormal failure "analysis_job.failure_safe"
            "analysis_job.failure_safe" n)
          a in
      (ground (arith, post_init-accepts (ended j AnalysisJobStatus.failed t (some name)) w), w)

  ended_succeeded-IsValid :
      Accounted j
      → any (λ o. not (is_authoritative o.1)) j.analysis_outcomes ≡ false
      → IsValid (ended j AnalysisJobStatus.succeeded t none)
  ended_succeeded-IsValid a b = ground arith

  pub complete_succeeded_lem :
      Accounted j
      → any (λ o. not (is_authoritative o.1)) j.analysis_outcomes ≡ false
      → Gives
          (complete_analysis_job j AnalysisJobStatus.succeeded (aware t) none)
          (ended j AnalysisJobStatus.succeeded t none)
  unfolding complete_analysis_job
  complete_succeeded_lem a b =
      let w = ended_succeeded-IsValid a b in
      (ground (arith, post_init-accepts (ended j AnalysisJobStatus.succeeded t none) w), w)

-- Some of the requested outcomes are there, but not all.
abbrev pub IsHalfway : AnalysisJob → Type 0
IsHalfway j =
    (is_empty j.analysis_outcomes ≡ false)
    × (covers_requested j.analysis_outcomes j.requested_analysis_types ≡ false)

check_status-halfway :
    (j j' : AnalysisJob) (s : AnalysisJobStatus)
    → is_terminal s ≡ true
    → IsHalfway j
    → check_status j s ≢ ok j'
unfolding check_status
check_status-halfway j j' s e h k = ground arith

post_init-halfway :
    (j j' : AnalysisJob) → is_terminal j.status ≡ true → IsHalfway j → post_init j ≢ ok j'
unfolding post_init check_outcomes check_status
post_init-halfway j j' e h k = ground arith

end_halfway :
    (j j' : AnalysisJob) (s : AnalysisJobStatus) (t : Instant) (call : Outcome Error (Option Text))
    → is_terminal s ≡ true
    → IsHalfway j
    → (call >>= λ f. post_init (ended j s t f)) ≢ ok j'
end_halfway j j' s t (ok f) e h k = post_init-halfway (ended j s t f) j' e h k
end_halfway j j' s t (raised x) e h k = cc

-- With some of the requested outcomes there, but not all, no completion ends the job.
pub complete_halfway_refused :
    (j : AnalysisJob) (s : AnalysisJobStatus) (t : Datetime) (failure : Option Text)
    → IsHalfway j
    → (j' : AnalysisJob) → complete_analysis_job j s t failure ≢ ok j'
unfolding complete_analysis_job
complete_halfway_refused j s (naive t) failure h j' k = ground arith
complete_halfway_refused j s (aware t) failure h j' k = elim (Bool-cases (is_terminal s)) [
  | inl e ↦ ground (arith, end_halfway j j' s t (completion_failure s failure) e h)
  | inr e ↦ ground arith
]
