-- ===== src/Reconcile/Aggregation/Ends.antt =====
-- How the outcomes of a job end it: application/risk_reconcile/service.py, `_aggregate_job`.
use ip_risk_agent_v.Base.{
  ◌≡◌, ◌⊎◌, ◌↔◌, inl, inr, refl, arith, Bool, true, false, not, ◌&&◌, any, all, map, if◌then◌else◌,
  Bool-cases, Option, none, some, List, [], ◌∷◌, Text, String, codes, Instant, aware, ok, IsNormal,
  require_non_empty, strip, strip_of, lstrip, rstrip, is_space,
}
use ip_risk_agent_v.Contracts.{AnalysisType}
use ip_risk_agent_v.Execution.ChangeEvents.{ChangeEventStatus}
use ip_risk_agent_v.Execution.ChangeEvents.Results.{
  completed, failed_with, complete_change_event_lem, fail_change_event_lem,
}
use ip_risk_agent_v.Execution.AnalysisJobs.{
  AnalysisJob, AnalysisJobStatus, AnalysisOutcome, covers_requested, is_authoritative, is_terminal,
  complete_analysis_job, is_empty,
}
use ip_risk_agent_v.Execution.AnalysisJobs.Validity.{Accounted, IsValid, post_init-accepts}
use ip_risk_agent_v.Execution.AnalysisJobs.Results.{
  Gives, StartedBy, ended, complete_failed_lem, complete_succeeded_lem,
}
use ip_risk_agent_v.Execution.Orchestration.{Execution}
use ip_risk_agent_v.Execution.Orchestration.Coherence.{Coherent, Timely}
use ip_risk_agent_v.Reconcile.Aggregation.{
  has_failed, failure_reason, failures_of, is_rate_limited, ending_of, aggregate_job, was_skipped,
}

-- The reasons are texts that the constructors keep as they are.
quota-IsNormal : (name : String) → IsNormal (codes "PROVIDER:QUOTA_EXHAUSTED") name
unfolding require_non_empty strip strip_of lstrip rstrip is_space
quota-IsNormal name = refl

other-IsNormal : (name : String) → IsNormal (codes "one or more requested analyses failed") name
unfolding require_non_empty strip strip_of lstrip rstrip is_space
other-IsNormal name = refl

skipped-IsNormal : (name : String) → IsNormal (codes "ANALYSIS:NOT_APPLICABLE") name
unfolding require_non_empty strip strip_of lstrip rstrip is_space
skipped-IsNormal name = refl

incomplete-IsNormal : (name : String) → IsNormal (codes "ANALYSIS:INCOMPLETE_COVERAGE") name
unfolding require_non_empty strip strip_of lstrip rstrip is_space
incomplete-IsNormal name = refl

if-IsNormal :
    (b : Bool) (s t : Text) (name : String)
    → IsNormal s name
    → IsNormal t name
    → IsNormal (if b then s else t) name
if-IsNormal true s t name h k = h
if-IsNormal false s t name h k = k

failure_reason-IsNormal :
    (os : List AnalysisOutcome) (name : String) → IsNormal (failure_reason os) name
unfolding failure_reason
failure_reason-IsNormal os name =
    if-IsNormal (not (is_empty (failures_of os)) && all is_rate_limited (failures_of os))
      (codes "PROVIDER:QUOTA_EXHAUSTED") (codes "one or more requested analyses failed") name
      (quota-IsNormal name) (other-IsNormal name)

module _ (j : AnalysisJob) (v : IsValid j) (p : j.status ≡ AnalysisJobStatus.running) (t : Instant)
    (s : StartedBy j.started_at t) where
  ended_inconclusive-IsValid :
      (reason : Text)
      → IsNormal reason "analysis_job.failure_safe"
      → Accounted j
      → IsValid (ended j AnalysisJobStatus.inconclusive t (some reason))
  ended_inconclusive-IsValid reason n a = ground arith

  complete_inconclusive_lem :
      (reason : Text)
      → IsNormal reason "analysis_job.failure_safe"
      → Accounted j
      → Gives
          (complete_analysis_job j AnalysisJobStatus.inconclusive (aware t) (some reason))
          (ended j AnalysisJobStatus.inconclusive t (some reason))
  unfolding complete_analysis_job
  complete_inconclusive_lem reason n a =
      let w = ended_inconclusive-IsValid reason n a in
      (
        ground
            (arith, post_init-accepts (ended j AnalysisJobStatus.inconclusive t (some reason)) w),
        w,
      )

-- The outcomes of a job without their types.
abbrev pub outcomes_of : AnalysisJob → List AnalysisOutcome
outcomes_of j = map (λ item. item.1) j.analysis_outcomes

abbrev pub any_failed : List AnalysisOutcome → Bool
any_failed os = any (λ o. has_failed o.status) os

all-none_lacking :
    (os : List (AnalysisType × AnalysisOutcome))
    → all is_authoritative (map (λ item. item.1) os) ≡ true
    → any (λ o. not (is_authoritative o.1)) os ≡ false
all-none_lacking [] h = refl
all-none_lacking (o ∷ os) h = ground (arith, h, all-none_lacking os)

authoritative-none_failed :
    (os : List AnalysisOutcome) → all is_authoritative os ≡ true → any_failed os ≡ false
authoritative-none_failed [] h = refl
authoritative-none_failed (o ∷ os) h = ground (arith, h, authoritative-none_failed os)

-- The job ended as its outcomes say, and the change event with it.
pub record Ended (os : List AnalysisOutcome) (y : Execution) : Type 0 where
  pub coherent : Coherent y
  pub terminal : is_terminal y.job.status ≡ true
  pub failed : (y.job.status ≡ AnalysisJobStatus.failed) ↔ (any_failed os ≡ true)
  pub succeeded : (y.job.status ≡ AnalysisJobStatus.succeeded) ↔ (all is_authoritative os ≡ true)

module _ (x : Execution) (t : Instant) (c : Coherent x) (m : Timely x t)
    (running : x.job.status ≡ AnalysisJobStatus.running)
    (covered : covers_requested x.job.analysis_outcomes x.job.requested_analysis_types ≡ true) where
  processing : x.event.status ≡ ChangeEventStatus.processing
  processing = ground (arith, c.paired, running)

  accounted : Accounted x.job
  accounted = ground (arith, covered)

  abbrev End : Type 0
  End =
      (y : Execution) × (aggregate_job x.job x.event t ≡ ok (y.job, y.event))
      × Ended (outcomes_of x.job) y

  end_failed : any_failed (outcomes_of x.job) ≡ true → End
  unfolding aggregate_job
  end_failed h =
      let reason = failure_reason (outcomes_of x.job) in
      let n = failure_reason-IsNormal (outcomes_of x.job) in
      let (je, jv) =
        complete_failed_lem x.job c.job running t m.job_started reason reason
          (n "analysis_job.failure_safe") accounted in
      let (ee, ev) =
        fail_change_event_lem x.event c.event t m.event_created reason reason
          (n "change_event.failure_safe") processing in
      (
        record {
          event = failed_with x.event t reason;
          job = ended x.job AnalysisJobStatus.failed t (some reason);
        },
        ground (arith, h, covered, je, ee),
        record {
          coherent = record { event = ev; job = jv; paired = tt };
          terminal = refl;
          failed = (λ _. h, λ _. refl);
          succeeded = (
            (λ e. absurd (ground (arith, e))),
            λ a. absurd (ground (arith, h, authoritative-none_failed (outcomes_of x.job) a)),
          );
        },
      )

  -- The event is done with a job that did not fail.
  end_done :
      (status : AnalysisJobStatus) (failure : Option Text)
      → (status ≡ AnalysisJobStatus.succeeded) ⊎ (status ≡ AnalysisJobStatus.inconclusive)
      → Gives (complete_analysis_job x.job status (aware t) failure) (ended x.job status t failure)
      → any_failed (outcomes_of x.job) ≡ false
      → ending_of (outcomes_of x.job) ≡ record { status = status; failure_safe = failure }
      → ((status ≡ AnalysisJobStatus.succeeded) ↔ (all is_authoritative (outcomes_of x.job) ≡ true))
      → End
  unfolding aggregate_job
  end_done status failure either (je, jv) none_failed e iff =
      let (ee, ev) = complete_change_event_lem x.event c.event t m.event_created processing in
      (
        record { event = completed x.event t; job = ended x.job status t failure },
        ground (arith, covered, e, je, ee, either),
        record {
          coherent = record { event = ev; job = jv; paired = ground (arith, either) };
          terminal = ground (arith, either);
          failed = ground (arith, either, none_failed);
          succeeded = iff;
        },
      )

  -- A running job with all of its outcomes, valid and in step with its change event, at a time that is not
  -- before either of them, ends at once, in a call that does not raise: it failed
  -- exactly when an outcome failed, it succeeded exactly when every outcome succeeded with complete
  -- coverage, it is inconclusive otherwise; the change event failed with it or is done, and both are
  -- valid again.
  pub aggregate_job_ends : End
  unfolding ending_of
  aggregate_job_ends = elim (Bool-cases (any_failed (outcomes_of x.job))) [
    | inl h ↦ end_failed h
    | inr n ↦ elim (Bool-cases (all is_authoritative (outcomes_of x.job))) [
      | inl a ↦
          end_done AnalysisJobStatus.succeeded none (inl refl)
            (complete_succeeded_lem x.job c.job running t m.job_started accounted
              (all-none_lacking x.job.analysis_outcomes a))
            n (ground (arith, n, a)) (λ _. a, λ _. refl)
      | inr b ↦
          let reason =
            if all (λ o. was_skipped o.status) (outcomes_of x.job)
            then codes "ANALYSIS:NOT_APPLICABLE"
            else codes "ANALYSIS:INCOMPLETE_COVERAGE" in
          end_done AnalysisJobStatus.inconclusive (some reason) (inr refl)
            (complete_inconclusive_lem x.job c.job running t m.job_started reason
              (if-IsNormal (all (λ o. was_skipped o.status) (outcomes_of x.job))
                (codes "ANALYSIS:NOT_APPLICABLE") (codes "ANALYSIS:INCOMPLETE_COVERAGE")
                "analysis_job.failure_safe" (skipped-IsNormal "analysis_job.failure_safe")
                (incomplete-IsNormal "analysis_job.failure_safe"))
              accounted)
            n (ground (arith, n, b)) (ground (arith, b))
    ]
  ]
