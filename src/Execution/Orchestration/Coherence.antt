-- ===== src/Execution/Orchestration/Coherence.antt =====
-- The change event and the job of an execution keep step: application/analysis_jobs/service.py.
use ip_risk_agent_v.Base.{
  ◌≡◌, ◌⊎◌, inl, inr, refl, arith, ◌≤◌, ◌<◌, ◌+◌, ℕ, Bool, true, false, Option, none, some, Instant,
  aware, ok,
}
use ip_risk_agent_v.Execution.ChangeEvents.{ChangeEventStatus, lease_open}
use ip_risk_agent_v.Execution.ChangeEvents.Results.{
  claimed, claim_change_event_lem, reclaim_change_event_lem,
}
use ip_risk_agent_v.Execution.AnalysisJobs.{AnalysisJobStatus}
use ip_risk_agent_v.Execution.AnalysisJobs.Validity.{Accounted}
use ip_risk_agent_v.Execution.AnalysisJobs.Results.{
  started, restarted, StartedBy, restart_time, restart_time-lt, claim_analysis_job_lem,
  reclaim_analysis_job_lem,
}
use ip_risk_agent_v.Execution.ChangeEvents.Validity as EventValidity
use ip_risk_agent_v.Execution.AnalysisJobs.Validity as JobValidity
use ip_risk_agent_v.Execution.Orchestration.{Execution, claim}

-- The pairs of statuses that an execution goes through.
abbrev pub Paired : ChangeEventStatus → AnalysisJobStatus → Type 0
Paired ChangeEventStatus.pending AnalysisJobStatus.queued = Unit
Paired ChangeEventStatus.processing AnalysisJobStatus.running = Unit
Paired ChangeEventStatus.failed AnalysisJobStatus.failed = Unit
Paired ChangeEventStatus.done AnalysisJobStatus.succeeded = Unit
Paired ChangeEventStatus.done AnalysisJobStatus.inconclusive = Unit
Paired _ _ = ⊥

pub record Coherent (x : Execution) : Type 0 where
  pub event : EventValidity.IsValid x.event
  pub job : JobValidity.IsValid x.job
  pub paired : Paired x.event.status x.job.status

-- The clock has not gone behind the execution.
pub record Timely (x : Execution) (now : Instant) : Type 0 where
  pub event_created : x.event.created_at ≤ now
  pub job_created : x.job.created_at ≤ now
  pub job_started : StartedBy x.job.started_at now

-- A worker may take the execution: it waits, its lease is over, or it failed and a retry is asked.
abbrev pub Claimable : Execution → Instant → Bool → Type 0
Claimable x now retry =
    (x.event.status ≡ ChangeEventStatus.pending)
    ⊎ (x.event.status ≡ ChangeEventStatus.processing)
      × (lease_open x.event.lease_expires_at now ≡ false)
    ⊎ (x.event.status ≡ ChangeEventStatus.failed) × (retry ≡ true)

abbrev pub StartsAfter : Option Instant → Option Instant → Type 0
StartsAfter none after = Unit
StartsAfter (some before) none = ⊥
StartsAfter (some before) (some after) = before < after

-- The execution after a worker took it: a new attempt under a lease of the given length, that
-- starts after the attempt before it.
pub record Taken (x : Execution) (now : Instant) (d : ℕ) (y : Execution) : Type 0 where
  pub coherent : Coherent y
  pub processing : y.event.status ≡ ChangeEventStatus.processing
  pub running : y.job.status ≡ AnalysisJobStatus.running
  pub lease : y.event.lease_expires_at ≡ some (now + d)
  pub attempts : y.event.attempts ≡ x.event.attempts + 1
  pub after : StartsAfter x.job.started_at y.job.started_at

pub StartsAfter-restart :
    (s : Option Instant) (now : Instant) → StartsAfter s (some (restart_time s now))
StartsAfter-restart none now = tt
StartsAfter-restart (some s) now = restart_time-lt s now

abbrev pub taken_first : Execution → Instant → ℕ → Execution
taken_first x now d = record { event = claimed x.event now (now + d); job = started x.job now }

abbrev pub taken_again : Execution → Instant → ℕ → Execution
taken_again x now d = record {
  event = claimed x.event now (now + d);
  job = restarted x.job (restart_time x.job.started_at now);
}

module _ (x : Execution) (c : Coherent x) (now : Instant) (t : Timely x now) (d : ℕ)
    (pos : 0 < d) where
  claim_pending :
      (retry : Bool)
      → x.event.status ≡ ChangeEventStatus.pending
      → (claim x (aware now) d retry ≡ ok (some (taken_first x now d)))
        × Taken x now d (taken_first x now d)
  unfolding claim
  claim_pending retry p =
      let q : x.job.status ≡ AnalysisJobStatus.queued = ground arith in
      let (e, ev) =
        claim_change_event_lem x.event c.event now t.event_created (now + d) p (omega arith) in
      let (j, jv) = claim_analysis_job_lem x.job c.job now t.job_created q in
      (
        ground arith,
        record {
          coherent = record { event = ev; job = jv; paired = tt };
          processing = refl;
          running = refl;
          lease = refl;
          attempts = refl;
          after = ground arith;
        },
      )

  claim_again :
      (retry : Bool)
      → (x.event.status ≡ ChangeEventStatus.failed) × (retry ≡ true)
        ⊎ (x.event.status ≡ ChangeEventStatus.processing)
          × (lease_open x.event.lease_expires_at now ≡ false)
      → (claim x (aware now) d retry ≡ ok (some (taken_again x now d)))
        × Taken x now d (taken_again x now d)
  unfolding claim
  claim_again retry p =
      let q : (x.job.status ≡ AnalysisJobStatus.running)
          ⊎ (x.job.status ≡ AnalysisJobStatus.failed) =
        ground arith in
      let (e, ev) =
        reclaim_change_event_lem x.event c.event now t.event_created (now + d) (ground arith)
          (omega arith) in
      let (j, jv) = reclaim_analysis_job_lem x.job c.job now t.job_created q t.job_started in
      (
        ground arith,
        record {
          coherent = record { event = ev; job = jv; paired = tt };
          processing = refl;
          running = refl;
          lease = refl;
          attempts = refl;
          after = StartsAfter-restart x.job.started_at now;
        },
      )

  -- A worker that may take a coherent execution gets it, whatever its history, if its clock is not
  -- behind the creation of the event and of the job nor behind the start of the job's attempt before,
  -- and if the lease that it asks for has some length: the claim raises nothing, and what it saves is
  -- coherent, under a lease of the full length, with one more attempt that starts after the attempt
  -- before it.
  pub claim_takes :
      (retry : Bool)
      → Claimable x now retry
      → (y : Execution) × (claim x (aware now) d retry ≡ ok (some y)) × Taken x now d y
  claim_takes retry (inl p) = let (e, k) = claim_pending retry p in (taken_first x now d, e, k)
  claim_takes retry (inr (inl p)) =
      let (e, k) = claim_again retry (inr p) in (taken_again x now d, e, k)
  claim_takes retry (inr (inr p)) =
      let (e, k) = claim_again retry (inl p) in (taken_again x now d, e, k)
