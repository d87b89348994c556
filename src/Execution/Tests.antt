-- ===== src/Execution/Tests.antt =====
-- Runs of an execution, and the properties at concrete ones.
use ip_risk_agent_v.Base.{
  same_text, ◌≡◌, ◌≢◌, ◌↔◌, refl, arith, inl, inr, false, none, some, [], ◌∷◌, codes, ok, raised,
  aware, orchestration, require_non_empty, strip, strip_of, lstrip, rstrip, text_eq,
}
use ip_risk_agent_v.Contracts.{
  SourceType, ChangeType, AnalysisType, AnalysisStatus, AnalysisCoverage,
}
use ip_risk_agent_v.Execution.ChangeEvents.{
  ChangeEvent, ChangeEventStatus, SourceIdentity, same_identity, claim_change_event,
  reclaim_change_event, reanalyze_change_event, requeue_change_event, complete_change_event,
  post_init as event_post_init, check_status as event_check_status,
}
use ip_risk_agent_v.Execution.ChangeEvents.Validity.{change_event_fixed_iff}
use ip_risk_agent_v.Execution.ChangeEvents.Results.{live_lease_refuses}
use ip_risk_agent_v.Execution.AnalysisJobs.{
  AnalysisJob, AnalysisJobStatus, AnalysisOutcome, complete_analysis_job, check_outcomes,
  post_init as job_post_init, check_status as job_check_status, reclaim_analysis_job,
  claim_analysis_job,
}
use ip_risk_agent_v.Execution.AnalysisJobs.Validity.{job_fixed}
use ip_risk_agent_v.Execution.AnalysisJobs.Soundness.{IsSound, analysis_job_fixed_iff}
use ip_risk_agent_v.Execution.Orchestration.{Execution, claim, finish, fail}
use ip_risk_agent_v.Execution.Orchestration.Waiting.{
  IsHalfDone, IsEnding, StartsOver, lease_excludes, halfway_waits,
}
use ip_risk_agent_v.Execution.Orchestration.Coherence.{
  Coherent, Timely, Taken, taken_first, taken_again, claim_takes,
}
use ip_risk_agent_v.Execution.Orchestration.Reachable.{
  Step, Steps, Steps-Coherent, superseded_worker_cannot_fail,
}
use ip_risk_agent_v.Execution.ChangeEvents.Validity as EventValidity
use ip_risk_agent_v.Execution.AnalysisJobs.Validity as JobValidity

abbrev source : SourceIdentity
source = record {
  event_fingerprint = codes "fp";
  risk_workspace_id = codes "rws";
  mount_id = codes "mount";
  source_workspace_id = codes "sws";
  source_artifact_id = codes "file";
  source_type = SourceType.github;
  change_type = ChangeType.update;
  revision = some (codes "r1");
  previous_revision = none;
  observed_at = 5;
  provider_event_id = none;
}

abbrev pending_event : ChangeEvent
pending_event = record {
  id = codes "event";
  event_fingerprint = codes "fp";
  risk_workspace_id = codes "rws";
  mount_id = codes "mount";
  source_workspace_id = codes "sws";
  source_artifact_id = codes "file";
  source_type = SourceType.github;
  change_type = ChangeType.update;
  revision = some (codes "r1");
  previous_revision = none;
  observed_at = 5;
  status = ChangeEventStatus.pending;
  attempts = 0;
  created_at = 10;
  updated_at = 10;
  source_change = source;
  artifact_id = some (codes "art");
  provider_event_id = none;
  last_error_safe = none;
  lease_expires_at = none;
}

pending_event-IsValid : EventValidity.IsValid pending_event
unfolding event_post_init event_check_status same_identity same_text text_eq require_non_empty strip
    strip_of lstrip rstrip
pending_event-IsValid = (change_event_fixed_iff pending_event).0 refl

event_fixed_iff :
    (event_post_init pending_event ≡ ok pending_event) ↔ EventValidity.IsValid pending_event
event_fixed_iff = change_event_fixed_iff pending_event

abbrev running_event : ChangeEvent
running_event = record pending_event {
  status = ChangeEventStatus.processing;
  attempts = 1;
  updated_at = 20;
  lease_expires_at = some 25;
}

live_lease_claimed_twice :
    (claim_change_event running_event (aware 24) (aware 40) ≢ ok running_event)
    × (reclaim_change_event running_event (aware 24) (aware 40) ≢ ok running_event)
    × (reanalyze_change_event running_event (aware 24) ≢ ok running_event)
    × (requeue_change_event running_event (aware 24) ≢ ok running_event)
live_lease_claimed_twice =
    live_lease_refuses running_event 24 25 40 refl refl (omega arith) running_event

abbrev queued_job : AnalysisJob
queued_job = record {
  id = codes "job";
  change_event_id = codes "event";
  artifact_id = codes "art";
  revision = codes "r1";
  requested_analysis_types = AnalysisType.patent ∷ AnalysisType.license ∷ [];
  status = AnalysisJobStatus.queued;
  created_at = 10;
  started_at = none;
  completed_at = none;
  failure_safe = none;
  analysis_outcomes = [];
  analysis_input_checksum = none;
}

queued_job-IsValid : JobValidity.IsValid queued_job
unfolding job_post_init job_check_status check_outcomes require_non_empty strip strip_of lstrip
    rstrip
queued_job-IsValid = (job_fixed queued_job).0 refl

analysis_job_fixed_iff_example : (job_post_init queued_job ≡ ok queued_job) ↔ IsSound queued_job
analysis_job_fixed_iff_example = analysis_job_fixed_iff queued_job

abbrev patent_outcome : AnalysisOutcome
patent_outcome = record {
  analysis_type = AnalysisType.patent;
  result_fingerprint = codes "f";
  status = AnalysisStatus.succeeded;
  coverage = AnalysisCoverage.complete;
  analyzer_version = codes "1";
  started_at = 20;
  completed_at = 21;
  provider_failures = [];
  model_id = none;
  prompt_version = none;
  policy_version = none;
  rag_corpus_version = none;
}

-- The patent result is in and the license result is not.
abbrev halfway_job : AnalysisJob
halfway_job = record queued_job {
  status = AnalysisJobStatus.running;
  started_at = some 20;
  analysis_outcomes = (AnalysisType.patent, patent_outcome) ∷ [];
}

abbrev waiting_execution : Execution
waiting_execution = record { event = pending_event; job = queued_job }

waiting_execution-Coherent : Coherent waiting_execution
waiting_execution-Coherent = record {
  event = pending_event-IsValid;
  job = queued_job-IsValid;
  paired = tt;
}

waiting_execution-Timely : Timely waiting_execution 20
waiting_execution-Timely = record {
  event_created = omega arith;
  job_created = omega arith;
  job_started = tt;
}

claim_takes_example :
    (y : Execution) × (claim waiting_execution (aware 20) 5 false ≡ ok (some y))
    × Taken waiting_execution 20 5 y
claim_takes_example =
    claim_takes waiting_execution waiting_execution-Coherent 20 waiting_execution-Timely 5
      (omega arith) false (inl refl)

abbrev first_attempt : Execution
first_attempt = taken_first waiting_execution 20 5

abbrev second_attempt : Execution
second_attempt = taken_again first_attempt 30 5

claim_first : claim waiting_execution (aware 20) 5 false ≡ ok (some first_attempt)
unfolding claim claim_change_event claim_analysis_job event_post_init event_check_status
    same_identity same_text text_eq job_post_init job_check_status check_outcomes require_non_empty
    strip strip_of lstrip rstrip
claim_first = refl

claim_second : claim first_attempt (aware 30) 5 false ≡ ok (some second_attempt)
unfolding claim reclaim_change_event reclaim_analysis_job event_post_init event_check_status
    same_identity same_text text_eq job_post_init job_check_status check_outcomes require_non_empty
    strip strip_of lstrip rstrip
claim_second = refl

first_attempt-Taken : Taken waiting_execution 20 5 first_attempt
first_attempt-Taken = record {
  coherent =
      Steps-Coherent waiting_execution first_attempt waiting_execution-Coherent
        (Steps.then_step Steps.done (Step.claims (aware 20) 5 false claim_first));
  processing = refl;
  running = refl;
  lease = refl;
  attempts = refl;
  after = tt;
}

abbrev finished : Execution
finished = record {
  event = record first_attempt.event {
    status = ChangeEventStatus.done;
    last_error_safe = none;
    updated_at = 24;
    lease_expires_at = none;
  };
  job = record first_attempt.job {
    status = AnalysisJobStatus.inconclusive;
    completed_at = some 24;
    failure_safe = none;
  };
}

finished_first : finish first_attempt (aware 24) AnalysisJobStatus.inconclusive none ≡ ok finished
unfolding finish complete_analysis_job complete_change_event event_post_init event_check_status
    same_identity same_text text_eq job_post_init job_check_status check_outcomes require_non_empty
    strip strip_of lstrip rstrip
finished_first = refl

abbrev ending : Step first_attempt finished
ending = Step.finishes (aware 24) AnalysisJobStatus.inconclusive none finished_first

lease_excludes_example : IsEnding ending
lease_excludes_example =
    lease_excludes first_attempt 25 refl refl refl finished ending 24 refl (omega arith)

-- The first attempt, when one of its two results was accepted.
abbrev halfway : Execution
halfway = record { event = first_attempt.event; job = halfway_job }

halfway_job-IsHalfDone : IsHalfDone halfway_job
halfway_job-IsHalfDone = record {
  some_outcome = λ e. ground (arith, e);
  type = AnalysisType.license;
  wanted = inr (inl refl);
  missing = λ h. ground (arith, h);
}

abbrev restarted_halfway : Execution
restarted_halfway = taken_again halfway 30 5

claim_halfway : claim halfway (aware 30) 5 false ≡ ok (some restarted_halfway)
unfolding claim reclaim_change_event reclaim_analysis_job event_post_init event_check_status
    same_identity same_text text_eq job_post_init job_check_status check_outcomes require_non_empty
    strip strip_of lstrip rstrip
claim_halfway = refl

halfway_waits_example :
    StartsOver 25 halfway restarted_halfway (Step.claims (aware 30) 5 false claim_halfway)
halfway_waits_example =
    halfway_waits halfway 25 refl refl refl halfway_job-IsHalfDone restarted_halfway
      (Step.claims (aware 30) 5 false claim_halfway)

Steps-Coherent_example : Coherent second_attempt
Steps-Coherent_example =
    Steps-Coherent waiting_execution second_attempt waiting_execution-Coherent (
      Steps.then_step (Steps.then_step Steps.done (Step.claims (aware 20) 5 false claim_first))
        (Step.claims (aware 30) 5 false claim_second))

superseded_worker_cannot_fail_example :
    fail second_attempt (aware 31) (codes "timeout") (some 1)
    ≡ raised (orchestration "analysis failure attempt does not own the current lease")
superseded_worker_cannot_fail_example =
    superseded_worker_cannot_fail first_attempt first_attempt second_attempt second_attempt
      (aware 30) 5 false Steps.done claim_second Steps.done (aware 31) (codes "timeout")
