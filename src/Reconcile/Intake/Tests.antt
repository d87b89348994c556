-- ===== src/Reconcile/Intake/Tests.antt =====
-- A result that says nothing of a file, handed in twice.
use ip_risk_agent_v.Base.{
  ◌≡◌, inl, inr, refl, arith, true, Bool-cases, none, some, List, [], ◌∷◌, Text, codes, text_eq,
  text_eq_iff, IsNormal, get_item, subst, Instant, Outcome, aware, Error, require_non_empty, strip,
  strip_of, lstrip, rstrip,
}
use ip_risk_agent_v.Exec.{◌>>=◌}
use ip_risk_agent_v.Contracts.{SourceType, AnalysisType, AnalysisStatus, AnalysisCoverage}
use ip_risk_agent_v.Artifacts.{Artifact, ArtifactStatus, ArtifactState, ArtifactAvailability}
use ip_risk_agent_v.Workspaces.Models.{RiskWorkspace, RiskWorkspaceStatus}
use ip_risk_agent_v.Execution.AnalysisJobs.{AnalysisJobStatus}
use ip_risk_agent_v.Repositories.{ControlState}
use ip_risk_agent_v.Repositories.AnalysisJobs.{get}
use ip_risk_agent_v.Reconcile.{AnalysisResult}
use ip_risk_agent_v.Reconcile.Retention.{default_policy}
use ip_risk_agent_v.Reconcile.Examples.{
  library, nothing, event, unanswered, value_or, is_ok, is_ok-value_or,
}
use ip_risk_agent_v.Reconcile.Intake.{
  AnalysisResultAcceptance, AnalysisResultDisposition, accept_once,
}
use ip_risk_agent_v.Reconcile.Intake.Attempts.{
  Attempt, Answer, attempt_once, accept_within, accept_analysis_result,
}
use ip_risk_agent_v.Reconcile.Intake.Attempts.Atomic.{
  Among, Answers, accept_analysis_result-Answers,
}
use ip_risk_agent_v.Reconcile.Intake.Once.{JobsStored, first_result_wins}

abbrev workspace : RiskWorkspace
workspace = record {
  id = codes "w";
  name = codes "Acme";
  owner_user_id = codes "ann";
  security_policy_version = codes "1";
  retention_policy_version = codes "1";
  created_at = 1;
  updated_at = 1;
  description = none;
  status = RiskWorkspaceStatus.active;
  global_ignore_text = [];
  license_profile = none;
}

abbrev file : Artifact
file = record {
  id = codes "art";
  risk_workspace_id = codes "w";
  mount_id = codes "mount";
  source_workspace_id = codes "sw";
  source_type = SourceType.github;
  source_artifact_id = codes "file";
  display_name = codes "a.py";
  logical_path = codes "m/a.py";
  status = ArtifactStatus.active;
  first_seen_at = 5;
  last_seen_at = 10;
}

abbrev file_state : ArtifactState
file_state = record {
  artifact_id = codes "art";
  latest_revision = some (codes "r1");
  latest_checksum = none;
  availability_state = ArtifactAvailability.available;
  updated_at = 10;
  latest_successful_analysis_revision_by_type = [];
}

abbrev waiting : ControlState
waiting = record nothing {
  workspaces = (codes "w", workspace) ∷ [];
  artifacts = (codes "art", file) ∷ [];
  artifact_states = (codes "art", file_state) ∷ [];
  change_events = (codes "event", event) ∷ [];
  change_events_by_fingerprint = (codes "fp", codes "event") ∷ [];
  analysis_jobs = (codes "job", unanswered) ∷ [];
}

abbrev skipped : AnalysisResult
skipped = record {
  analysis_job_id = codes "job";
  artifact_id = codes "art";
  revision = codes "r1";
  analysis_type = AnalysisType.patent;
  status = AnalysisStatus.skipped;
  coverage = AnalysisCoverage.none;
  candidates = [];
  evidence = [];
  provider_failures = [];
  versions = record {
    analyzer_version = codes "1";
    model_id = none;
    prompt_version = none;
    policy_version = none;
    rag_corpus_version = none;
  };
  started_at = 21;
  completed_at = 22;
}

unanswered_named : IsNormal (codes "job") "analysis_job.id"
unfolding require_non_empty strip strip_of lstrip rstrip
unanswered_named = refl

waiting-JobsStored : JobsStored waiting
unfolding get get_item
waiting-JobsStored id job h = elim (Bool-cases (text_eq (codes "job") id)) [
  | inl t ↦
      let same : unanswered ≡ job = ground (arith, h, t) in
      subst (λ j. (j.id ≡ id) × IsNormal j.id "analysis_job.id") same
        (ground (arith, t, text_eq_iff (codes "job") id), unanswered_named)
  | inr n ↦ absurd (ground (arith, h, n))
]

abbrev marked : Text
marked = codes "sha256:ab"

marked-IsNormal : IsNormal marked "analysis_outcome.result_fingerprint"
unfolding require_non_empty strip strip_of lstrip rstrip
marked-IsNormal = refl

abbrev hand_in : Instant → ControlState → Outcome Error (AnalysisResultAcceptance × ControlState)
hand_in now = accept_once library default_policy skipped marked (aware now)

abbrev unaccepted : AnalysisResultAcceptance
unaccepted = record {
  disposition = AnalysisResultDisposition.accepted;
  analysis_job_id = [];
  result_fingerprint = [];
  job_status = AnalysisJobStatus.queued;
  affected_risk_ids = [];
  resolved_risk_ids = [];
  evidence_count = 0;
}

abbrev once : AnalysisResultAcceptance × ControlState
once = value_or (unaccepted, nothing) (hand_in 30 waiting)

abbrev twice : AnalysisResultAcceptance × ControlState
twice = value_or (unaccepted, nothing) (hand_in 40 once.1)

once-is_ok : is_ok (hand_in 30 waiting) ≡ true
unfolding accept_once ◌>>=◌ ip_risk_agent_v.Reconcile.Intake.load_context
    ip_risk_agent_v.Repositories.AnalysisJobs.get ip_risk_agent_v.Base.get_item
    ip_risk_agent_v.Base.set_item ip_risk_agent_v.Base.text_eq
    ip_risk_agent_v.Repositories.ChangeEvents.get ip_risk_agent_v.Repositories.Artifacts.get
    ip_risk_agent_v.Repositories.Artifacts.get_state ip_risk_agent_v.Repositories.Workspaces.get
    ip_risk_agent_v.Base.same_text ip_risk_agent_v.Reconcile.Intake.validate_result
    ip_risk_agent_v.Repositories.AnalysisJobs.outcome_for
    ip_risk_agent_v.Reconcile.Intake.accept_new
    ip_risk_agent_v.Reconcile.Outcomes.outcome_from_result
    ip_risk_agent_v.Reconcile.Outcomes.outcome_post_init
    ip_risk_agent_v.Reconcile.Outcomes.summarise ip_risk_agent_v.Reconcile.Outcomes.safe_optional
    ip_risk_agent_v.Reconcile.Retention.sanitize_failure_message ip_risk_agent_v.Base.strip
    ip_risk_agent_v.Base.strip_of ip_risk_agent_v.Base.lstrip ip_risk_agent_v.Base.rstrip
    ip_risk_agent_v.Base.require_non_empty ip_risk_agent_v.Execution.AnalysisJobs.post_init
    ip_risk_agent_v.Execution.AnalysisJobs.check_outcomes
    ip_risk_agent_v.Execution.AnalysisJobs.check_status
    ip_risk_agent_v.Execution.AnalysisJobs.complete_analysis_job
    ip_risk_agent_v.Execution.ChangeEvents.post_init
    ip_risk_agent_v.Execution.ChangeEvents.check_status
    ip_risk_agent_v.Execution.ChangeEvents.same_identity
    ip_risk_agent_v.Execution.ChangeEvents.complete_change_event
    ip_risk_agent_v.Reconcile.Aggregation.aggregate_job
    ip_risk_agent_v.Reconcile.Aggregation.ending_of
    ip_risk_agent_v.Risk.Transitions.analysis_can_record
    ip_risk_agent_v.Risk.Transitions.analysis_is_authoritative
    ip_risk_agent_v.Repositories.AnalysisJobs.save ip_risk_agent_v.Repositories.ChangeEvents.save
    ip_risk_agent_v.Base.sorted
once-is_ok = refl

twice-is_ok : is_ok (hand_in 40 once.1) ≡ true
unfolding accept_once ◌>>=◌ ip_risk_agent_v.Reconcile.Intake.load_context
    ip_risk_agent_v.Repositories.AnalysisJobs.get ip_risk_agent_v.Base.get_item
    ip_risk_agent_v.Base.set_item ip_risk_agent_v.Base.text_eq
    ip_risk_agent_v.Repositories.ChangeEvents.get ip_risk_agent_v.Repositories.Artifacts.get
    ip_risk_agent_v.Repositories.Artifacts.get_state ip_risk_agent_v.Repositories.Workspaces.get
    ip_risk_agent_v.Base.same_text ip_risk_agent_v.Reconcile.Intake.validate_result
    ip_risk_agent_v.Repositories.AnalysisJobs.outcome_for
    ip_risk_agent_v.Reconcile.Intake.accept_new
    ip_risk_agent_v.Reconcile.Outcomes.outcome_from_result
    ip_risk_agent_v.Reconcile.Outcomes.outcome_post_init
    ip_risk_agent_v.Reconcile.Outcomes.summarise ip_risk_agent_v.Reconcile.Outcomes.safe_optional
    ip_risk_agent_v.Reconcile.Retention.sanitize_failure_message ip_risk_agent_v.Base.strip
    ip_risk_agent_v.Base.strip_of ip_risk_agent_v.Base.lstrip ip_risk_agent_v.Base.rstrip
    ip_risk_agent_v.Base.require_non_empty ip_risk_agent_v.Execution.AnalysisJobs.post_init
    ip_risk_agent_v.Execution.AnalysisJobs.check_outcomes
    ip_risk_agent_v.Execution.AnalysisJobs.check_status
    ip_risk_agent_v.Execution.AnalysisJobs.complete_analysis_job
    ip_risk_agent_v.Execution.ChangeEvents.post_init
    ip_risk_agent_v.Execution.ChangeEvents.check_status
    ip_risk_agent_v.Execution.ChangeEvents.same_identity
    ip_risk_agent_v.Execution.ChangeEvents.complete_change_event
    ip_risk_agent_v.Reconcile.Aggregation.aggregate_job
    ip_risk_agent_v.Reconcile.Aggregation.ending_of
    ip_risk_agent_v.Risk.Transitions.analysis_can_record
    ip_risk_agent_v.Risk.Transitions.analysis_is_authoritative
    ip_risk_agent_v.Repositories.AnalysisJobs.save ip_risk_agent_v.Repositories.ChangeEvents.save
    ip_risk_agent_v.Base.sorted
twice-is_ok = refl

first_result_wins_example :
    (marked ≡ marked)
    × (twice.0.disposition ≡ AnalysisResultDisposition.duplicate)
    × (twice.1 ≡ once.1)
first_result_wins_example =
    first_result_wins library library default_policy default_policy (aware 30) (aware 40) skipped
      skipped marked marked waiting once.1 twice.1 once.0 twice.0 waiting-JobsStored marked-IsNormal
      refl refl (is_ok-value_or (unaccepted, nothing) (hand_in 30 waiting) once-is_ok)
      (is_ok-value_or (unaccepted, nothing) (hand_in 40 once.1) twice-is_ok)

-- Another worker commits during the first attempt, and none during the second.
abbrev disturbed : Attempt
disturbed = record {
  entered = record { state = waiting; revision = 1 };
  clock = aware 30;
  committing = record { state = waiting; revision = 2 };
}

abbrev undisturbed : Attempt
undisturbed = record {
  entered = record { state = waiting; revision = 2 };
  clock = aware 31;
  committing = record { state = waiting; revision = 2 };
}

abbrev attempts : List Attempt
attempts = disturbed ∷ undisturbed ∷ []

abbrev attempted : Outcome Error Answer
attempted = accept_analysis_result library default_policy skipped marked attempts

abbrev unanswered_call : Answer
unanswered_call = (unaccepted, record { state = nothing; revision = 0 })

attempted-is_ok : is_ok attempted ≡ true
unfolding accept_analysis_result accept_within attempt_once
    ip_risk_agent_v.Repositories.UnitOfWork.enter ip_risk_agent_v.Repositories.UnitOfWork.commit
    ip_risk_agent_v.Repositories.UnitOfWork.ensure_open accept_once ◌>>=◌
    ip_risk_agent_v.Reconcile.Intake.load_context ip_risk_agent_v.Repositories.AnalysisJobs.get
    ip_risk_agent_v.Base.get_item ip_risk_agent_v.Base.set_item ip_risk_agent_v.Base.text_eq
    ip_risk_agent_v.Repositories.ChangeEvents.get ip_risk_agent_v.Repositories.Artifacts.get
    ip_risk_agent_v.Repositories.Artifacts.get_state ip_risk_agent_v.Repositories.Workspaces.get
    ip_risk_agent_v.Base.same_text ip_risk_agent_v.Reconcile.Intake.validate_result
    ip_risk_agent_v.Repositories.AnalysisJobs.outcome_for
    ip_risk_agent_v.Reconcile.Intake.accept_new
    ip_risk_agent_v.Reconcile.Outcomes.outcome_from_result
    ip_risk_agent_v.Reconcile.Outcomes.outcome_post_init
    ip_risk_agent_v.Reconcile.Outcomes.summarise ip_risk_agent_v.Reconcile.Outcomes.safe_optional
    ip_risk_agent_v.Reconcile.Retention.sanitize_failure_message ip_risk_agent_v.Base.strip
    ip_risk_agent_v.Base.strip_of ip_risk_agent_v.Base.lstrip ip_risk_agent_v.Base.rstrip
    ip_risk_agent_v.Base.require_non_empty ip_risk_agent_v.Execution.AnalysisJobs.post_init
    ip_risk_agent_v.Execution.AnalysisJobs.check_outcomes
    ip_risk_agent_v.Execution.AnalysisJobs.check_status
    ip_risk_agent_v.Execution.AnalysisJobs.complete_analysis_job
    ip_risk_agent_v.Execution.ChangeEvents.post_init
    ip_risk_agent_v.Execution.ChangeEvents.check_status
    ip_risk_agent_v.Execution.ChangeEvents.same_identity
    ip_risk_agent_v.Execution.ChangeEvents.complete_change_event
    ip_risk_agent_v.Reconcile.Aggregation.aggregate_job
    ip_risk_agent_v.Reconcile.Aggregation.ending_of
    ip_risk_agent_v.Risk.Transitions.analysis_can_record
    ip_risk_agent_v.Risk.Transitions.analysis_is_authoritative
    ip_risk_agent_v.Repositories.AnalysisJobs.save ip_risk_agent_v.Repositories.ChangeEvents.save
    ip_risk_agent_v.Base.sorted
attempted-is_ok = refl

accept_analysis_result-Answers_example :
    Among
      (Answers library default_policy skipped marked (value_or unanswered_call attempted))
      attempts
accept_analysis_result-Answers_example =
    accept_analysis_result-Answers library default_policy skipped marked attempts
      (value_or unanswered_call attempted) ((λ e. absurd (omega (arith, e))), ((λ _. refl), tt))
      (is_ok-value_or unanswered_call attempted attempted-is_ok)
