-- ===== src/Reconcile/Intake.antt =====
-- application/risk_reconcile/service.py: the intake of one result, in one unit of work.
pub mod Kept
pub mod Once
pub mod Attempts
mod Tests
use ip_risk_agent_v.Base.{
  ℕ, ◌+◌, max, ltb, Bool, true, not, ◌&&◌, ◌||◌, is_none, if◌then◌else◌, map, Option, none, some,
  List, [], ◌∷◌, ◌++◌, Text, text_eq, same_text, text_leb, sorted, Instant, Datetime, normalize_utc,
  Outcome, ok, raised, Error, not_found, intake, superseded,
}
use ip_risk_agent_v.Exec.{Exec, pure, lift, gets, refuse_if, ◌>>=◌, ◌>>◌}
use ip_risk_agent_v.Contracts.{AnalysisType, same_analysis}
use ip_risk_agent_v.Risk.{Risk}
use ip_risk_agent_v.Risk.Transitions.{
  analysis_can_record, analysis_is_authoritative, is_succeeded, is_complete,
}
use ip_risk_agent_v.Artifacts.{ArtifactState, state_post_init}
use ip_risk_agent_v.Execution.ChangeEvents.{ChangeEvent, is_processing}
use ip_risk_agent_v.Execution.AnalysisJobs.{
  AnalysisJob, AnalysisJobStatus, AnalysisOutcome, is_running, is_empty, requested,
}
use ip_risk_agent_v.Repositories.{ControlState}
use ip_risk_agent_v.Repositories.AnalysisJobs.{outcome_for}
use ip_risk_agent_v.Repositories.Artifacts.{get, get_state, save_state}
use ip_risk_agent_v.Reconcile.{Library, AnalysisResult}
use ip_risk_agent_v.Reconcile.Retention.{EvidenceRetentionPolicy}
use ip_risk_agent_v.Reconcile.Loop.{Observed, reconcile}
use ip_risk_agent_v.Reconcile.Aggregation.{has_failed, aggregate_job}
use ip_risk_agent_v.Reconcile.Outcomes.{outcome_from_result}
use ip_risk_agent_v.Reconcile.Failures.{record_analysis_failure}

-- `AnalysisResultDisposition`
pub data AnalysisResultDisposition : Type 0 where
  accepted duplicate : AnalysisResultDisposition

pub record AnalysisResultAcceptance : Type 0 where
  pub disposition : AnalysisResultDisposition
  pub analysis_job_id : Text
  pub result_fingerprint : Text
  pub job_status : AnalysisJobStatus
  pub affected_risk_ids : List Text
  pub resolved_risk_ids : List Text
  pub evidence_count : ℕ

pub record Context : Type 0 where
  pub job : AnalysisJob
  pub event : ChangeEvent
  pub artifact_state : ArtifactState
  pub workspace_owner : Text

abbrev pub required {ℓ} : {A : Type ℓ} → Option A → Outcome Error A
required none = raised not_found
required (some a) = ok a

-- `_load_context`
unfoldable pub load_context : Text → Exec ControlState Context
load_context analysis_job_id = do
  known_job ← gets (λ s. ip_risk_agent_v.Repositories.AnalysisJobs.get s analysis_job_id)
  job ← lift (required known_job)
  known_event ← gets (λ s. ip_risk_agent_v.Repositories.ChangeEvents.get s job.change_event_id)
  known_artifact ← gets (λ s. get s job.artifact_id)
  known_state ← gets (λ s. get_state s job.artifact_id)
  event ← lift (required known_event)
  artifact ← lift (required known_artifact)
  artifact_state ← lift (required known_state)
  known_workspace ←
      gets (λ s. ip_risk_agent_v.Repositories.Workspaces.get s event.risk_workspace_id)
  workspace ← lift (required known_workspace)
  refuse_if
      (not (same_text event.artifact_id (some artifact.id))
        || not (same_text event.revision (some job.revision))
        || not (text_eq artifact.risk_workspace_id workspace.id)
        || not (text_eq job.artifact_id artifact.id))
      (intake "analysis result canonical context is inconsistent")
  pure record {
    job = job;
    event = event;
    artifact_state = artifact_state;
    workspace_owner = workspace.owner_user_id;
  }

abbrev predates : AnalysisResult → Option Instant → Bool
predates result none = true
predates result (some started_at) = ltb result.started_at started_at

-- `_validate_result`
unfoldable pub validate_result : Context → AnalysisResult → Exec ControlState (Unit {0})
validate_result x result = do
  let existing = outcome_for x.job.analysis_outcomes result.analysis_type
  refuse_if
      (is_none existing && (not (is_running x.job.status) || not (is_processing x.event.status)))
      (intake "new result requires a running canonical job")
  refuse_if
      (not (text_eq result.artifact_id x.job.artifact_id)
        || not (text_eq result.revision x.job.revision))
      (intake "result artifact or revision does not match job")
  refuse_if (not (requested result.analysis_type x.job.requested_analysis_types))
      (intake "result analysis type was not requested by the job")
  refuse_if (predates result x.job.started_at) (intake "result predates the current job attempt")
  refuse_if
      (is_none existing && not (same_text x.artifact_state.latest_revision (some result.revision)))
      superseded
  refuse_if
      (is_succeeded result.status
        && is_complete result.coverage
        && not (is_empty result.provider_failures))
      (intake "complete successful result cannot contain provider failures")
  refuse_if (has_failed result.status && is_empty result.provider_failures)
      (intake "FAILED result requires provider failure context")

abbrev or_instant : Option Instant → Instant → Instant
or_instant none t = t
or_instant (some s) t = s

-- `revisions[result.analysis_type] = result.revision`
unfoldable pub set_revision :
    AnalysisType → Text → List (AnalysisType × Text) → List (AnalysisType × Text)
set_revision t revision [] = (t, revision) ∷ []
set_revision t revision ((u, r) ∷ rest) =
    if same_analysis u t then (u, revision) ∷ rest else (u, r) ∷ set_revision t revision rest

-- `sum(numbers)`
abbrev pub total : List ℕ → ℕ
total [] = 0
total (n ∷ ns) = n + total ns

module _ (lib : Library) (policy : EvidenceRetentionPolicy) (result : AnalysisResult)
    (fingerprint : Text) (clock : Datetime) where
  -- What the risks of the file were set against, if the result saw anything.
  abbrev reconciled : Context → Instant → Exec ControlState (List Observed × List Risk)
  reconciled x occurred_at =
      let run =
        reconcile lib policy result fingerprint x.event.risk_workspace_id occurred_at
          x.workspace_owner in
      if analysis_can_record result.status result.coverage then run else pure ([], [])

  -- The revision that was analysed completely.
  abbrev mark_analysed : Context → Instant → Exec ControlState (Unit {0})
  mark_analysed x occurred_at =
      let mark = (do
        state ← lift (
            state_post_init record x.artifact_state {
              latest_successful_analysis_revision_by_type =
                  set_revision result.analysis_type result.revision
                    x.artifact_state.latest_successful_analysis_revision_by_type;
              updated_at = max x.artifact_state.updated_at occurred_at;
            })
        save_state state) in
      if analysis_is_authoritative result.status result.coverage then mark else pure tt

  abbrev note_failure : Context → Instant → Exec ControlState (Unit {0})
  note_failure x occurred_at =
      let note =
        record_analysis_failure lib policy result fingerprint x.event.risk_workspace_id
          x.workspace_owner occurred_at in
      if has_failed result.status || not (is_empty result.provider_failures) then note else pure tt

  -- A result whose type has no outcome yet.
  unfoldable pub accept_new : Context → Exec ControlState AnalysisResultAcceptance
  accept_new x = do
    outcome ← lift (outcome_from_result lib policy result fingerprint)
    job ← lift (
        ip_risk_agent_v.Execution.AnalysisJobs.post_init record x.job {
          analysis_outcomes = x.job.analysis_outcomes ++ (result.analysis_type, outcome) ∷ [];
        })
    now ← lift (normalize_utc clock "analysis_result_intake.clock")
    let occurred_at =
        max (max (max now result.completed_at) x.event.updated_at)
          (or_instant job.started_at job.created_at)
    reconciliation ← reconciled x occurred_at
    mark_analysed x occurred_at
    note_failure x occurred_at
    event ← lift (
        ip_risk_agent_v.Execution.ChangeEvents.post_init
          record x.event { updated_at = max x.event.updated_at occurred_at })
    ended ← lift (aggregate_job job event occurred_at)
    ip_risk_agent_v.Repositories.AnalysisJobs.save ended.0
    ip_risk_agent_v.Repositories.ChangeEvents.save ended.1
    let resolved = map (λ r. r.id) reconciliation.1
    pure record {
      disposition = AnalysisResultDisposition.accepted;
      analysis_job_id = ended.0.id;
      result_fingerprint = fingerprint;
      job_status = ended.0.status;
      affected_risk_ids = sorted text_leb (map (λ o. o.risk.id) reconciliation.0 ++ resolved);
      resolved_risk_ids = sorted text_leb resolved;
      evidence_count = total (map (λ o. o.evidence_count) reconciliation.0);
    }

  abbrev accept_known :
      Context → Option AnalysisOutcome → Exec ControlState AnalysisResultAcceptance
  accept_known x none = accept_new x
  accept_known x (some existing) = do
    refuse_if (not (text_eq existing.result_fingerprint fingerprint))
        (intake "analysis type already has a different canonical result")
    pure record {
      disposition = AnalysisResultDisposition.duplicate;
      analysis_job_id = x.job.id;
      result_fingerprint = fingerprint;
      job_status = x.job.status;
      affected_risk_ids = [];
      resolved_risk_ids = [];
      evidence_count = 0;
    }

  -- `_accept_once`, before the commit.
  unfoldable pub accept_once : Exec ControlState AnalysisResultAcceptance
  unfolding accept_new
  accept_once = do
    x ← load_context result.analysis_job_id
    validate_result x result
    accept_known x (outcome_for x.job.analysis_outcomes result.analysis_type)
