-- ===== src/Reconcile/Recording.antt =====
-- application/risk_reconcile/service.py: how a candidate opens a risk or is seen again.
use ip_risk_agent_v.Base.{
  ◌+◌, max, Bool, true, false, if◌then◌else◌, Option, none, some, Text, Instant, is_some, intake,
}
use ip_risk_agent_v.Exec.{Exec, pure, lift, gets, refuse_if, ◌>>=◌, ◌>>◌}
use ip_risk_agent_v.Contracts.{ReviewPriority}
use ip_risk_agent_v.Identity.{risk_id_for}
use ip_risk_agent_v.Risk.{Risk, RiskLifecycleState, ReviewDisposition, post_init}
use ip_risk_agent_v.Risk.Transitions.{decide_lifecycle, should_revive}
use ip_risk_agent_v.Repositories.{ControlState}
use ip_risk_agent_v.Repositories.Risks.{get_by_key, add, save}
use ip_risk_agent_v.Reconcile.{Library, AnalysisResult}
use ip_risk_agent_v.Reconcile.Projections.{CandidateProjection}

-- What the loop knows of a risk after it was written.
pub record Recorded : Type 0 where
  pub risk : Risk
  pub risk_time : Instant
  pub previous_state : Option RiskLifecycleState
  pub previous_priority : Option ReviewPriority
  pub previous_job_id : Option Text

-- The constructor call for a key that no risk has.
abbrev pub new_risk : AnalysisResult → Text → Instant → CandidateProjection → Text → Risk
new_risk result risk_workspace_id occurred_at p id = record {
  id = id;
  risk_workspace_id = risk_workspace_id;
  artifact_id = result.artifact_id;
  analysis_type = result.analysis_type;
  risk_key = p.risk_key;
  lifecycle_state = RiskLifecycleState.new;
  review_disposition = ReviewDisposition.unreviewed;
  review_priority = p.priority;
  summary = p.summary;
  first_seen_at = occurred_at;
  last_seen_at = occurred_at;
  latest_analysis_job_id = result.analysis_job_id;
  updated_at = occurred_at;
  resolved_at = none;
  latest_evidence_revision = some result.revision;
  review_version = 0;
  explanation_safe = none;
  recommendation_safe = none;
}

unfoldable pub record_new :
    Library → AnalysisResult → Text → Instant → CandidateProjection → Exec ControlState Recorded
record_new lib result risk_workspace_id occurred_at p = do
  conflicting ← gets (λ s. get_by_key s p.risk_key)
  refuse_if (is_some conflicting) (intake "stable risk key belongs to a different canonical scope")
  id ← lift (risk_id_for lib.sha p.risk_key)
  risk ← lift (post_init (new_risk result risk_workspace_id occurred_at p id))
  add risk
  pure record {
    risk = risk;
    risk_time = occurred_at;
    previous_state = none;
    previous_priority = none;
    previous_job_id = none;
  }

abbrev or_instant : Option Instant → Instant → Instant
or_instant none t = t
or_instant (some s) t = s

abbrev pub seen_time : Instant → Risk → Instant
seen_time occurred_at risk =
    max (max (max occurred_at risk.last_seen_at) risk.updated_at)
      (or_instant risk.resolved_at occurred_at)

abbrev or_state : Option RiskLifecycleState → RiskLifecycleState → RiskLifecycleState
or_state none state = state
or_state (some next) state = next

-- An excluded risk starts again as if it had not been seen; any other one follows the lifecycle, whose
-- next state is there where a state was.
abbrev pub seen_state : AnalysisResult → Risk → Bool → RiskLifecycleState
seen_state result risk true = RiskLifecycleState.new
seen_state result risk false =
    or_state
      (decide_lifecycle (some risk.lifecycle_state) true result.status result.coverage).next_state
      risk.lifecycle_state

-- `replace(risk, ...)` for a risk that was seen again.
abbrev pub seen_again : AnalysisResult → Instant → CandidateProjection → Risk → Bool → Risk
seen_again result risk_time p risk revived = record risk {
  lifecycle_state = seen_state result risk revived;
  review_disposition = if revived then ReviewDisposition.unreviewed else risk.review_disposition;
  review_version = if revived then risk.review_version + 1 else risk.review_version;
  review_priority = p.priority;
  summary = p.summary;
  last_seen_at = risk_time;
  latest_analysis_job_id = result.analysis_job_id;
  latest_evidence_revision = some result.revision;
  resolved_at = none;
  updated_at = risk_time;
}

unfoldable pub record_again :
    AnalysisResult → Instant → CandidateProjection → Risk → Exec ControlState Recorded
record_again result occurred_at p risk = do
  next ← lift (
      post_init (
        seen_again result (seen_time occurred_at risk) p risk
          (should_revive risk.review_disposition)))
  save next
  pure record {
    risk = next;
    risk_time = seen_time occurred_at risk;
    previous_state = some risk.lifecycle_state;
    previous_priority = some risk.review_priority;
    previous_job_id = some risk.latest_analysis_job_id;
  }

unfoldable pub record_risk :
    Library
    → AnalysisResult
    → Text
    → Instant
    → CandidateProjection
    → Option Risk
    → Exec ControlState Recorded
unfolding record_new record_again
record_risk lib result risk_workspace_id occurred_at p none =
    record_new lib result risk_workspace_id occurred_at p
record_risk lib result risk_workspace_id occurred_at p (some risk) =
    record_again result occurred_at p risk

-- `replace(risk, ...)` for a risk that is closed.
abbrev pub closed_risk : AnalysisResult → Instant → Risk → Risk
closed_risk result risk_time risk = record risk {
  lifecycle_state = RiskLifecycleState.resolved;
  resolved_at = some risk_time;
  latest_analysis_job_id = result.analysis_job_id;
  updated_at = risk_time;
}
