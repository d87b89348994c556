-- ===== src/Risk.antt =====
-- The canonical risk projection: core/risk/models.py and core/risk/transitions.py.
pub mod Transitions
pub mod Validity
pub mod Lifecycle
pub mod Events
pub mod Metadata
pub mod Evidence
pub mod Exclusion
pub mod Attribution
pub mod Causes
mod Tests
use ip_risk_agent_v.Base.{
  Bool, true, false, ◌&&◌, not, ltb, is_some, Option, none, some, List, Text, Instant, Outcome, ok,
  raised, ◌>>=◌, ◌>>◌, raise_if, Error, invariant, require_non_empty, require_chronological, ℕ,
}
use ip_risk_agent_v.Contracts.{AnalysisType, ReviewPriority}

pub data RiskLifecycleState : Type 0 where
  new existing resolved : RiskLifecycleState

pub data ReviewDisposition : Type 0 where
  unreviewed monitoring accepted_risk excluded : ReviewDisposition

pub data RiskEventType : Type 0 where
  detected confirmed resolved reopened evidence_updated priority_changed : RiskEventType
  review_disposition_changed : RiskEventType

-- `self.lifecycle_state is RiskLifecycleState.RESOLVED`, and the like for a disposition.
abbrev pub is_resolved : RiskLifecycleState → Bool
is_resolved RiskLifecycleState.resolved = true
is_resolved _ = false

abbrev pub is_excluded : ReviewDisposition → Bool
is_excluded ReviewDisposition.excluded = true
is_excluded _ = false

pub record Risk : Type 0 where
  pub id : Text
  pub risk_workspace_id : Text
  pub artifact_id : Text
  pub analysis_type : AnalysisType
  pub risk_key : Text
  pub lifecycle_state : RiskLifecycleState
  pub review_disposition : ReviewDisposition
  pub review_priority : ReviewPriority
  pub summary : Text
  pub first_seen_at : Instant
  pub last_seen_at : Instant
  pub latest_analysis_job_id : Text
  pub updated_at : Instant
  pub resolved_at : Option Instant
  pub latest_evidence_revision : Option Text
  pub review_version : ℕ
  pub explanation_safe : Option Text
  pub recommendation_safe : Option Text

-- The checks on `resolved_at` at the end of `__post_init__`.
unfoldable pub check_resolution : Risk → RiskLifecycleState → Option Instant → Outcome Error Risk
check_resolution risk RiskLifecycleState.resolved none =
    raised (invariant "risk.resolved_at is required for RESOLVED risks")
check_resolution risk RiskLifecycleState.resolved (some resolved_at) = do
  require_chronological risk.first_seen_at resolved_at "risk.first_seen_at" "risk.resolved_at"
  require_chronological risk.last_seen_at resolved_at "risk.last_seen_at" "risk.resolved_at"
  require_chronological resolved_at risk.updated_at "risk.resolved_at" "risk.updated_at"
  ok risk
check_resolution risk _ (some resolved_at) =
    raised (invariant "active risks cannot have risk.resolved_at")
check_resolution risk _ none = ok risk

-- `Risk.__post_init__`, on timestamps that are instants already: what the constructor and
-- `dataclasses.replace` return.
unfoldable pub post_init : Risk → Outcome Error Risk
unfolding check_resolution
post_init r = do
  id ← require_non_empty r.id "risk.id"
  risk_workspace_id ← require_non_empty r.risk_workspace_id "risk.risk_workspace_id"
  artifact_id ← require_non_empty r.artifact_id "risk.artifact_id"
  risk_key ← require_non_empty r.risk_key "risk.risk_key"
  summary ← require_non_empty r.summary "risk.summary"
  latest_analysis_job_id ← require_non_empty r.latest_analysis_job_id "risk.latest_analysis_job_id"
  require_chronological r.first_seen_at r.last_seen_at "risk.first_seen_at" "risk.last_seen_at"
  require_chronological r.first_seen_at r.updated_at "risk.first_seen_at" "risk.updated_at"
  let risk = record r {
    id = id;
    risk_workspace_id = risk_workspace_id;
    artifact_id = artifact_id;
    risk_key = risk_key;
    summary = summary;
    latest_analysis_job_id = latest_analysis_job_id;
  }
  check_resolution risk risk.lifecycle_state risk.resolved_at
