-- ===== src/Repositories.antt =====
-- application/repositories/in_memory.py: what a unit of work holds. Left out are the tables of users,
-- of connections and workspaces of a source, and of accesses to it.
pub mod Pairs
pub mod Risks
pub mod AnalysisJobs
pub mod ChangeEvents
pub mod Artifacts
pub mod Workspaces
pub mod Memberships
pub mod Mounts
pub mod Audit
pub mod Notifications
pub mod UnitOfWork
mod Tests
use ip_risk_agent_v.Base.{List, [], Text, Dict}
use ip_risk_agent_v.Memberships.{Membership}
use ip_risk_agent_v.Memberships.Invitations.{MembershipInvitation}
use ip_risk_agent_v.Mounts.Models.{WorkspaceMount}
use ip_risk_agent_v.Risk.{Risk}
use ip_risk_agent_v.Risk.Events.{RiskEvent}
use ip_risk_agent_v.Risk.Evidence.{RiskEvidence}
use ip_risk_agent_v.Execution.ChangeEvents.{ChangeEvent}
use ip_risk_agent_v.Execution.AnalysisJobs.{AnalysisJob}
use ip_risk_agent_v.Artifacts.{Artifact, ArtifactState}
use ip_risk_agent_v.Notifications.{Notification}
use ip_risk_agent_v.Audit.{AuditEvent}
use ip_risk_agent_v.Workspaces.Models.{RiskWorkspace}

-- A value of the table of memberships.
pub data MembershipRecord : Type 0 where
  member : Membership → MembershipRecord
  invitation : MembershipInvitation → MembershipRecord

-- A table whose keys are pairs of texts.
abbrev pub PairDict : Type 0 → Type 0
PairDict V = List ((Text × Text) × V)

pub record ControlState : Type 0 where
  pub workspaces : Dict RiskWorkspace
  pub memberships : Dict MembershipRecord
  pub mounts : Dict WorkspaceMount
  pub mounts_by_alias : PairDict Text
  pub mounts_by_source_workspace : Dict Text
  pub artifacts : Dict Artifact
  pub artifacts_by_source_identity : PairDict Text
  pub artifact_states : Dict ArtifactState
  pub change_events : Dict ChangeEvent
  pub change_events_by_fingerprint : Dict Text
  pub analysis_jobs : Dict AnalysisJob
  pub risks : Dict Risk
  pub risks_by_key : Dict Text
  pub risk_evidence : Dict RiskEvidence
  pub risk_events : Dict RiskEvent
  pub audit_events : Dict AuditEvent
  pub notifications : Dict Notification

-- `_ControlState()`
abbrev pub empty_state : ControlState
empty_state = record {
  workspaces = [];
  memberships = [];
  mounts = [];
  mounts_by_alias = [];
  mounts_by_source_workspace = [];
  artifacts = [];
  artifacts_by_source_identity = [];
  artifact_states = [];
  change_events = [];
  change_events_by_fingerprint = [];
  analysis_jobs = [];
  risks = [];
  risks_by_key = [];
  risk_evidence = [];
  risk_events = [];
  audit_events = [];
  notifications = [];
}
