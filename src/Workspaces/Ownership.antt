-- ===== src/Workspaces/Ownership.antt =====
-- core/workspaces/services.py: the plans that create a workspace with its owner, hand it over, and
-- mark it for deletion. The id of a membership, a digest, is an argument.
pub mod Changes
pub mod Deletion
use ip_risk_agent_v.Base.{
  Bool, true, false, not, ◌||◌, Option, none, some, List, [], ◌∷◌, Text, codes, text_eq, Datetime,
  Instant, normalize_utc, Outcome, ok, raised, ◌>>=◌, ◌>>◌, raise_if, Error, invariant,
}
use ip_risk_agent_v.Memberships.{Membership, MembershipRole, MembershipStatus, is_active, is_owner}
use ip_risk_agent_v.Memberships
use ip_risk_agent_v.Memberships.Authorization.{
  VwsAction, AuthorizationDecision, authorize_vws_action, require_authorized,
}
use ip_risk_agent_v.Audit.{AuditEvent, AuditEventType}
use ip_risk_agent_v.Audit
use ip_risk_agent_v.Risk.Events.{ActorType, SafeValue}
use ip_risk_agent_v.Workspaces.Models.{RiskWorkspace, RiskWorkspaceStatus}
use ip_risk_agent_v.Workspaces.Models

pub record WorkspaceCreationPlan : Type 0 where
  pub workspace : RiskWorkspace
  pub owner_membership : Membership
  pub audit_event : AuditEvent

pub record OwnershipTransferPlan : Type 0 where
  pub workspace : RiskWorkspace
  pub previous_owner_membership : Membership
  pub new_owner_membership : Membership
  pub audit_event : AuditEvent

pub record WorkspaceDeletionPlan : Type 0 where
  pub workspace : RiskWorkspace
  pub audit_event : AuditEvent

abbrev pub first_workspace :
    Text → Text → Text → Text → Text → Instant → Option Text → RiskWorkspace
first_workspace workspace_id owner_user_id name security_policy_version retention_policy_version
      occurred_at description =
    record {
      id = workspace_id;
      name = name;
      owner_user_id = owner_user_id;
      security_policy_version = security_policy_version;
      retention_policy_version = retention_policy_version;
      created_at = occurred_at;
      updated_at = occurred_at;
      description = description;
      status = RiskWorkspaceStatus.active;
      global_ignore_text = [];
      license_profile = none;
    }

abbrev pub first_membership : Text → Text → Text → Instant → Membership
first_membership membership_id workspace_id owner_user_id occurred_at = record {
  id = membership_id;
  risk_workspace_id = workspace_id;
  user_id = owner_user_id;
  role = MembershipRole.owner;
  status = MembershipStatus.active;
  invited_by = owner_user_id;
  created_at = occurred_at;
  updated_at = occurred_at;
}

unfoldable pub plan_workspace_creation :
    Text
    → Text
    → Text
    → Text
    → Text
    → Text
    → Datetime
    → Text
    → Option Text
    → Outcome Error WorkspaceCreationPlan
plan_workspace_creation membership_id workspace_id owner_user_id name security_policy_version
      retention_policy_version clock audit_event_id description =
    do
      occurred_at ← normalize_utc clock "workspace_creation.occurred_at"
      workspace ← Models.post_init (
          first_workspace workspace_id owner_user_id name security_policy_version
            retention_policy_version occurred_at description)
      owner_membership ←
          Memberships.post_init
            (first_membership membership_id workspace.id owner_user_id occurred_at)
      audit_event ← Audit.post_init record {
        id = audit_event_id;
        risk_workspace_id = workspace.id;
        event_type = AuditEventType.workspace_created;
        actor_type = ActorType.user;
        actor_user_id = some owner_user_id;
        occurred_at = occurred_at;
        metadata_safe = (codes "workspace_name", SafeValue.text workspace.name) ∷ [];
      }
      ok record {
        workspace = workspace;
        owner_membership = owner_membership;
        audit_event = audit_event;
      }

abbrev pub is_source_manager : MembershipRole → Bool
is_source_manager MembershipRole.source_manager = true
is_source_manager _ = false

abbrev is_deleted : RiskWorkspaceStatus → Bool
is_deleted RiskWorkspaceStatus.deleted = true
is_deleted _ = false

-- The checks that follow the authorization of a transfer, in their order.
unfoldable pub check_transfer :
    Text → RiskWorkspace → Membership → Membership → MembershipRole → Outcome Error (Unit {0})
check_transfer actor_user_id workspace previous_owner new_owner previous_owner_new_role = do
  raise_if
      (not (text_eq workspace.owner_user_id actor_user_id) || not (is_owner previous_owner.role))
      (invariant "only the canonical current owner may transfer ownership")
  raise_if (text_eq new_owner.user_id actor_user_id)
      (invariant "ownership target must be another user")
  raise_if (not (is_active new_owner.status))
      (invariant "ownership target must be an active member")
  raise_if (not (is_source_manager previous_owner_new_role))
      (invariant "previous owner must become SOURCE_MANAGER in MVP")

-- The members' `.value`.
abbrev pub role_value : MembershipRole → Text
role_value MembershipRole.owner = codes "OWNER"
role_value MembershipRole.source_manager = codes "SOURCE_MANAGER"
role_value MembershipRole.risk_reviewer = codes "RISK_REVIEWER"
role_value MembershipRole.viewer = codes "VIEWER"

abbrev transfer_event :
    Text → RiskWorkspace → Membership → MembershipRole → Instant → Text → AuditEvent
transfer_event actor_user_id workspace new_owner previous_owner_new_role occurred_at
      audit_event_id =
    record {
      id = audit_event_id;
      risk_workspace_id = workspace.id;
      event_type = AuditEventType.ownership_transferred;
      actor_type = ActorType.user;
      actor_user_id = some actor_user_id;
      occurred_at = occurred_at;
      metadata_safe =
          (codes "previous_owner_user_id", SafeValue.text actor_user_id)
          ∷ (codes "new_owner_user_id", SafeValue.text new_owner.user_id)
          ∷ (codes "previous_owner_new_role", SafeValue.text (role_value previous_owner_new_role))
          ∷ [];
    }

-- What a transfer changes, once it is checked.
unfoldable pub transfer :
    Text
    → RiskWorkspace
    → Membership
    → Membership
    → MembershipRole
    → Datetime
    → Text
    → Outcome Error OwnershipTransferPlan
transfer actor_user_id workspace previous_owner new_owner previous_owner_new_role clock
      audit_event_id =
    do
      occurred_at ← normalize_utc clock "ownership_transfer.occurred_at"
      updated_workspace ←
          Models.post_init
            record workspace { owner_user_id = new_owner.user_id; updated_at = occurred_at }
      updated_previous_owner ←
          Memberships.post_init
            record previous_owner { role = previous_owner_new_role; updated_at = occurred_at }
      updated_new_owner ←
          Memberships.post_init
            record new_owner { role = MembershipRole.owner; updated_at = occurred_at }
      audit_event ← Audit.post_init (
          transfer_event actor_user_id workspace new_owner previous_owner_new_role occurred_at
            audit_event_id)
      ok record {
        workspace = updated_workspace;
        previous_owner_membership = updated_previous_owner;
        new_owner_membership = updated_new_owner;
        audit_event = audit_event;
      }

unfoldable pub plan_ownership_transfer :
    Text
    → RiskWorkspace
    → Membership
    → Membership
    → MembershipRole
    → Datetime
    → Text
    → Outcome Error OwnershipTransferPlan
plan_ownership_transfer actor_user_id workspace previous_owner new_owner previous_owner_new_role
      clock audit_event_id =
    do
      raise_if (not (text_eq previous_owner.risk_workspace_id new_owner.risk_workspace_id))
          (invariant "memberships must belong to the same VWS")
      raise_if (not (text_eq workspace.id previous_owner.risk_workspace_id))
          (invariant "workspace and memberships must belong to the same VWS")
      decision ←
          authorize_vws_action actor_user_id workspace.id (some previous_owner)
            VwsAction.ownership_transfer none none
      require_authorized decision
      check_transfer actor_user_id workspace previous_owner new_owner previous_owner_new_role
      transfer actor_user_id workspace previous_owner new_owner previous_owner_new_role clock
          audit_event_id

unfoldable pub plan_workspace_deletion :
    Text → Membership → RiskWorkspace → Datetime → Text → Outcome Error WorkspaceDeletionPlan
plan_workspace_deletion actor_user_id actor_membership workspace clock audit_event_id = do
  raise_if (not (text_eq workspace.id actor_membership.risk_workspace_id))
      (invariant "workspace and membership must belong to the same VWS")
  decision ←
      authorize_vws_action actor_user_id workspace.id (some actor_membership)
        VwsAction.workspace_delete none none
  require_authorized decision
  raise_if (not (text_eq workspace.owner_user_id actor_user_id))
      (invariant "only the canonical owner may delete a workspace")
  raise_if (is_deleted workspace.status) (invariant "a deleted workspace cannot be deleted again")
  occurred_at ← normalize_utc clock "workspace_deletion.occurred_at"
  updated ←
      Models.post_init
        record workspace { status = RiskWorkspaceStatus.deleting; updated_at = occurred_at }
  audit_event ← Audit.post_init record {
    id = audit_event_id;
    risk_workspace_id = workspace.id;
    event_type = AuditEventType.workspace_deletion_requested;
    actor_type = ActorType.user;
    actor_user_id = some actor_user_id;
    occurred_at = occurred_at;
    metadata_safe = [];
  }
  ok record { workspace = updated; audit_event = audit_event }
