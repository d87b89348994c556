-- ===== src/Workspaces/Service.antt =====
-- application/workspace_admin/service.py: the operations of `WorkspaceAdministrationService`, each in one
-- unit of work. The ids that a call draws, and whether there is a user, are arguments; the erasers that
-- run after a request for deletion are left out.
pub mod Upkeep
pub mod Owned
pub mod Lasting
pub mod Writes
pub mod Handover
pub mod Changes
pub mod Joining
pub mod Founding
pub mod Frame
pub mod Tables
pub mod Steps
pub mod OwnerSteps
pub mod Runs
pub mod Leaving
pub mod Authority
pub mod Callers
pub mod Guests
pub mod Permits
mod Tests
use ip_risk_agent_v.Base.{
  ℕ, ◌+◌, ◌==◌, max, Bool, true, false, not, ◌&&◌, if◌then◌else◌, Option, none, some, List, [], ◌∷◌,
  Text, codes, text_eq, same_text, Instant, Datetime, normalize_utc, Outcome, ok, raised, Error,
  not_found, invariant,
}
use ip_risk_agent_v.Exec.{Exec, pure, lift, gets, refuse_if, ◌>>=◌, ◌>>◌}
use ip_risk_agent_v.Workspaces.LicenseProfile.{Sha256}
use ip_risk_agent_v.Identity.{membership_id_for}
use ip_risk_agent_v.Memberships.{Membership, MembershipRole}
use ip_risk_agent_v.Memberships.Invitations.{MembershipInvitation}
use ip_risk_agent_v.Memberships.Authorization.{VwsAction, authorize_vws_action, require_authorized}
use ip_risk_agent_v.Mounts.Models.{WorkspaceMount}
use ip_risk_agent_v.Mounts.Plans.{
  MountMutationPlan, MountRemovalPlan, plan_mount_rename, plan_mount_disable, plan_mount_removal,
}
use ip_risk_agent_v.Notifications.{Notification}
use ip_risk_agent_v.Audit.{AuditEventType}
use ip_risk_agent_v.Risk.Events.{SafeValue}
use ip_risk_agent_v.Risk.Exclusion.Loops.{exclude_mount_risks}
use ip_risk_agent_v.Workspaces.Models.{RiskWorkspace}
use ip_risk_agent_v.Workspaces.Models
use ip_risk_agent_v.Workspaces.Ownership.{
  WorkspaceCreationPlan, OwnershipTransferPlan, WorkspaceDeletionPlan, plan_workspace_creation,
  plan_ownership_transfer, plan_workspace_deletion,
}
use ip_risk_agent_v.Workspaces.Invitations.{
  InvitationPlan, InvitationAcceptancePlan, InvitationRevocationPlan, plan_membership_invitation,
  plan_invitation_acceptance, plan_invitation_revocation, user_event,
}
use ip_risk_agent_v.Workspaces.Members.{
  RoleChangePlan, MemberRemovalPlan, plan_role_change, plan_member_removal,
}
use ip_risk_agent_v.Repositories.{ControlState}
use ip_risk_agent_v.Repositories.Workspaces as WorkspaceTable
use ip_risk_agent_v.Repositories.Memberships as MembershipTable
use ip_risk_agent_v.Repositories.Mounts as MountTable
use ip_risk_agent_v.Repositories.Notifications as NotificationTable
use ip_risk_agent_v.Repositories.Audit as AuditTable

-- `_require_workspace`
abbrev pub found_or_missing {ℓ} : {A : Type ℓ} → Option A → Outcome Error A
found_or_missing none = raised not_found
found_or_missing (some a) = ok a

unfoldable pub require_workspace : Text → Exec ControlState RiskWorkspace
require_workspace workspace_id = do
  found ← gets (λ s. WorkspaceTable.get s workspace_id)
  lift (found_or_missing found)

-- `if plan.notification is not None`
abbrev pub notify : Option Notification → Exec ControlState (Unit {0})
notify none = pure tt
notify (some n) = NotificationTable.add n

module _ (casefold : Text → Text) (sha : Sha256) (has_user : Text → Bool) where
  -- `_require_user`
  abbrev pub require_user : Text → Exec ControlState (Unit {0})
  require_user user_id = refuse_if (not (has_user user_id)) not_found

  -- `_require_membership`
  unfoldable pub require_membership : Text → Text → Exec ControlState Membership
  require_membership workspace_id user_id = do
    found ← MembershipTable.get sha workspace_id user_id
    lift (found_or_missing found)

  -- The mounts of a plan, one after the other.
  unfoldable pub save_mounts : List WorkspaceMount → Exec ControlState (Unit {0})
  save_mounts [] = pure tt
  save_mounts (m ∷ ms) = do MountTable.save casefold m; save_mounts ms

  unfoldable pub create_workspace :
      Text
      → Text
      → Text
      → Text
      → Text
      → Datetime
      → Text
      → Option Text
      → Exec ControlState WorkspaceCreationPlan
  create_workspace workspace_id owner_user_id name security_policy_version retention_policy_version
        clock audit_event_id description =
      do
        membership_id ← lift (membership_id_for sha workspace_id owner_user_id)
        plan ← lift (
            plan_workspace_creation membership_id workspace_id owner_user_id name
              security_policy_version retention_policy_version clock audit_event_id description)
        require_user owner_user_id
        WorkspaceTable.add plan.workspace
        MembershipTable.add plan.owner_membership
        AuditTable.append plan.audit_event
        pure plan

  unfoldable pub invite_member :
      Text
      → Text
      → Text
      → MembershipRole
      → Option Instant
      → Datetime
      → Text
      → Exec ControlState InvitationPlan
  invite_member risk_workspace_id actor_user_id email role expires_at clock audit_event_id = do
    actor ← require_membership risk_workspace_id actor_user_id
    plan ← lift (
        plan_membership_invitation casefold sha actor_user_id actor email role clock audit_event_id
          expires_at)
    MembershipTable.add_invitation plan.invitation
    AuditTable.append plan.audit_event
    pure plan

  -- `memberships.get_invitation`, with the error of the service.
  unfoldable pub require_invitation : Text → Exec ControlState MembershipInvitation
  require_invitation invitation_id = do
    found ← gets (λ s. MembershipTable.get_invitation s invitation_id)
    lift (found_or_missing found)

  unfoldable pub accept_invitation :
      Text → Text → Text → Datetime → Text → Exec ControlState InvitationAcceptancePlan
  accept_invitation invitation_id authenticated_user_id verified_email clock audit_event_id = do
    require_user authenticated_user_id
    invitation ← require_invitation invitation_id
    plan ← lift (
        plan_invitation_acceptance casefold sha authenticated_user_id verified_email invitation
          clock audit_event_id)
    MembershipTable.save_invitation plan.invitation
    MembershipTable.add plan.membership
    AuditTable.append plan.audit_event
    pure plan

  unfoldable pub revoke_invitation :
      Text → Text → Text → Datetime → Text → Exec ControlState InvitationRevocationPlan
  revoke_invitation risk_workspace_id actor_user_id invitation_id clock audit_event_id = do
    actor ← require_membership risk_workspace_id actor_user_id
    invitation ← require_invitation invitation_id
    plan ← lift (
        plan_invitation_revocation casefold sha actor_user_id actor invitation clock audit_event_id)
    MembershipTable.save_invitation plan.invitation
    AuditTable.append plan.audit_event
    pure plan

  unfoldable pub change_member_role :
      Text
      → Text
      → Text
      → MembershipRole
      → Datetime
      → Text
      → Text
      → Exec ControlState RoleChangePlan
  change_member_role risk_workspace_id actor_user_id target_user_id new_role clock audit_event_id
        notification_id =
      do
        actor ← require_membership risk_workspace_id actor_user_id
        target ← require_membership risk_workspace_id target_user_id
        workspace ← require_workspace risk_workspace_id
        candidate_mounts ←
            gets (λ s. MountTable.list_by_custodian s risk_workspace_id target_user_id)
        plan ← lift (
            plan_role_change actor_user_id actor target new_role clock audit_event_id
              candidate_mounts (some workspace.owner_user_id) (some notification_id))
        MembershipTable.save plan.membership
        save_mounts plan.mounts
        notify plan.notification
        AuditTable.append plan.audit_event
        pure plan

  unfoldable pub transfer_ownership :
      Text → Text → Text → Datetime → Text → Exec ControlState OwnershipTransferPlan
  transfer_ownership risk_workspace_id actor_user_id new_owner_user_id clock audit_event_id = do
    workspace ← require_workspace risk_workspace_id
    previous_owner ← require_membership risk_workspace_id actor_user_id
    new_owner ← require_membership risk_workspace_id new_owner_user_id
    plan ← lift (
        plan_ownership_transfer actor_user_id workspace previous_owner new_owner
          MembershipRole.source_manager clock audit_event_id)
    WorkspaceTable.save plan.workspace
    MembershipTable.save plan.previous_owner_membership
    MembershipTable.save plan.new_owner_membership
    AuditTable.append plan.audit_event
    pure plan

  unfoldable pub remove_member :
      Text → Text → Text → Datetime → Text → Text → Exec ControlState MemberRemovalPlan
  remove_member risk_workspace_id actor_user_id target_user_id clock audit_event_id
        notification_id =
      do
        actor ← require_membership risk_workspace_id actor_user_id
        target ← require_membership risk_workspace_id target_user_id
        workspace ← require_workspace risk_workspace_id
        candidate_mounts ←
            gets (λ s. MountTable.list_by_custodian s risk_workspace_id target_user_id)
        plan ← lift (
            plan_member_removal actor_user_id actor target candidate_mounts workspace.owner_user_id
              clock audit_event_id (some notification_id))
        MembershipTable.save plan.membership
        save_mounts plan.mounts
        notify plan.notification
        AuditTable.append plan.audit_event
        pure plan

  -- `request_workspace_deletion`, up to its commit.
  unfoldable pub request_workspace_deletion :
      Text → Text → Datetime → Text → Exec ControlState WorkspaceDeletionPlan
  request_workspace_deletion risk_workspace_id actor_user_id clock audit_event_id = do
    actor ← require_membership risk_workspace_id actor_user_id
    workspace ← require_workspace risk_workspace_id
    plan ← lift (plan_workspace_deletion actor_user_id actor workspace clock audit_event_id)
    WorkspaceTable.save plan.workspace
    AuditTable.append plan.audit_event
    pure plan
