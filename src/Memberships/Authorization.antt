-- ===== src/Memberships/Authorization.antt =====
-- core/memberships/authorization.py: what a member may do in a risk workspace.
pub mod Allowed
use ip_risk_agent_v.Base.{
  Bool, true, false, ◌&&◌, ◌||◌, not, is_some, if◌then◌else◌, Option, none, some, Text, text_eq,
  same_text, Outcome, ok, raised, ◌>>=◌, Error, require_non_empty, raise_if, denied,
}
use ip_risk_agent_v.Memberships.{
  Membership, MembershipRole, Permission, permissions_for, is_active, is_owner,
}

pub data VwsAction : Type 0 where
  vws_view risk_view risk_review source_mount mount_status_view mount_rename : VwsAction
  mount_source_operation mount_reconnect mount_scope_manage mount_disable : VwsAction
  mount_remove vws_security_manage member_manage audit_view audit_export : VwsAction
  workspace_delete ownership_transfer : VwsAction

pub data AuthorizationReason : Type 0 where
  allowed not_member membership_inactive permission_denied mount_required : AuthorizationReason
  mount_workspace_mismatch mount_ownership_required : AuthorizationReason
  owner_administration_required provider_authority_mismatch : AuthorizationReason

pub record AuthorizationDecision : Type 0 where
  pub allowed : Bool
  pub reason : AuthorizationReason
  pub provider_authority_required : Bool

-- The fields of a `WorkspaceMount` that an authorization reads.
pub record MountOwnership : Type 0 where
  pub risk_workspace_id : Text
  pub mounted_by_user_id : Text

-- `_ACTION_PERMISSIONS`
abbrev pub action_permission : VwsAction → Permission
action_permission VwsAction.vws_view = Permission.vws_view
action_permission VwsAction.risk_view = Permission.risk_view
action_permission VwsAction.risk_review = Permission.risk_review
action_permission VwsAction.source_mount = Permission.source_mount
action_permission VwsAction.mount_status_view = Permission.vws_view
action_permission VwsAction.mount_rename = Permission.own_source_manage
action_permission VwsAction.mount_source_operation = Permission.own_source_manage
action_permission VwsAction.mount_reconnect = Permission.own_source_manage
action_permission VwsAction.mount_scope_manage = Permission.own_source_manage
action_permission VwsAction.mount_disable = Permission.vws_security_manage
action_permission VwsAction.mount_remove = Permission.vws_security_manage
action_permission VwsAction.vws_security_manage = Permission.vws_security_manage
action_permission VwsAction.member_manage = Permission.member_manage
action_permission VwsAction.audit_view = Permission.audit_view
action_permission VwsAction.audit_export = Permission.audit_export
action_permission VwsAction.workspace_delete = Permission.workspace_delete
action_permission VwsAction.ownership_transfer = Permission.ownership_transfer

-- `action in _OWN_MOUNT_ACTIONS`, and the like for the other sets.
abbrev pub is_own_mount_action : VwsAction → Bool
is_own_mount_action VwsAction.mount_rename = true
is_own_mount_action VwsAction.mount_source_operation = true
is_own_mount_action VwsAction.mount_reconnect = true
is_own_mount_action VwsAction.mount_scope_manage = true
is_own_mount_action _ = false

abbrev pub is_owner_admin_action : VwsAction → Bool
is_owner_admin_action VwsAction.mount_disable = true
is_owner_admin_action VwsAction.mount_remove = true
is_owner_admin_action _ = false

abbrev pub is_provider_authority_action : VwsAction → Bool
is_provider_authority_action VwsAction.source_mount = true
is_provider_authority_action VwsAction.mount_source_operation = true
is_provider_authority_action VwsAction.mount_reconnect = true
is_provider_authority_action VwsAction.mount_scope_manage = true
is_provider_authority_action _ = false

abbrev is_mount_status_view : VwsAction → Bool
is_mount_status_view VwsAction.mount_status_view = true
is_mount_status_view _ = false

abbrev deny : AuthorizationReason → AuthorizationDecision
deny reason = record { allowed = false; reason = reason; provider_authority_required = false }

abbrev decide_provider : Text → VwsAction → Option Text → AuthorizationDecision
decide_provider actor action credential_owner =
    if is_provider_authority_action action
      && is_some credential_owner
      && not (same_text credential_owner (some actor))
    then record {
      allowed = false;
      reason = AuthorizationReason.provider_authority_mismatch;
      provider_authority_required = true;
    }
    else record {
      allowed = true;
      reason = AuthorizationReason.allowed;
      provider_authority_required = is_provider_authority_action action;
    }

abbrev decide_mount :
    Text → Text → VwsAction → Option MountOwnership → Option Text → AuthorizationDecision
decide_mount actor workspace action (some mount) credential_owner =
    if (is_own_mount_action action || is_owner_admin_action action || is_mount_status_view action)
      && not (text_eq mount.risk_workspace_id workspace)
    then deny AuthorizationReason.mount_workspace_mismatch
    else if is_own_mount_action action && not (text_eq mount.mounted_by_user_id actor)
    then deny AuthorizationReason.mount_ownership_required
    else decide_provider actor action credential_owner
decide_mount actor workspace action none credential_owner =
    if is_own_mount_action action || is_owner_admin_action action || is_mount_status_view action
    then deny AuthorizationReason.mount_required
    else decide_provider actor action credential_owner

-- The decision for an actor and a workspace that were stripped.
unfoldable pub decide_member :
    Text
    → Text
    → Option Membership
    → VwsAction
    → Option MountOwnership
    → Option Text
    → AuthorizationDecision
decide_member actor workspace none action mount credential_owner =
    deny AuthorizationReason.not_member
decide_member actor workspace (some membership) action mount credential_owner =
    if not (text_eq membership.user_id actor)
      || not (text_eq membership.risk_workspace_id workspace)
    then deny AuthorizationReason.not_member
    else if not (is_active membership.status)
    then deny AuthorizationReason.membership_inactive
    else if not (permissions_for membership.role (action_permission action))
    then deny AuthorizationReason.permission_denied
    else if is_owner_admin_action action && not (is_owner membership.role)
    then deny AuthorizationReason.owner_administration_required
    else decide_mount actor workspace action mount credential_owner

unfoldable pub authorize_vws_action :
    Text
    → Text
    → Option Membership
    → VwsAction
    → Option MountOwnership
    → Option Text
    → Outcome Error AuthorizationDecision
unfolding decide_member
authorize_vws_action actor_user_id risk_workspace_id membership action mount credential_owner = do
  actor ← require_non_empty actor_user_id "actor_user_id"
  workspace ← require_non_empty risk_workspace_id "risk_workspace_id"
  ok (decide_member actor workspace membership action mount credential_owner)

unfoldable pub require_authorized : AuthorizationDecision → Outcome Error (Unit {0})
require_authorized decision = raise_if (not decision.allowed) denied
