-- ===== src/Workspaces/Members.antt =====
-- core/workspaces/services.py: the plans that change the role of a member and remove a member, with
-- the mounts that then need another manager.
use ip_risk_agent_v.Base.{
  Bool, true, false, not, ◌&&◌, ◌||◌, if◌then◌else◌, any, map, Option, none, some, List, [], ◌∷◌,
  Text, codes, text_eq, Datetime, Instant, normalize_utc, require_non_empty, Outcome, ok, ◌>>=◌,
  ◌>>◌, raise_if, Error, invariant,
}
use ip_risk_agent_v.Memberships.{Membership, MembershipRole, MembershipStatus, is_active, is_owner}
use ip_risk_agent_v.Memberships
use ip_risk_agent_v.Mounts.Models.{WorkspaceMount, MountStatus, is_disabled, post_init}
use ip_risk_agent_v.Notifications.{Notification, NotificationType, NotificationStatus}
use ip_risk_agent_v.Notifications
use ip_risk_agent_v.Audit.{AuditEvent, AuditEventType}
use ip_risk_agent_v.Risk.Events.{SafeValue}
use ip_risk_agent_v.Workspaces.Ownership.{role_value, is_source_manager}
use ip_risk_agent_v.Workspaces.Invitations.{require_member_manager, user_event}

pub record RoleChangePlan : Type 0 where
  pub membership : Membership
  pub mounts : List WorkspaceMount
  pub notification : Option Notification
  pub audit_event : AuditEvent

pub record MemberRemovalPlan : Type 0 where
  pub membership : Membership
  pub mounts : List WorkspaceMount
  pub notification : Option Notification
  pub audit_event : AuditEvent

-- `_manager_action_mounts`
unfoldable pub manager_action_mounts :
    List WorkspaceMount → Text → Instant → Outcome Error (List WorkspaceMount)
manager_action_mounts [] custodian_user_id occurred_at = ok []
manager_action_mounts (m ∷ ms) custodian_user_id occurred_at =
    let rest = manager_action_mounts ms custodian_user_id occurred_at in
    let stopped = (do
      mount ←
          post_init
            record m { status = MountStatus.manager_action_required; updated_at = occurred_at }
      others ← rest
      ok (mount ∷ others)) in
    if text_eq m.mounted_by_user_id custodian_user_id && not (is_disabled m.status)
    then stopped
    else rest

abbrev or_empty : Option Text → Text
or_empty none = []
or_empty (some s) = s

-- `_manager_action_notification`
unfoldable pub manager_action_notification :
    Option Text
    → Option Text
    → Text
    → List WorkspaceMount
    → Text
    → Instant
    → Outcome Error Notification
manager_action_notification notification_id owner_user_id risk_workspace_id affected_mounts
      affected_user_id occurred_at =
    do
      id ← require_non_empty (or_empty notification_id) "manager_action.notification_id"
      user_id ← require_non_empty (or_empty owner_user_id) "manager_action.owner_user_id"
      Notifications.post_init record {
        id = id;
        user_id = user_id;
        risk_workspace_id = risk_workspace_id;
        notification_type = NotificationType.mount_manager_action_required;
        status = NotificationStatus.unread;
        created_at = occurred_at;
        read_at = none;
        metadata_safe =
            (codes "affected_user_id", SafeValue.text affected_user_id)
            ∷ (codes "mount_ids", SafeValue.texts (map (λ m. m.id) affected_mounts))
            ∷ [];
      }

-- The notification of the owner, if a mount is affected.
abbrev tell_owner :
    Option Text
    → Option Text
    → Membership
    → List WorkspaceMount
    → Instant
    → Outcome Error (Option Notification)
tell_owner notification_id owner_user_id target [] occurred_at = ok none
tell_owner notification_id owner_user_id target (m ∷ ms) occurred_at = do
  notification ←
      manager_action_notification notification_id owner_user_id target.risk_workspace_id (m ∷ ms)
        target.user_id occurred_at
  ok (some notification)

abbrev is_elsewhere : Membership → WorkspaceMount → Bool
is_elsewhere target mount = not (text_eq mount.risk_workspace_id target.risk_workspace_id)

abbrev same_role : MembershipRole → MembershipRole → Bool
same_role MembershipRole.owner MembershipRole.owner = true
same_role MembershipRole.source_manager MembershipRole.source_manager = true
same_role MembershipRole.risk_reviewer MembershipRole.risk_reviewer = true
same_role MembershipRole.viewer MembershipRole.viewer = true
same_role _ _ = false

abbrev is_removed : MembershipStatus → Bool
is_removed MembershipStatus.removed = true
is_removed _ = false

-- The checks of `plan_role_change`, before the clock is read.
unfoldable pub check_role_change :
    Text → Membership → Membership → MembershipRole → List WorkspaceMount → Outcome Error (Unit {0})
check_role_change actor_user_id actor_membership target new_role candidate_mounts = do
  raise_if (not (text_eq actor_membership.risk_workspace_id target.risk_workspace_id))
      (invariant "memberships must belong to the same VWS")
  require_member_manager actor_user_id actor_membership.risk_workspace_id actor_membership
  raise_if (is_owner target.role || is_owner new_role)
      (invariant "OWNER changes require ownership transfer")
  raise_if (not (is_active target.status)) (invariant "only active memberships may change role")
  raise_if (same_role target.role new_role) (invariant "membership already has the requested role")
  raise_if (any (is_elsewhere target) candidate_mounts)
      (invariant "candidate mounts must belong to the target VWS")

-- The mounts that lose their manager, of one who is no source manager any more.
abbrev mounts_left_by :
    Membership
    → MembershipRole
    → List WorkspaceMount
    → Instant
    → Outcome Error (List WorkspaceMount)
mounts_left_by target new_role candidate_mounts occurred_at =
    let stopped = manager_action_mounts candidate_mounts target.user_id occurred_at in
    if is_source_manager target.role && not (is_source_manager new_role) then stopped else ok []

unfoldable pub plan_role_change :
    Text
    → Membership
    → Membership
    → MembershipRole
    → Datetime
    → Text
    → List WorkspaceMount
    → Option Text
    → Option Text
    → Outcome Error RoleChangePlan
unfolding check_role_change
plan_role_change actor_user_id actor_membership target new_role clock audit_event_id
      candidate_mounts owner_user_id notification_id =
    do
      check_role_change actor_user_id actor_membership target new_role candidate_mounts
      occurred_at ← normalize_utc clock "role_change.occurred_at"
      updated ← Memberships.post_init record target { role = new_role; updated_at = occurred_at }
      affected_mounts ← mounts_left_by target new_role candidate_mounts occurred_at
      notification ← tell_owner notification_id owner_user_id target affected_mounts occurred_at
      audit_event ←
          user_event AuditEventType.member_role_changed target.risk_workspace_id actor_user_id
            occurred_at audit_event_id
            ((codes "target_user_id", SafeValue.text target.user_id)
              ∷ (codes "previous_role", SafeValue.text (role_value target.role))
              ∷ (codes "new_role", SafeValue.text (role_value new_role))
              ∷ (codes "affected_mount_ids", SafeValue.texts (map (λ m. m.id) affected_mounts))
              ∷ [])
      ok record {
        membership = updated;
        mounts = affected_mounts;
        notification = notification;
        audit_event = audit_event;
      }

-- The checks of `plan_member_removal`, before the clock is read.
unfoldable pub check_member_removal :
    Text → Membership → Membership → List WorkspaceMount → Text → Outcome Error (Unit {0})
check_member_removal actor_user_id actor_membership target candidate_mounts owner_user_id = do
  raise_if (not (text_eq actor_membership.risk_workspace_id target.risk_workspace_id))
      (invariant "memberships must belong to the same VWS")
  require_member_manager actor_user_id actor_membership.risk_workspace_id actor_membership
  raise_if (is_owner target.role || text_eq target.user_id owner_user_id)
      (invariant "workspace owner cannot be removed before ownership transfer")
  raise_if (is_removed target.status) (invariant "membership is already removed")
  raise_if (any (is_elsewhere target) candidate_mounts)
      (invariant "candidate mounts must belong to the target VWS")

unfoldable pub plan_member_removal :
    Text
    → Membership
    → Membership
    → List WorkspaceMount
    → Text
    → Datetime
    → Text
    → Option Text
    → Outcome Error MemberRemovalPlan
unfolding check_member_removal
plan_member_removal actor_user_id actor_membership target candidate_mounts owner_user_id clock
      audit_event_id notification_id =
    do
      check_member_removal actor_user_id actor_membership target candidate_mounts owner_user_id
      occurred_at ← normalize_utc clock "member_removal.occurred_at"
      updated_membership ←
          Memberships.post_init
            record target { status = MembershipStatus.removed; updated_at = occurred_at }
      affected_mounts ← manager_action_mounts candidate_mounts target.user_id occurred_at
      notification ←
          tell_owner notification_id (some owner_user_id) target affected_mounts occurred_at
      audit_event ←
          user_event AuditEventType.member_removed target.risk_workspace_id actor_user_id
            occurred_at audit_event_id
            ((codes "target_user_id", SafeValue.text target.user_id)
              ∷ (codes "affected_mount_ids", SafeValue.texts (map (λ m. m.id) affected_mounts))
              ∷ [])
      ok record {
        membership = updated_membership;
        mounts = affected_mounts;
        notification = notification;
        audit_event = audit_event;
      }
