-- ===== src/Mounts/Plans.antt =====
-- core/mounts/services.py: the plans that rename, disable and remove a mount.
use ip_risk_agent_v.Base.{
  none, some, [], ◌∷◌, Text, codes, text_eq, Datetime, Instant, normalize_utc, Outcome, ok, ◌>>=◌,
  ◌>>◌, raise_if, Error, invariant,
}
use ip_risk_agent_v.Memberships.{Membership}
use ip_risk_agent_v.Memberships.Authorization.{VwsAction, authorize_vws_action, require_authorized}
use ip_risk_agent_v.Audit.{AuditEvent, AuditEventType}
use ip_risk_agent_v.Audit
use ip_risk_agent_v.Risk.Events.{ActorType, SafeValue, SafeMapping}
use ip_risk_agent_v.Mounts.Models.{WorkspaceMount, MountStatus, is_disabled, ownership, post_init}

pub record MountMutationPlan : Type 0 where
  pub mount : WorkspaceMount
  pub audit_event : AuditEvent

pub record MountRemovalPlan : Type 0 where
  pub mount_id : Text
  pub audit_event : AuditEvent

-- `require_authorized(authorize_vws_action(..., mount=mount))`
abbrev pub authorize : Text → Membership → VwsAction → WorkspaceMount → Outcome Error (Unit {0})
authorize actor_user_id actor_membership action mount = do
  decision ←
      authorize_vws_action actor_user_id actor_membership.risk_workspace_id (some actor_membership)
        action (some (ownership mount)) none
  require_authorized decision

abbrev mount_event :
    AuditEventType → Text → WorkspaceMount → Instant → Text → SafeMapping → Outcome Error AuditEvent
mount_event event_type actor_user_id mount occurred_at audit_event_id metadata_safe =
    Audit.post_init record {
      id = audit_event_id;
      risk_workspace_id = mount.risk_workspace_id;
      event_type = event_type;
      actor_type = ActorType.user;
      actor_user_id = some actor_user_id;
      occurred_at = occurred_at;
      metadata_safe = metadata_safe;
    }

unfoldable pub plan_mount_rename :
    Text → Membership → WorkspaceMount → Text → Datetime → Text → Outcome Error MountMutationPlan
plan_mount_rename actor_user_id actor_membership mount new_alias clock audit_event_id = do
  authorize actor_user_id actor_membership VwsAction.mount_rename mount
  occurred_at ← normalize_utc clock "mount_rename.occurred_at"
  updated ← post_init record mount { alias = new_alias; updated_at = occurred_at }
  raise_if (text_eq updated.alias mount.alias) (invariant "mount already has the requested alias")
  audit_event ←
      mount_event AuditEventType.mount_renamed actor_user_id mount occurred_at audit_event_id (
        (codes "mount_id", SafeValue.text mount.id)
        ∷ (codes "previous_alias", SafeValue.text mount.alias)
        ∷ (codes "new_alias", SafeValue.text updated.alias)
        ∷ [])
  ok record { mount = updated; audit_event = audit_event }

unfoldable pub plan_mount_disable :
    Text → Membership → WorkspaceMount → Datetime → Text → Outcome Error MountMutationPlan
plan_mount_disable actor_user_id actor_membership mount clock audit_event_id = do
  authorize actor_user_id actor_membership VwsAction.mount_disable mount
  raise_if (is_disabled mount.status) (invariant "mount is already disabled")
  occurred_at ← normalize_utc clock "mount_disable.occurred_at"
  updated ← post_init record mount { status = MountStatus.disabled; updated_at = occurred_at }
  audit_event ←
      mount_event AuditEventType.mount_disabled actor_user_id mount occurred_at audit_event_id
        ((codes "mount_id", SafeValue.text mount.id) ∷ [])
  ok record { mount = updated; audit_event = audit_event }

unfoldable pub plan_mount_removal :
    Text → Membership → WorkspaceMount → Datetime → Text → Outcome Error MountRemovalPlan
plan_mount_removal actor_user_id actor_membership mount clock audit_event_id = do
  authorize actor_user_id actor_membership VwsAction.mount_remove mount
  occurred_at ← normalize_utc clock "mount_removal.occurred_at"
  audit_event ←
      mount_event AuditEventType.mount_removed actor_user_id mount occurred_at audit_event_id
        ((codes "mount_id", SafeValue.text mount.id) ∷ [])
  ok record { mount_id = mount.id; audit_event = audit_event }
