-- ===== src/Audit.antt =====
-- core/audit/models.py: the operational record of what members do.
use ip_risk_agent_v.Base.{
  Bool, true, false, ◌&&◌, Option, none, some, [], ◌∷◌, Text, Instant, require_non_empty, Outcome,
  ok, ◌>>=◌, ◌>>◌, raise_if, Error, invariant,
}
use ip_risk_agent_v.Risk.Events.{ActorType, SafeMapping}

pub data AuditEventType : Type 0 where
  workspace_created workspace_updated : AuditEventType
  member_invited member_invitation_accepted member_invitation_revoked : AuditEventType
  member_role_changed member_removed : AuditEventType
  source_connected source_disconnected : AuditEventType
  mount_created mount_renamed mount_disabled mount_removed : AuditEventType
  security_policy_changed analysis_failed ownership_transferred : AuditEventType
  workspace_deletion_requested mount_manager_action_required : AuditEventType

pub record AuditEvent : Type 0 where
  pub id : Text
  pub risk_workspace_id : Text
  pub event_type : AuditEventType
  pub actor_type : ActorType
  pub occurred_at : Instant
  pub actor_user_id : Option Text
  pub metadata_safe : SafeMapping

abbrev is_user : ActorType → Bool
is_user ActorType.user = true
is_user ActorType.system = false

-- `not actor_user_id`
abbrev is_absent : Option Text → Bool
is_absent none = true
is_absent (some []) = true
is_absent (some (c ∷ s)) = false

-- `AuditEvent.__post_init__`, on an instant and a mapping of scalars.
unfoldable pub post_init : AuditEvent → Outcome Error AuditEvent
post_init e = do
  id ← require_non_empty e.id "audit_event.id"
  risk_workspace_id ← require_non_empty e.risk_workspace_id "audit_event.risk_workspace_id"
  raise_if (is_user e.actor_type && is_absent e.actor_user_id)
      (invariant "user-authored AuditEvent requires actor_user_id")
  ok record e { id = id; risk_workspace_id = risk_workspace_id }
