-- ===== src/Notifications.antt =====
-- core/notifications/models.py: what a user is told in the application.
use ip_risk_agent_v.Base.{
  Bool, true, false, ◌&&◌, is_some, is_none, Option, none, some, Text, Instant, require_non_empty,
  require_chronological, Outcome, ok, ◌>>=◌, ◌>>◌, raise_if, Error, invariant,
}
use ip_risk_agent_v.Risk.Events.{SafeMapping}

pub data NotificationType : Type 0 where
  risk_high_detected risk_reopened analysis_failed mount_reauth_required : NotificationType
  mount_manager_action_required source_offline : NotificationType

pub data NotificationStatus : Type 0 where
  unread read : NotificationStatus

pub record Notification : Type 0 where
  pub id : Text
  pub user_id : Text
  pub risk_workspace_id : Text
  pub notification_type : NotificationType
  pub status : NotificationStatus
  pub created_at : Instant
  pub read_at : Option Instant
  pub metadata_safe : SafeMapping

abbrev pub is_read : NotificationStatus → Bool
is_read NotificationStatus.read = true
is_read NotificationStatus.unread = false

abbrev pub is_unread : NotificationStatus → Bool
is_unread NotificationStatus.read = false
is_unread NotificationStatus.unread = true

abbrev check_read_at : Instant → Option Instant → Outcome Error (Unit {0})
check_read_at created_at none = ok tt
check_read_at created_at (some read_at) =
    require_chronological created_at read_at "notification.created_at" "notification.read_at"

-- `Notification.__post_init__`, on timestamps that are instants already.
unfoldable pub post_init : Notification → Outcome Error Notification
post_init n = do
  id ← require_non_empty n.id "notification.id"
  user_id ← require_non_empty n.user_id "notification.user_id"
  risk_workspace_id ← require_non_empty n.risk_workspace_id "notification.risk_workspace_id"
  raise_if (is_read n.status && is_none n.read_at) (invariant "READ notification requires read_at")
  raise_if (is_unread n.status && is_some n.read_at)
      (invariant "UNREAD notification cannot have read_at")
  check_read_at n.created_at n.read_at
  ok record n { id = id; user_id = user_id; risk_workspace_id = risk_workspace_id }
