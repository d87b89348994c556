-- ===== src/Reconcile/Notices.antt =====
-- application/risk_reconcile/service.py: what the owner of the workspace is told, and the writes that
-- are left out when their id is there already.
use ip_risk_agent_v.Base.{
  any, if◌then◌else◌, Option, none, some, List, [], ◌∷◌, map, length, Text, codes, text_eq,
  text_leb, sorted, Instant, Outcome, ◌>>=◌, Error,
}
use ip_risk_agent_v.Contracts.{AnalysisType}
use ip_risk_agent_v.Identity.{stable_key}
use ip_risk_agent_v.Risk.{Risk}
use ip_risk_agent_v.Risk.Events.{SafeValue}
use ip_risk_agent_v.Artifacts.{Artifact}
use ip_risk_agent_v.Notifications.{Notification, NotificationType, NotificationStatus, post_init}
use ip_risk_agent_v.Reconcile.{Library}
use ip_risk_agent_v.Reconcile.History.{priority_value}

abbrev pub analysis_value : AnalysisType → Text
analysis_value AnalysisType.patent = codes "PATENT"
analysis_value AnalysisType.license = codes "LICENSE"

abbrev pub notification_value : NotificationType → Text
notification_value NotificationType.risk_high_detected = codes "RISK_HIGH_DETECTED"
notification_value NotificationType.risk_reopened = codes "RISK_REOPENED"
notification_value NotificationType.analysis_failed = codes "ANALYSIS_FAILED"
notification_value NotificationType.mount_reauth_required = codes "MOUNT_REAUTH_REQUIRED"
notification_value NotificationType.mount_manager_action_required =
    codes "MOUNT_MANAGER_ACTION_REQUIRED"
notification_value NotificationType.source_offline = codes "SOURCE_OFFLINE"

-- `set(values)`
abbrev pub distinct_values : List Text → List Text
distinct_values [] = []
distinct_values (v ∷ vs) = if any (text_eq v) vs then distinct_values vs else v ∷ distinct_values vs

abbrev display_value : Option Artifact → SafeValue
display_value none = SafeValue.null
display_value (some artifact) = SafeValue.text artifact.display_name

module _ (lib : Library) (result_fingerprint : Text) (owner_user_id : Text) where
  -- `_risk_notification`
  unfoldable pub risk_notification : Risk → NotificationType → Instant → Outcome Error Notification
  risk_notification risk notification_type occurred_at = do
    id ←
        stable_key lib.sha (codes "notification")
          (risk.id ∷ result_fingerprint ∷ notification_value notification_type ∷ [])
    post_init record {
      id = id;
      user_id = owner_user_id;
      risk_workspace_id = risk.risk_workspace_id;
      notification_type = notification_type;
      status = NotificationStatus.unread;
      created_at = occurred_at;
      read_at = none;
      metadata_safe =
          (codes "risk_id", SafeValue.text risk.id)
          ∷ (codes "analysis_type", SafeValue.text (analysis_value risk.analysis_type))
          ∷ [];
    }

  -- `_artifact_attention_notification`, of a risk and those after it, with the artifact whose name it
  -- shows.
  unfoldable pub attention_notification :
      Risk → List Risk → Text → Instant → Option Artifact → Outcome Error Notification
  attention_notification first others artifact_id occurred_at artifact = do
    id ← stable_key lib.sha (codes "notification") (
        artifact_id
        ∷ result_fingerprint
        ∷ notification_value NotificationType.risk_high_detected
        ∷ [])
    post_init record {
      id = id;
      user_id = owner_user_id;
      risk_workspace_id = first.risk_workspace_id;
      notification_type = NotificationType.risk_high_detected;
      status = NotificationStatus.unread;
      created_at = occurred_at;
      read_at = none;
      metadata_safe =
          (codes "artifact_id", SafeValue.text artifact_id)
          ∷ (codes "display_name", display_value artifact)
          ∷ (codes "risk_count", SafeValue.number (length (first ∷ others)))
          ∷ (
            codes "priorities",
            SafeValue.texts (
                sorted text_leb
                  (distinct_values (map (λ r. priority_value r.review_priority) (first ∷ others)))),
          )
          ∷ (codes "risk_id", SafeValue.text first.id)
          ∷ (codes "analysis_type", SafeValue.text (analysis_value first.analysis_type))
          ∷ [];
    }
