-- ===== src/Reconcile/Failures.antt =====
-- application/risk_reconcile/service.py: what is recorded of an analysis that failed.
use ip_risk_agent_v.Base.{none, List, [], ◌∷◌, Text, codes, text_leb, sorted, Instant}
use ip_risk_agent_v.Exec.{Exec, lift, ◌>>=◌, ◌>>◌}
use ip_risk_agent_v.Contracts.{AnalysisStatus, AnalysisCoverage}
use ip_risk_agent_v.Identity.{stable_key}
use ip_risk_agent_v.Risk.Events.{ActorType, SafeValue, SafeMapping}
use ip_risk_agent_v.Audit.{AuditEventType}
use ip_risk_agent_v.Notifications.{NotificationType, NotificationStatus}
use ip_risk_agent_v.Repositories.{ControlState}
use ip_risk_agent_v.Reconcile.{Library, AnalysisResult}
use ip_risk_agent_v.Reconcile.Retention.{EvidenceRetentionPolicy}
use ip_risk_agent_v.Reconcile.Outcomes.{categories_of}
use ip_risk_agent_v.Reconcile.Notices.{analysis_value, distinct_values}

abbrev pub status_value : AnalysisStatus → Text
status_value AnalysisStatus.succeeded = codes "SUCCEEDED"
status_value AnalysisStatus.failed = codes "FAILED"
status_value AnalysisStatus.inconclusive = codes "INCONCLUSIVE"
status_value AnalysisStatus.skipped = codes "SKIPPED"

abbrev pub coverage_value : AnalysisCoverage → Text
coverage_value AnalysisCoverage.complete = codes "COMPLETE"
coverage_value AnalysisCoverage.partial = codes "PARTIAL"
coverage_value AnalysisCoverage.none = codes "NONE"

abbrev pub failure_metadata : AnalysisResult → List Text → SafeMapping
failure_metadata result categories =
    (codes "analysis_job_id", SafeValue.text result.analysis_job_id)
    ∷ (codes "analysis_type", SafeValue.text (analysis_value result.analysis_type))
    ∷ (codes "status", SafeValue.text (status_value result.status))
    ∷ (codes "coverage", SafeValue.text (coverage_value result.coverage))
    ∷ (
      codes "provider_failure_categories",
      SafeValue.texts (sorted text_leb (distinct_values categories)),
    )
    ∷ []

-- `_record_analysis_failure`
unfoldable pub record_analysis_failure :
    Library
    → EvidenceRetentionPolicy
    → AnalysisResult
    → Text
    → Text
    → Text
    → Instant
    → Exec ControlState (Unit {0})
record_analysis_failure lib policy result result_fingerprint risk_workspace_id owner_user_id
      occurred_at =
    do
      categories ← lift (categories_of lib policy result.provider_failures)
      let metadata = failure_metadata result categories
      audit_id ← lift (
          stable_key lib.sha (codes "audit")
            (result.analysis_job_id ∷ result_fingerprint ∷ codes "analysis-failure" ∷ []))
      audit ← lift (
          ip_risk_agent_v.Audit.post_init record {
            id = audit_id;
            risk_workspace_id = risk_workspace_id;
            event_type = AuditEventType.analysis_failed;
            actor_type = ActorType.system;
            occurred_at = occurred_at;
            actor_user_id = none;
            metadata_safe = metadata;
          })
      ip_risk_agent_v.Repositories.Audit.append audit
      notification_id ← lift (
          stable_key lib.sha (codes "notification")
            (result.analysis_job_id ∷ result_fingerprint ∷ codes "analysis-failure" ∷ []))
      notification ← lift (
          ip_risk_agent_v.Notifications.post_init record {
            id = notification_id;
            user_id = owner_user_id;
            risk_workspace_id = risk_workspace_id;
            notification_type = NotificationType.analysis_failed;
            status = NotificationStatus.unread;
            created_at = occurred_at;
            read_at = none;
            metadata_safe = metadata;
          })
      ip_risk_agent_v.Repositories.Notifications.add notification
