-- ===== src/Repositories/Audit.antt =====
-- `InMemoryAuditRepository` of application/repositories/in_memory.py.
use ip_risk_agent_v.Base.{
  is_some, List, keep, Text, text_eq, stamped_leb, sorted, get_item, set_item, values,
  unique_violation,
}
use ip_risk_agent_v.Exec.{Exec, gets, modify, refuse_if, ◌>>=◌, ◌>>◌}
use ip_risk_agent_v.Audit.{AuditEvent}
use ip_risk_agent_v.Repositories.{ControlState}

unfoldable pub append : AuditEvent → Exec ControlState (Unit {0})
append e = do
  known ← gets (λ s. get_item s.audit_events e.id)
  refuse_if (is_some known) (unique_violation "audit event already exists")
  modify (λ s. record s { audit_events = set_item e.id e s.audit_events })

unfoldable pub list_for_workspace : ControlState → Text → List AuditEvent
list_for_workspace s risk_workspace_id =
    sorted (λ a b. stamped_leb a.occurred_at a.id b.occurred_at b.id)
      (keep (λ e. text_eq e.risk_workspace_id risk_workspace_id) (values s.audit_events))
