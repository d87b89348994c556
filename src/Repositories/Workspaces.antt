-- ===== src/Repositories/Workspaces.antt =====
-- `InMemoryWorkspaceRepository` of application/repositories/in_memory.py.
use ip_risk_agent_v.Base.{
  ◌==◌, not, ◌&&◌, ◌||◌, is_some, Option, none, some, Text, text_eq, get_item, set_item, not_found,
  unique_violation,
}
use ip_risk_agent_v.Exec.{Exec, raise, gets, modify, refuse_if, ◌>>=◌, ◌>>◌}
use ip_risk_agent_v.Workspaces.Models.{RiskWorkspace}
use ip_risk_agent_v.Repositories.{ControlState}

unfoldable pub get : ControlState → Text → Option RiskWorkspace
get s workspace_id = get_item s.workspaces workspace_id

abbrev write : RiskWorkspace → ControlState → ControlState
write w s = record s { workspaces = set_item w.id w s.workspaces }

unfoldable pub add : RiskWorkspace → Exec ControlState (Unit {0})
add w = do
  known ← gets (λ s. get_item s.workspaces w.id)
  refuse_if (is_some known) (unique_violation "workspace already exists")
  modify (write w)

unfoldable pub save_over : Option RiskWorkspace → RiskWorkspace → Exec ControlState (Unit {0})
save_over none w = raise not_found
save_over (some previous) w = do
  refuse_if
      (not (previous.created_at == w.created_at)
        || (not (text_eq previous.global_ignore_text w.global_ignore_text)
            && text_eq previous.security_policy_version w.security_policy_version))
      (unique_violation
        "workspace creation identity is immutable and policy text requires a new version")
  modify (write w)

unfoldable pub save : RiskWorkspace → Exec ControlState (Unit {0})
unfolding save_over
save w = do previous ← gets (λ s. get_item s.workspaces w.id); save_over previous w
