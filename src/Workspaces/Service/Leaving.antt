-- ===== src/Workspaces/Service/Leaving.antt =====
-- What becomes of a member that is removed: application/workspace_admin/service.py.
use ip_risk_agent_v.Repositories.Memberships as MembershipTable
use ip_risk_agent_v.Workspaces.Service.Owned.{Owned}
