-- ===== src/Workspaces/Models/Validity.antt =====
-- What `RiskWorkspace.__post_init__` establishes: core/workspaces/models.py.
use ip_risk_agent_v.Base.{◌≡◌, arith, ◌≤◌, false, require_non_empty-cases, IsNormal, ok}
use ip_risk_agent_v.Workspaces.Models.{RiskWorkspace, has_nul, exceeds_limit, post_init}

pub record IsValid (w : RiskWorkspace) : Type 0 where
  pub id : IsNormal w.id "risk_workspace.id"
  pub name : IsNormal w.name "risk_workspace.name"
  pub owner_user_id : IsNormal w.owner_user_id "risk_workspace.owner_user_id"
  pub security : IsNormal w.security_policy_version "risk_workspace.security_policy_version"
  pub retention : IsNormal w.retention_policy_version "risk_workspace.retention_policy_version"
  pub updated : w.created_at ≤ w.updated_at
  pub no_nul : has_nul w.global_ignore_text ≡ false
  pub in_limit : exceeds_limit w.global_ignore_text ≡ false

-- A valid workspace passes the constructor's checks unchanged.
pub post_init-accepts : (w : RiskWorkspace) → IsValid w → post_init w ≡ ok w
unfolding post_init
post_init-accepts w v =
    ground (
      arith, v.id, v.name, v.owner_user_id, v.security, v.retention, v.updated, v.no_nul,
      v.in_limit,
    )

-- What the constructor returns is valid, whatever it is given.
pub post_init-IsValid : (w x : RiskWorkspace) → post_init w ≡ ok x → IsValid x
unfolding post_init
post_init-IsValid w x h = ground (
  arith,
  require_non_empty-cases w.id "risk_workspace.id",
  require_non_empty-cases w.name "risk_workspace.name",
  require_non_empty-cases w.owner_user_id "risk_workspace.owner_user_id",
  require_non_empty-cases w.security_policy_version "risk_workspace.security_policy_version",
  require_non_empty-cases w.retention_policy_version "risk_workspace.retention_policy_version",
)
