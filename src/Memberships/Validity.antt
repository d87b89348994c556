-- ===== src/Memberships/Validity.antt =====
-- What `Membership.__post_init__` establishes: core/memberships/models.py.
use ip_risk_agent_v.Base.{◌≡◌, arith, ◌≤◌, require_non_empty-cases, IsNormal, ok}
use ip_risk_agent_v.Memberships.{Membership, post_init}

pub record IsValid (m : Membership) : Type 0 where
  pub id : IsNormal m.id "membership.id"
  pub risk_workspace_id : IsNormal m.risk_workspace_id "membership.risk_workspace_id"
  pub user_id : IsNormal m.user_id "membership.user_id"
  pub invited_by : IsNormal m.invited_by "membership.invited_by"
  pub updated : m.created_at ≤ m.updated_at

-- A valid membership passes the constructor's checks unchanged.
pub post_init-accepts : (m : Membership) → IsValid m → post_init m ≡ ok m
unfolding post_init
post_init-accepts m v =
    ground (arith, v.id, v.risk_workspace_id, v.user_id, v.invited_by, v.updated)

-- What the constructor returns is valid, whatever it is given.
pub post_init-IsValid : (m n : Membership) → post_init m ≡ ok n → IsValid n
unfolding post_init
post_init-IsValid m n h = ground (
  arith,
  require_non_empty-cases m.id "membership.id",
  require_non_empty-cases m.risk_workspace_id "membership.risk_workspace_id",
  require_non_empty-cases m.user_id "membership.user_id",
  require_non_empty-cases m.invited_by "membership.invited_by",
)
