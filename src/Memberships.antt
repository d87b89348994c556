-- ===== src/Memberships.antt =====
-- core/memberships/models.py: roles, permissions and memberships of a risk workspace.
pub mod Authorization
pub mod Invitations
pub mod Validity
mod Tests
use ip_risk_agent_v.Base.{
  Bool, true, false, ◌||◌, Text, Instant, Outcome, ok, raised, ◌>>=◌, ◌>>◌, Error,
  require_non_empty, require_chronological,
}

pub data MembershipRole : Type 0 where
  owner source_manager risk_reviewer viewer : MembershipRole

pub data MembershipStatus : Type 0 where
  invited active removed : MembershipStatus

pub data Permission : Type 0 where
  vws_view risk_view risk_review source_mount own_source_manage : Permission
  vws_security_manage member_manage audit_view audit_export : Permission
  workspace_delete ownership_transfer : Permission

-- `permission in _VIEWER_PERMISSIONS`, and the like for the sets built on it.
abbrev viewer_permissions : Permission → Bool
viewer_permissions Permission.vws_view = true
viewer_permissions Permission.risk_view = true
viewer_permissions _ = false

abbrev is_risk_review : Permission → Bool
is_risk_review Permission.risk_review = true
is_risk_review _ = false

abbrev reviewer_permissions : Permission → Bool
reviewer_permissions permission = viewer_permissions permission || is_risk_review permission

abbrev is_source_permission : Permission → Bool
is_source_permission Permission.source_mount = true
is_source_permission Permission.own_source_manage = true
is_source_permission _ = false

abbrev source_manager_permissions : Permission → Bool
source_manager_permissions permission =
    reviewer_permissions permission || is_source_permission permission

-- `permission in permissions_for(role)`
abbrev pub permissions_for : MembershipRole → Permission → Bool
permissions_for MembershipRole.viewer = viewer_permissions
permissions_for MembershipRole.risk_reviewer = reviewer_permissions
permissions_for MembershipRole.source_manager = source_manager_permissions
permissions_for MembershipRole.owner = λ permission. true

pub record Membership : Type 0 where
  pub id : Text
  pub risk_workspace_id : Text
  pub user_id : Text
  pub role : MembershipRole
  pub status : MembershipStatus
  pub invited_by : Text
  pub created_at : Instant
  pub updated_at : Instant

abbrev pub is_active : MembershipStatus → Bool
is_active MembershipStatus.active = true
is_active _ = false

abbrev pub is_owner : MembershipRole → Bool
is_owner MembershipRole.owner = true
is_owner _ = false

unfoldable pub post_init : Membership → Outcome Error Membership
post_init m = do
  id ← require_non_empty m.id "membership.id"
  risk_workspace_id ← require_non_empty m.risk_workspace_id "membership.risk_workspace_id"
  user_id ← require_non_empty m.user_id "membership.user_id"
  invited_by ← require_non_empty m.invited_by "membership.invited_by"
  require_chronological m.created_at m.updated_at "membership.created_at" "membership.updated_at"
  ok record m {
    id = id;
    risk_workspace_id = risk_workspace_id;
    user_id = user_id;
    invited_by = invited_by;
  }
