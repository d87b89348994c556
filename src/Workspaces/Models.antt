-- ===== src/Workspaces/Models.antt =====
-- core/workspaces/models.py: a risk workspace and its constructor.
pub mod Validity
use ip_risk_agent_v.Base.{
  ℕ, ltb, ◌==◌, any, Bool, true, false, Option, none, some, Text, Instant, require_non_empty,
  require_chronological, Outcome, ok, raised, ◌>>=◌, ◌>>◌, raise_if, Error, invariant,
}
use ip_risk_agent_v.Security.Minimization.{byte_size}
use ip_risk_agent_v.Workspaces.LicenseProfile.{LicenseDeploymentProfile}

pub data RiskWorkspaceStatus : Type 0 where
  active deleting deleted : RiskWorkspaceStatus

pub record RiskWorkspace : Type 0 where
  pub id : Text
  pub name : Text
  pub owner_user_id : Text
  pub security_policy_version : Text
  pub retention_policy_version : Text
  pub created_at : Instant
  pub updated_at : Instant
  pub description : Option Text
  pub status : RiskWorkspaceStatus
  pub global_ignore_text : Text
  pub license_profile : Option LicenseDeploymentProfile

-- `"\x00" in text`, and more than 64,000 bytes of it.
unfoldable pub has_nul : Text → Bool
has_nul text = any (λ c. c == 0) text

unfoldable pub exceeds_limit : Text → Bool
exceeds_limit text = ltb 64000 (byte_size text)

-- `RiskWorkspace.__post_init__`, on timestamps that are instants already.
unfoldable pub post_init : RiskWorkspace → Outcome Error RiskWorkspace
post_init w = do
  id ← require_non_empty w.id "risk_workspace.id"
  name ← require_non_empty w.name "risk_workspace.name"
  owner_user_id ← require_non_empty w.owner_user_id "risk_workspace.owner_user_id"
  security_policy_version ←
      require_non_empty w.security_policy_version "risk_workspace.security_policy_version"
  retention_policy_version ←
      require_non_empty w.retention_policy_version "risk_workspace.retention_policy_version"
  require_chronological w.created_at w.updated_at "risk_workspace.created_at"
      "risk_workspace.updated_at"
  raise_if (has_nul w.global_ignore_text)
      (invariant "risk_workspace.global_ignore_text cannot contain NUL")
  raise_if (exceeds_limit w.global_ignore_text)
      (invariant "risk_workspace.global_ignore_text exceeds 64 KiB")
  ok record w {
    id = id;
    name = name;
    owner_user_id = owner_user_id;
    security_policy_version = security_policy_version;
    retention_policy_version = retention_policy_version;
  }
