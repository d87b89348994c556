-- ===== src/Mounts/Models.antt =====
-- core/mounts/models.py: the mounts of a risk workspace. `str.casefold` is an argument.
use ip_risk_agent_v.Base.{
  Bool, true, false, Text, Instant, require_non_empty, require_chronological, Outcome, ok, ◌>>=◌,
  ◌>>◌, Error,
}
use ip_risk_agent_v.Memberships.Authorization.{MountOwnership}
use ip_risk_agent_v.Mounts.Alias.{normalize_mount_alias}

pub data MountStatus : Type 0 where
  active reauth_required manager_action_required source_offline disabled : MountStatus

pub record WorkspaceMount : Type 0 where
  pub id : Text
  pub risk_workspace_id : Text
  pub source_workspace_id : Text
  pub alias : Text
  pub mounted_by_user_id : Text
  pub source_connection_id : Text
  pub status : MountStatus
  pub created_at : Instant
  pub updated_at : Instant

abbrev pub is_disabled : MountStatus → Bool
is_disabled MountStatus.disabled = true
is_disabled _ = false

-- What an authorization reads of the mount.
abbrev pub ownership : WorkspaceMount → MountOwnership
ownership m = record {
  risk_workspace_id = m.risk_workspace_id;
  mounted_by_user_id = m.mounted_by_user_id;
}

unfoldable pub mount_alias_key : (Text → Text) → Text → Outcome Error Text
mount_alias_key casefold alias = do
  normalized ← normalize_mount_alias alias
  ok (casefold normalized)

-- `WorkspaceMount.__post_init__`, on timestamps that are instants already.
unfoldable pub post_init : WorkspaceMount → Outcome Error WorkspaceMount
post_init m = do
  id ← require_non_empty m.id "workspace_mount.id"
  risk_workspace_id ← require_non_empty m.risk_workspace_id "workspace_mount.risk_workspace_id"
  source_workspace_id ←
      require_non_empty m.source_workspace_id "workspace_mount.source_workspace_id"
  mounted_by_user_id ← require_non_empty m.mounted_by_user_id "workspace_mount.mounted_by_user_id"
  source_connection_id ←
      require_non_empty m.source_connection_id "workspace_mount.source_connection_id"
  alias ← normalize_mount_alias m.alias
  require_chronological m.created_at m.updated_at "workspace_mount.created_at"
      "workspace_mount.updated_at"
  ok record m {
    id = id;
    risk_workspace_id = risk_workspace_id;
    source_workspace_id = source_workspace_id;
    mounted_by_user_id = mounted_by_user_id;
    source_connection_id = source_connection_id;
    alias = alias;
  }
