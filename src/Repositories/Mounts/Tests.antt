-- ===== src/Repositories/Mounts/Tests.antt =====
-- Mounts that are added, renamed and refused.
use ip_risk_agent_v.Base.{◌≡◌, ◌≢◌, refl, arith, none, some, List, [], ◌∷◌, Text, codes, ok}
use ip_risk_agent_v.Mounts.Models.{WorkspaceMount, MountStatus, mount_alias_key}
use ip_risk_agent_v.Repositories.{ControlState, empty_state}
use ip_risk_agent_v.Repositories.Mounts.{get}
use ip_risk_agent_v.Repositories.Pairs.{get_pair}
use ip_risk_agent_v.Repositories.Mounts.Calls.{MountCall, mounts_after, named_in, mounts_distinct}

abbrev same_case : Text → Text
same_case s = s

abbrev first_mount : WorkspaceMount
first_mount = record {
  id = codes "m1";
  risk_workspace_id = codes "rws";
  source_workspace_id = codes "s1";
  alias = codes "docs";
  mounted_by_user_id = codes "ann";
  source_connection_id = codes "c1";
  status = MountStatus.active;
  created_at = 5;
  updated_at = 5;
}

abbrev second_mount : WorkspaceMount
second_mount = record first_mount {
  id = codes "m2";
  source_workspace_id = codes "s2";
  alias = codes "code";
}

abbrev renamed : WorkspaceMount
renamed = record first_mount { alias = codes "texts"; updated_at = 6 }

-- The second mount is refused under the alias of the first one.
abbrev calls : List MountCall
calls =
    MountCall.adds first_mount
    ∷ MountCall.adds (record second_mount { alias = codes "docs" })
    ∷ MountCall.adds second_mount
    ∷ MountCall.saves renamed
    ∷ MountCall.removes (codes "m3")
    ∷ []

first_found : get (mounts_after same_case calls empty_state) (codes "m1") ≡ some renamed
unfolding get ip_risk_agent_v.Base.get_item mounts_after ip_risk_agent_v.Repositories.Mounts.remove
    ip_risk_agent_v.Exec.◌>>=◌ ip_risk_agent_v.Repositories.Mounts.save
    ip_risk_agent_v.Repositories.Mounts.add mount_alias_key
    ip_risk_agent_v.Mounts.Alias.normalize_mount_alias ip_risk_agent_v.Base.require_non_empty
    ip_risk_agent_v.Mounts.Alias.check_segment ip_risk_agent_v.Mounts.Alias.has_double_slash
    ip_risk_agent_v.Mounts.Alias.is_dots ip_risk_agent_v.Base.text_eq ip_risk_agent_v.Base.set_item
first_found = refl

second_found : get (mounts_after same_case calls empty_state) (codes "m2") ≡ some second_mount
unfolding get ip_risk_agent_v.Base.get_item mounts_after ip_risk_agent_v.Repositories.Mounts.remove
    ip_risk_agent_v.Exec.◌>>=◌ ip_risk_agent_v.Repositories.Mounts.save
    ip_risk_agent_v.Repositories.Mounts.add mount_alias_key
    ip_risk_agent_v.Mounts.Alias.normalize_mount_alias ip_risk_agent_v.Base.require_non_empty
    ip_risk_agent_v.Mounts.Alias.check_segment ip_risk_agent_v.Mounts.Alias.has_double_slash
    ip_risk_agent_v.Mounts.Alias.is_dots ip_risk_agent_v.Base.text_eq ip_risk_agent_v.Base.set_item
second_found = refl

mounts_distinct_example :
    (codes "s1" ≢ codes "s2")
    × (named_in same_case renamed ≢ named_in same_case second_mount)
    × (a : Text) × (mount_alias_key same_case (codes "texts") ≡ ok a)
    × (get_pair (mounts_after same_case calls empty_state).mounts_by_alias (codes "rws", a)
        ≡ some (codes "m1"))
mounts_distinct_example =
    mounts_distinct same_case calls (codes "m1") (codes "m2") renamed second_mount first_found
      second_found (λ e. absurd (ground (arith, e)))
