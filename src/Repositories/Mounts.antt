-- ===== src/Repositories/Mounts.antt =====
-- `InMemoryMountRepository` of application/repositories/in_memory.py. `str.casefold` is an argument.
pub mod Pairs
pub mod Writes
pub mod Unique
pub mod Calls
mod Tests
use ip_risk_agent_v.Base.{
  Bool, false, not, ◌&&◌, is_some, if◌then◌else◌, Option, none, some, List, [], ◌∷◌, Text, text_eq,
  text_leb, sorted, keep, get_item, set_item, without, values, not_found, unique_violation,
}
use ip_risk_agent_v.Exec.{Exec, raise, lift, gets, modify, refuse_if, ◌>>=◌, ◌>>◌}
use ip_risk_agent_v.Mounts.Models.{WorkspaceMount, mount_alias_key}
use ip_risk_agent_v.Repositories.{ControlState, PairDict}
use ip_risk_agent_v.Repositories.Pairs.{same_pair, get_pair, set_pair, drop_pair}

unfoldable pub get : ControlState → Text → Option WorkspaceMount
get s mount_id = get_item s.mounts mount_id

abbrev pub owned_by_other : Option Text → Text → Bool
owned_by_other none id = false
owned_by_other (some owner) id = not (text_eq owner id)

module _ (casefold : Text → Text) where
  unfoldable pub add : WorkspaceMount → Exec ControlState (Unit {0})
  unfolding get_pair set_pair
  add mount = do
    alias ← lift (mount_alias_key casefold mount.alias)
    let alias_key : Text × Text = (mount.risk_workspace_id, alias)
    known ← gets (λ s. get_item s.mounts mount.id)
    refuse_if (is_some known) (unique_violation "mount already exists")
    named ← gets (λ s. get_pair s.mounts_by_alias alias_key)
    refuse_if (is_some named) (unique_violation "workspace mount alias already exists")
    mounted ← gets (λ s. get_item s.mounts_by_source_workspace mount.source_workspace_id)
    refuse_if (is_some mounted) (unique_violation "source workspace mount already exists")
    modify (λ s. record s {
      mounts = set_item mount.id mount s.mounts;
      mounts_by_alias = set_pair alias_key mount.id s.mounts_by_alias;
      mounts_by_source_workspace =
          set_item mount.source_workspace_id mount.id s.mounts_by_source_workspace;
    })

  -- The index of aliases after a mount that was known under one key is saved under another.
  abbrev pub moved_alias : Text × Text → Text × Text → Text → PairDict Text → PairDict Text
  moved_alias previous_alias alias_key id d =
      set_pair alias_key id
        (if same_pair previous_alias alias_key then d else drop_pair previous_alias d)

  unfoldable pub save_over : Option WorkspaceMount → WorkspaceMount → Exec ControlState (Unit {0})
  unfolding get_pair set_pair
  save_over none mount = raise not_found
  save_over (some previous) mount = do
    refuse_if (not (text_eq previous.risk_workspace_id mount.risk_workspace_id))
        (unique_violation "a mount cannot move between virtual workspaces")
    refuse_if (not (text_eq previous.source_workspace_id mount.source_workspace_id))
        (unique_violation "a mount cannot change its source workspace")
    previous_alias ← lift (mount_alias_key casefold previous.alias)
    alias ← lift (mount_alias_key casefold mount.alias)
    let alias_key : Text × Text = (mount.risk_workspace_id, alias)
    alias_owner ← gets (λ s. get_pair s.mounts_by_alias alias_key)
    refuse_if (owned_by_other alias_owner mount.id)
        (unique_violation "workspace mount alias already exists")
    modify (λ s. record s {
      mounts = set_item mount.id mount s.mounts;
      mounts_by_alias =
          moved_alias (previous.risk_workspace_id, previous_alias) alias_key mount.id
            s.mounts_by_alias;
    })

  unfoldable pub save : WorkspaceMount → Exec ControlState (Unit {0})
  unfolding save_over
  save mount = do previous ← gets (λ s. get_item s.mounts mount.id); save_over previous mount

  unfoldable pub remove_known : Option WorkspaceMount → Text → Exec ControlState (Unit {0})
  remove_known none mount_id = raise not_found
  remove_known (some mount) mount_id = do
    alias ← lift (mount_alias_key casefold mount.alias)
    modify (λ s. record s {
      mounts = without mount_id s.mounts;
      mounts_by_alias = drop_pair (mount.risk_workspace_id, alias) s.mounts_by_alias;
      mounts_by_source_workspace = without mount.source_workspace_id s.mounts_by_source_workspace;
    })

  unfoldable pub remove : Text → Exec ControlState (Unit {0})
  unfolding remove_known
  remove mount_id = do mount ← gets (λ s. get_item s.mounts mount_id); remove_known mount mount_id

abbrev by_id : WorkspaceMount → WorkspaceMount → Bool
by_id a b = text_leb a.id b.id

unfoldable pub list_for_workspace : ControlState → Text → List WorkspaceMount
list_for_workspace s risk_workspace_id =
    sorted by_id (keep (λ m. text_eq m.risk_workspace_id risk_workspace_id) (values s.mounts))

unfoldable pub list_by_custodian : ControlState → Text → Text → List WorkspaceMount
list_by_custodian s risk_workspace_id user_id = sorted by_id (
    keep
      (λ m. text_eq m.risk_workspace_id risk_workspace_id && text_eq m.mounted_by_user_id user_id)
      (values s.mounts))
