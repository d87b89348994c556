-- ===== src/Repositories/Mounts/Writes.antt =====
-- What the methods of the mounts find and write: application/repositories/in_memory.py.
use ip_risk_agent_v.Base.{
  ◌≡◌, ◌≢◌, refl, arith, false, inl, inr, Option, none, some, Text, text_eq_iff, get_item, set_item,
  without, Outcome-cases, ok,
}
use ip_risk_agent_v.Exec.{◌>>=◌}
use ip_risk_agent_v.Mounts.Models.{WorkspaceMount, mount_alias_key}
use ip_risk_agent_v.Repositories.{ControlState}
use ip_risk_agent_v.Repositories.Mounts.{
  moved_alias, owned_by_other, add, save, save_over, remove, remove_known,
}
use ip_risk_agent_v.Repositories.Pairs.{get_pair, set_pair, drop_pair}

module _ (casefold : Text → Text) where
  -- What `add` found, and what it wrote.
  pub record IsAdded (m : WorkspaceMount) (s s' : ControlState) : Type 0 where
    pub alias : Text
    pub named : mount_alias_key casefold m.alias ≡ ok alias
    pub new : get_item s.mounts m.id ≡ none
    pub alias_free : get_pair s.mounts_by_alias (m.risk_workspace_id, alias) ≡ none
    pub source_free : get_item s.mounts_by_source_workspace m.source_workspace_id ≡ none
    pub written :
        record s {
          mounts = set_item m.id m s.mounts;
          mounts_by_alias = set_pair (m.risk_workspace_id, alias) m.id s.mounts_by_alias;
          mounts_by_source_workspace =
              set_item m.source_workspace_id m.id s.mounts_by_source_workspace;
        }
        ≡ s'

  pub add-IsAdded :
      (m : WorkspaceMount) (s s' : ControlState) → add casefold m s ≡ ok (tt, s') → IsAdded m s s'
  unfolding add ◌>>=◌
  add-IsAdded m s s' h = elim (Outcome-cases (mount_alias_key casefold m.alias)) [
    | inl (a, e) ↦ record {
      alias = a;
      named = e;
      new = ground (arith, h, e);
      alias_free = ground (arith, h, e);
      source_free = ground (arith, h, e);
      written = ground (arith, h, e);
    }
    | inr (x, e) ↦ absurd (ground (arith, h, e))
  ]

  -- What `save` found, and what it wrote.
  pub record IsSaved (m : WorkspaceMount) (s s' : ControlState) : Type 0 where
    pub previous : WorkspaceMount
    pub known : get_item s.mounts m.id ≡ some previous
    pub workspace : previous.risk_workspace_id ≡ m.risk_workspace_id
    pub source : previous.source_workspace_id ≡ m.source_workspace_id
    pub old_alias : Text
    pub old_named : mount_alias_key casefold previous.alias ≡ ok old_alias
    pub alias : Text
    pub named : mount_alias_key casefold m.alias ≡ ok alias
    pub alias_free :
        owned_by_other (get_pair s.mounts_by_alias (m.risk_workspace_id, alias)) m.id ≡ false
    pub written :
        record s {
          mounts = set_item m.id m s.mounts;
          mounts_by_alias =
              moved_alias casefold
                (previous.risk_workspace_id, old_alias)
                (m.risk_workspace_id, alias)
                m.id
                s.mounts_by_alias;
        }
        ≡ s'

  save_over-IsSaved :
      (previous m : WorkspaceMount) (s s' : ControlState)
      → get_item s.mounts m.id ≡ some previous
      → save_over casefold (some previous) m s ≡ ok (tt, s')
      → IsSaved m s s'
  unfolding save_over ◌>>=◌
  save_over-IsSaved previous m s s' k h =
      elim (Outcome-cases (mount_alias_key casefold previous.alias)) [
        | inl (a, e) ↦ elim (Outcome-cases (mount_alias_key casefold m.alias)) [
          | inl (b, f) ↦ record {
            previous = previous;
            known = k;
            workspace =
                ground (arith, h, text_eq_iff previous.risk_workspace_id m.risk_workspace_id);
            source =
                ground (arith, h, text_eq_iff previous.source_workspace_id m.source_workspace_id);
            old_alias = a;
            old_named = e;
            alias = b;
            named = f;
            alias_free = ground (arith, h, e, f);
            written = ground (arith, h, e, f);
          }
          | inr (x, f) ↦ absurd (ground (arith, h, e, f))
        ]
        | inr (x, e) ↦ absurd (ground (arith, h, e))
      ]

  save_over-none :
      (m : WorkspaceMount) (s s' : ControlState) → save_over casefold none m s ≢ ok (tt, s')
  unfolding save_over
  save_over-none m s s' h = ground (arith, h)

  pub save-IsSaved :
      (m : WorkspaceMount) (s s' : ControlState) → save casefold m s ≡ ok (tt, s') → IsSaved m s s'
  unfolding save ◌>>=◌
  save-IsSaved m s s' h = known (get_item s.mounts m.id) refl h
    where
      known :
          (o : Option WorkspaceMount)
          → get_item s.mounts m.id ≡ o
          → save_over casefold o m s ≡ ok (tt, s')
          → IsSaved m s s'
      known none e k = absurd (save_over-none m s s' k)
      known (some previous) e k = save_over-IsSaved previous m s s' e k

  -- What `remove` found, and what it wrote.
  pub record IsRemoved (id : Text) (s s' : ControlState) : Type 0 where
    pub mount : WorkspaceMount
    pub known : get_item s.mounts id ≡ some mount
    pub alias : Text
    pub named : mount_alias_key casefold mount.alias ≡ ok alias
    pub written :
        record s {
          mounts = without id s.mounts;
          mounts_by_alias = drop_pair (mount.risk_workspace_id, alias) s.mounts_by_alias;
          mounts_by_source_workspace =
              without mount.source_workspace_id s.mounts_by_source_workspace;
        }
        ≡ s'

  remove_known-IsRemoved :
      (mount : WorkspaceMount) (id : Text) (s s' : ControlState)
      → get_item s.mounts id ≡ some mount
      → remove_known casefold (some mount) id s ≡ ok (tt, s')
      → IsRemoved id s s'
  unfolding remove_known ◌>>=◌
  remove_known-IsRemoved mount id s s' k h =
      elim (Outcome-cases (mount_alias_key casefold mount.alias)) [
        | inl (a, e) ↦ record {
          mount = mount;
          known = k;
          alias = a;
          named = e;
          written = ground (arith, h, e);
        }
        | inr (x, e) ↦ absurd (ground (arith, h, e))
      ]

  remove_known-none :
      (id : Text) (s s' : ControlState) → remove_known casefold none id s ≢ ok (tt, s')
  unfolding remove_known
  remove_known-none id s s' h = ground (arith, h)

  pub remove-IsRemoved :
      (id : Text) (s s' : ControlState) → remove casefold id s ≡ ok (tt, s') → IsRemoved id s s'
  unfolding remove ◌>>=◌
  remove-IsRemoved id s s' h = known (get_item s.mounts id) refl h
    where
      known :
          (o : Option WorkspaceMount)
          → get_item s.mounts id ≡ o
          → remove_known casefold o id s ≡ ok (tt, s')
          → IsRemoved id s s'
      known none e k = absurd (remove_known-none id s s' k)
      known (some mount) e k = remove_known-IsRemoved mount id s s' e k
