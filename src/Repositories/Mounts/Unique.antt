-- ===== src/Repositories/Mounts/Unique.antt =====
-- The tables of mounts and their indexes agree: application/repositories/in_memory.py.
use ip_risk_agent_v.Base.{
  ◌≡◌, ◌≢◌, ◌∙◌, refl, subst, arith, inl, inr, some, Text, text_eq_iff, get_item, set_item,
  set_item-cases, get_item-set_item_same, get_item-set_item_other, get_item-without, ok,
}
use ip_risk_agent_v.Mounts.Models.{WorkspaceMount, mount_alias_key}
use ip_risk_agent_v.Repositories.{ControlState}
use ip_risk_agent_v.Repositories.Mounts.{moved_alias}
use ip_risk_agent_v.Repositories.Pairs.{get_pair, set_pair}
use ip_risk_agent_v.Repositories.Mounts.Pairs.{
  get_pair-set_pair_same, get_pair-set_pair_other, get_pair-drop_pair_other, get_pair-moved_alias,
  get_pair-moved_alias_same,
}
use ip_risk_agent_v.Repositories.Mounts.Writes.{IsAdded, IsSaved, IsRemoved}

module _ (casefold : Text → Text) where
  -- A mount stands under its id, and both indexes lead to it.
  pub record IsListed (s : ControlState) (id : Text) (m : WorkspaceMount) : Type 0 where
    pub key : m.id ≡ id
    pub alias : Text
    pub named : mount_alias_key casefold m.alias ≡ ok alias
    pub by_alias : get_pair s.mounts_by_alias (m.risk_workspace_id, alias) ≡ some id
    pub by_source : get_item s.mounts_by_source_workspace m.source_workspace_id ≡ some id

  pub record IsIndexed (s : ControlState) : Type 0 where
    pub listed : (id : Text) (m : WorkspaceMount) → get_item s.mounts id ≡ some m → IsListed s id m

  at_same :
      (s : ControlState) {id j : Text} {m n : WorkspaceMount}
      → IsListed s id m
      → id ≡ j
      → m ≡ n
      → IsListed s j n
  at_same s {id} {j} {m} {n} h p q =
      subst (λ z. IsListed s z n) p (subst (λ z. IsListed s id z) q h)

  module _ (s : ControlState) (h : IsIndexed s) where
    pub add-IsIndexed :
        (m : WorkspaceMount) (s' : ControlState) → IsAdded casefold m s s' → IsIndexed s'
    add-IsIndexed m s' w = subst IsIndexed w.written record {
      listed = λ j n e. elim (set_item-cases m.id j m n s.mounts e) [
        | inl (p, q) ↦
            let here : IsListed
                (record s {
                  mounts = set_item m.id m s.mounts;
                  mounts_by_alias = set_pair (m.risk_workspace_id, w.alias) m.id s.mounts_by_alias;
                  mounts_by_source_workspace =
                      set_item m.source_workspace_id m.id s.mounts_by_source_workspace;
                })
                m.id m =
              record {
                key = refl;
                alias = w.alias;
                named = w.named;
                by_alias =
                    get_pair-set_pair_same (m.risk_workspace_id, w.alias) m.id s.mounts_by_alias;
                by_source =
                    get_item-set_item_same m.source_workspace_id m.id s.mounts_by_source_workspace;
              } in
            at_same _ here p q
        | inr (_, a) ↦
            let o = h.listed j n a in
            let old : Text × Text = (n.risk_workspace_id, o.alias) in
            let new : Text × Text = (m.risk_workspace_id, w.alias) in
            let apart : new ≢ old = λ q.
              let r : get_pair s.mounts_by_alias new ≡ some j = rw q o.by_alias in
              let f = w.alias_free in ground (arith, r, f) in
            let elsewhere : m.source_workspace_id ≢ n.source_workspace_id = λ q.
              let r : get_item s.mounts_by_source_workspace m.source_workspace_id ≡ some j =
                rw q o.by_source in
              let f = w.source_free in ground (arith, r, f) in
            record {
              key = o.key;
              alias = o.alias;
              named = o.named;
              by_alias = get_pair-set_pair_other new old m.id s.mounts_by_alias apart ∙ o.by_alias;
              by_source =
                  get_item-set_item_other m.source_workspace_id n.source_workspace_id m.id
                    s.mounts_by_source_workspace elsewhere
                  ∙ o.by_source;
            }
      ];
    }

    pub save-IsIndexed :
        (m : WorkspaceMount) (s' : ControlState) → IsSaved casefold m s s' → IsIndexed s'
    save-IsIndexed m s' w = subst IsIndexed w.written record {
      listed = λ j n e. elim (set_item-cases m.id j m n s.mounts e) [
        | inl (p, q) ↦
            let o = h.listed m.id w.previous w.known in
            let here : IsListed
                (record s {
                  mounts = set_item m.id m s.mounts;
                  mounts_by_alias =
                      moved_alias casefold (w.previous.risk_workspace_id, w.old_alias)
                        (m.risk_workspace_id, w.alias) m.id s.mounts_by_alias;
                })
                m.id m =
              record {
                key = refl;
                alias = w.alias;
                named = w.named;
                by_alias =
                    get_pair-moved_alias_same casefold (w.previous.risk_workspace_id, w.old_alias)
                      (m.risk_workspace_id, w.alias) m.id s.mounts_by_alias;
                by_source = rw (← w.source) o.by_source;
              } in
            at_same _ here p q
        | inr (d, a) ↦
            let o = h.listed j n a in
            let r = h.listed m.id w.previous w.known in
            let own : Text × Text = (n.risk_workspace_id, o.alias) in
            let old : Text × Text = (w.previous.risk_workspace_id, w.old_alias) in
            let new : Text × Text = (m.risk_workspace_id, w.alias) in
            let not_old : old ≢ own = λ q.
              let same : r.alias ≡ w.old_alias =
                (let x = r.named in let y = w.old_named in ground (arith, x, y)) in
              let led : get_pair s.mounts_by_alias old ≡ some m.id = rw (← same) r.by_alias in
              let led' : get_pair s.mounts_by_alias old ≡ some j = rw q o.by_alias in
              d (ground (arith, led, led')) in
            let not_new : new ≢ own = λ q.
              let led : get_pair s.mounts_by_alias new ≡ some j = rw q o.by_alias in
              let f = w.alias_free in d (ground (arith, led, f, text_eq_iff j m.id)) in
            record {
              key = o.key;
              alias = o.alias;
              named = o.named;
              by_alias =
                  get_pair-moved_alias casefold old new own m.id s.mounts_by_alias not_old not_new
                  ∙ o.by_alias;
              by_source = o.by_source;
            }
      ];
    }

    pub remove-IsIndexed :
        (id : Text) (s' : ControlState) → IsRemoved casefold id s s' → IsIndexed s'
    remove-IsIndexed id s' w = subst IsIndexed w.written record {
      listed = λ j n e.
          let d : id ≢ j =
            λ p. ground (arith, e, p, get_item-without id j s.mounts, text_eq_iff id j) in
          let a : get_item s.mounts j ≡ some n =
            ground (arith, e, get_item-without id j s.mounts, text_eq_iff id j) in
          let o = h.listed j n a in
          let r = h.listed id w.mount w.known in
          let own : Text × Text = (n.risk_workspace_id, o.alias) in
          let old : Text × Text = (w.mount.risk_workspace_id, w.alias) in
          let not_old : old ≢ own = λ q.
            let same : r.alias ≡ w.alias =
              (let x = r.named in let y = w.named in ground (arith, x, y)) in
            let led : get_pair s.mounts_by_alias old ≡ some id = rw (← same) r.by_alias in
            let led' : get_pair s.mounts_by_alias old ≡ some j = rw q o.by_alias in
            d (ground (arith, led, led')) in
          let elsewhere : w.mount.source_workspace_id ≢ n.source_workspace_id = λ q.
            let led = r.by_source in
            let led' : get_item s.mounts_by_source_workspace w.mount.source_workspace_id ≡ some j =
              rw q o.by_source in
            d (ground (arith, led, led')) in
          record {
            key = o.key;
            alias = o.alias;
            named = o.named;
            by_alias = get_pair-drop_pair_other old own s.mounts_by_alias not_old ∙ o.by_alias;
            by_source = ground (
              arith,
              o.by_source,
              get_item-without w.mount.source_workspace_id n.source_workspace_id
                  s.mounts_by_source_workspace,
              text_eq_iff w.mount.source_workspace_id n.source_workspace_id,
              elsewhere,
            );
          };
    }
