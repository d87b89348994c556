-- ===== src/Repositories/Mounts/Calls.antt =====
-- Any sequence of writes to the mounts: application/repositories/in_memory.py.
use ip_risk_agent_v.Base.{
  ◌≡◌, ◌≢◌, refl, ap, arith, some, List, [], ◌∷◌, Text, get_item, Outcome, ok, raised, Error,
}
use ip_risk_agent_v.Exec.{Exec}
use ip_risk_agent_v.Mounts.Models.{WorkspaceMount, mount_alias_key}
use ip_risk_agent_v.Repositories.{ControlState, empty_state}
use ip_risk_agent_v.Repositories.Mounts.{get, add, save, remove}
use ip_risk_agent_v.Repositories.Pairs.{get_pair}
use ip_risk_agent_v.Repositories.Mounts.Writes.{add-IsAdded, save-IsSaved, remove-IsRemoved}
use ip_risk_agent_v.Repositories.Mounts.Unique.{
  IsIndexed, add-IsIndexed, save-IsIndexed, remove-IsIndexed,
}

pub data MountCall : Type 0 where
  adds saves : WorkspaceMount → MountCall
  removes : Text → MountCall

module _ (casefold : Text → Text) where
  abbrev call_mounts : MountCall → Exec ControlState (Unit {0})
  call_mounts (MountCall.adds m) = add casefold m
  call_mounts (MountCall.saves m) = save casefold m
  call_mounts (MountCall.removes id) = remove casefold id

  -- A call that raises leaves no trace.
  abbrev written_by : ControlState → Outcome Error (Unit {0} × ControlState) → ControlState
  written_by s (ok (a, s')) = s'
  written_by s (raised e) = s

  unfoldable pub mounts_after : List MountCall → ControlState → ControlState
  mounts_after [] s = s
  mounts_after (c ∷ calls) s = mounts_after calls (written_by s (call_mounts c s))

  written_by-IsIndexed :
      (c : MountCall) (s : ControlState)
      → IsIndexed casefold s
      → IsIndexed casefold (written_by s (call_mounts c s))
  written_by-IsIndexed c s h = known c (call_mounts c s) refl
    where
      known :
          (c : MountCall) (r : Outcome Error (Unit × ControlState))
          → call_mounts c s ≡ r
          → IsIndexed casefold (written_by s r)
      known c (raised e) k = h
      known (MountCall.adds m) (ok (tt, s')) k =
          add-IsIndexed casefold s h m s' (add-IsAdded casefold m s s' k)
      known (MountCall.saves m) (ok (tt, s')) k =
          save-IsIndexed casefold s h m s' (save-IsSaved casefold m s s' k)
      known (MountCall.removes id) (ok (tt, s')) k =
          remove-IsIndexed casefold s h id s' (remove-IsRemoved casefold id s s' k)

  mounts_after-IsIndexed :
      (calls : List MountCall) (s : ControlState)
      → IsIndexed casefold s
      → IsIndexed casefold (mounts_after calls s)
  unfolding mounts_after
  mounts_after-IsIndexed [] s h = h
  mounts_after-IsIndexed (c ∷ calls) s h =
      mounts_after-IsIndexed calls (written_by s (call_mounts c s)) (written_by-IsIndexed c s h)

  empty-IsIndexed : IsIndexed casefold empty_state
  unfolding get_item
  empty-IsIndexed = record { listed = λ id m e. absurd (ground (arith, e)) }

  -- The workspace of a mount, and the key of its alias.
  abbrev pub named_in : WorkspaceMount → Text × Outcome Error Text
  named_in m = (m.risk_workspace_id, mount_alias_key casefold m.alias)

  -- From the empty store, after any sequence of additions, saves and removals of mounts, of which the
  -- ones that raise leave no trace, a source workspace is mounted at most once, and no two mounts of a
  -- risk workspace have aliases with the same key. The index of aliases leads to each mount by its
  -- key.
  pub mounts_distinct :
      (calls : List MountCall) (i j : Text) (m n : WorkspaceMount)
      → get (mounts_after calls empty_state) i ≡ some m
      → get (mounts_after calls empty_state) j ≡ some n
      → i ≢ j
      → (m.source_workspace_id ≢ n.source_workspace_id)
        × (named_in m ≢ named_in n)
        × (a : Text) × (mount_alias_key casefold m.alias ≡ ok a)
        × (get_pair (mounts_after calls empty_state).mounts_by_alias (m.risk_workspace_id, a)
            ≡ some i)
  unfolding get
  mounts_distinct calls i j m n e f apart =
      let h = mounts_after-IsIndexed calls empty_state empty-IsIndexed in
      let o = h.listed i m e in
      let p = h.listed j n f in
      (
        λ q.
            let led = o.by_source in
            let led' : get_item (mounts_after calls empty_state).mounts_by_source_workspace
                  m.source_workspace_id
                ≡ some j =
              rw q p.by_source in
            apart (ground (arith, led, led')),
        λ q.
            let scope : m.risk_workspace_id ≡ n.risk_workspace_id = ap (λ z. z.0) q in
            let keys : mount_alias_key casefold m.alias ≡ mount_alias_key casefold n.alias =
              ap (λ z. z.1) q in
            let a = o.named in
            let b = p.named in
            let alias : o.alias ≡ p.alias = ground (arith, a, b, keys) in
            let led = o.by_alias in
            let led' : get_pair (mounts_after calls empty_state).mounts_by_alias
                  (m.risk_workspace_id, o.alias)
                ≡ some j =
              rw (scope, alias) p.by_alias in
            apart (ground (arith, led, led')),
        o.alias,
        o.named,
        o.by_alias,
      )
