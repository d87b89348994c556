-- ===== src/Workspaces/Service/Runs.antt =====
-- Any sequence of operations: application/workspace_admin/service.py, on the store that
-- application/repositories/in_memory.py starts with.
use ip_risk_agent_v.Base.{
  ℕ, ◌≡◌, ◌∙◌, refl, sym, ap, arith, Bool, Option, some, List, [], ◌∷◌, Text, get_item, Dict,
  Datetime, Instant, Outcome, ok, raised, Error,
}
use ip_risk_agent_v.Exec.{Exec, pure, ◌>>◌}
use ip_risk_agent_v.Exec.Rules.{Keeps-pure, Ensures-bind}
use ip_risk_agent_v.Memberships.{Membership, MembershipRole, MembershipStatus}
use ip_risk_agent_v.Workspaces.LicenseProfile.{Sha256}
use ip_risk_agent_v.Workspaces.Models.{RiskWorkspace}
use ip_risk_agent_v.Repositories.{ControlState, MembershipRecord, empty_state}
use ip_risk_agent_v.Repositories.Workspaces as WorkspaceTable
use ip_risk_agent_v.Workspaces.Service.{
  create_workspace, invite_member, accept_invitation, revoke_invitation, change_member_role,
  remove_member, transfer_ownership, request_workspace_deletion,
}
use ip_risk_agent_v.Workspaces.Service.Upkeep.{
  update_workspace, rename_mount, disable_mount, remove_mount,
}
use ip_risk_agent_v.Workspaces.Service.Owned.{IsAt, IsOwned, Owned, headed-role, same_member}
use ip_risk_agent_v.Workspaces.Service.Lasting.{Stays, Stays-refl, Stays-trans}
use ip_risk_agent_v.Workspaces.Service.Steps.{
  Settles, change_member_role-Settles, remove_member-Settles, revoke_invitation-Settles,
  invite_member-Settles, accept_invitation-Settles,
}
use ip_risk_agent_v.Workspaces.Service.OwnerSteps.{
  transfer_ownership-Settles, create_workspace-Settles, request_workspace_deletion-Settles,
  update_workspace-Settles, rename_mount-Settles, disable_mount-Settles, remove_mount-Settles,
}

-- A call of the service, with its arguments in their order.
pub data Operation : Type 0 where
  create : Text → Text → Text → Text → Text → Datetime → Text → Option Text → Operation
  invite : Text → Text → Text → MembershipRole → Option Instant → Datetime → Text → Operation
  accept : Text → Text → Text → Datetime → Text → Operation
  revoke : Text → Text → Text → Datetime → Text → Operation
  change_role : Text → Text → Text → MembershipRole → Datetime → Text → Text → Operation
  hand_over : Text → Text → Text → Datetime → Text → Operation
  remove : Text → Text → Text → Datetime → Text → Text → Operation
  request_deletion : Text → Text → Datetime → Text → Operation
  update : Text → Text → Datetime → Option Text → Option (Option Text) → Datetime → Text → Operation
  rename : Text → Text → Text → Text → Datetime → Text → Operation
  disable : Text → Text → Text → Datetime → Text → (ℕ → Text) → Operation
  unmount : Text → Text → Text → Datetime → Text → (ℕ → Text) → Operation

-- The result of an operation is dropped.
abbrev pub done : {A : Type 0} → Exec ControlState A → Exec ControlState (Unit {0})
done m = m >> pure tt

-- What is left of a state: what was written, or nothing of it after an error.
abbrev left_by : {A : Type 0} → ControlState → Outcome Error (A × ControlState) → ControlState
left_by s (ok (a, s')) = s'
left_by s (raised e) = s

module _ (casefold : Text → Text) (sha : Sha256) where
  unfoldable pub perform : (Text → Bool) → Operation → Exec ControlState (Unit {0})
  perform has_user (Operation.create w o n s r c a d) =
      done (create_workspace casefold sha has_user w o n s r c a d)
  perform has_user (Operation.invite w u e r x c a) =
      done (invite_member casefold sha has_user w u e r x c a)
  perform has_user (Operation.accept i u e c a) =
      done (accept_invitation casefold sha has_user i u e c a)
  perform has_user (Operation.revoke w u i c a) =
      done (revoke_invitation casefold sha has_user w u i c a)
  perform has_user (Operation.change_role w u v r c a n) =
      done (change_member_role casefold sha has_user w u v r c a n)
  perform has_user (Operation.hand_over w u v c a) =
      done (transfer_ownership casefold sha has_user w u v c a)
  perform has_user (Operation.remove w u v c a n) =
      done (remove_member casefold sha has_user w u v c a n)
  perform has_user (Operation.request_deletion w u c a) =
      done (request_workspace_deletion casefold sha has_user w u c a)
  perform has_user (Operation.update w u x n d c a) =
      done (update_workspace casefold sha has_user w u x n d c a)
  perform has_user (Operation.rename w u m n c a) =
      done (rename_mount casefold sha has_user w u m n c a)
  perform has_user (Operation.disable w u m c a ids) =
      done (disable_mount casefold sha has_user w u m c a ids)
  perform has_user (Operation.unmount w u m c a ids) =
      done (remove_mount casefold sha has_user w u m c a ids)

  -- One call after the other, each with the users that there are when it is made.
  unfoldable pub run : List ((Text → Bool) × Operation) → ControlState → ControlState
  unfolding perform
  run [] s = s
  run ((has_user, op) ∷ ops) s = run ops (left_by s (perform has_user op s))

-- One membership is the owner's: it is active, of the user that the workspace names, and no other
-- membership of the workspace has the role.
pub record HasSoleOwner (s : ControlState) (k : Text) (w : RiskWorkspace) : Type 0 where
  pub id : Text
  pub owner : Membership
  pub held : IsAt s.memberships id owner
  pub scope : owner.risk_workspace_id ≡ k
  pub user : owner.user_id ≡ w.owner_user_id
  pub role : owner.role ≡ MembershipRole.owner
  pub status : owner.status ≡ MembershipStatus.active
  pub sole :
      (j : Text) (m : Membership)
      → IsAt s.memberships j m
      → m.risk_workspace_id ≡ k
      → m.role ≡ MembershipRole.owner
      → j ≡ id

module _ (casefold : Text → Text) (sha : Sha256) where
  done-Settles :
      {A : Type 0} {ws : Dict RiskWorkspace} {ms : Dict MembershipRecord} (m : Exec ControlState A)
      → Settles sha ws ms m
      → Settles sha ws ms (done m)
  done-Settles m k = Ensures-bind m _ _ _ k (λ _. Keeps-pure tt)

  perform-Settles :
      (has_user : Text → Bool) (op : Operation) {ws : Dict RiskWorkspace}
      {ms : Dict MembershipRecord}
      → IsOwned sha ws ms
      → Settles sha ws ms (perform casefold sha has_user op)
  unfolding perform
  perform-Settles has_user (Operation.create w o n s r c a d) h =
      done-Settles _ (create_workspace-Settles casefold sha has_user h w o n s r c a d)
  perform-Settles has_user (Operation.invite w u e r x c a) h =
      done-Settles _ (invite_member-Settles casefold sha has_user h w u e r x c a)
  perform-Settles has_user (Operation.accept i u e c a) h =
      done-Settles _ (accept_invitation-Settles casefold sha has_user h i u e c a)
  perform-Settles has_user (Operation.revoke w u i c a) h =
      done-Settles _ (revoke_invitation-Settles casefold sha has_user h w u i c a)
  perform-Settles has_user (Operation.change_role w u v r c a n) h =
      done-Settles _ (change_member_role-Settles casefold sha has_user h w u v r c a n)
  perform-Settles has_user (Operation.hand_over w u v c a) h =
      done-Settles _ (transfer_ownership-Settles casefold sha has_user h w u v c a)
  perform-Settles has_user (Operation.remove w u v c a n) h =
      done-Settles _ (remove_member-Settles casefold sha has_user h w u v c a n)
  perform-Settles has_user (Operation.request_deletion w u c a) h =
      done-Settles _ (request_workspace_deletion-Settles casefold sha has_user h w u c a)
  perform-Settles has_user (Operation.update w u x n d c a) h =
      done-Settles _ (update_workspace-Settles casefold sha has_user h w u x n d c a)
  perform-Settles has_user (Operation.rename w u m n c a) h =
      done-Settles _ (rename_mount-Settles casefold sha has_user h w u m n c a)
  perform-Settles has_user (Operation.disable w u m c a ids) h =
      done-Settles _ (disable_mount-Settles casefold sha has_user h w u m c a ids)
  perform-Settles has_user (Operation.unmount w u m c a ids) h =
      done-Settles _ (remove_mount-Settles casefold sha has_user h w u m c a ids)

  left_by-Owned :
      (has_user : Text → Bool) (op : Operation) (s : ControlState)
      → Owned sha s
      → let s' = left_by s (perform casefold sha has_user op s) in
        Owned sha s' × Stays s.memberships s'.memberships
  left_by-Owned has_user op s h = known (perform casefold sha has_user op s) refl
    where
      known :
          (r : Outcome Error (Unit × ControlState))
          → perform casefold sha has_user op s ≡ r
          → Owned sha (left_by s r) × Stays s.memberships (left_by s r).memberships
      known (ok (a, s')) e = (perform-Settles has_user op h).at s a s' (refl, refl) e
      known (raised x) e = (h, Stays-refl s.memberships)

  pub run-Owned :
      (ops : List ((Text → Bool) × Operation)) (s : ControlState)
      → Owned sha s
      → Owned sha (run casefold sha ops s)
  unfolding run
  run-Owned [] s h = h
  run-Owned ((has_user, op) ∷ ops) s h =
      run-Owned ops (left_by s (perform casefold sha has_user op s))
        (left_by-Owned has_user op s h).0

  -- However many calls are made, where there was a membership there is one.
  pub run-Stays :
      (ops : List ((Text → Bool) × Operation)) (s : ControlState)
      → Owned sha s
      → Stays s.memberships (run casefold sha ops s).memberships
  unfolding run
  run-Stays [] s h = Stays-refl s.memberships
  run-Stays ((has_user, op) ∷ ops) s h =
      let (owned, stays) = left_by-Owned has_user op s h in
      Stays-trans stays (run-Stays ops (left_by s (perform casefold sha has_user op s)) owned)

  pub empty-Owned : Owned sha empty_state
  unfolding get_item
  empty-Owned = record {
    named = λ k w e. absurd (ground (arith, e));
    member = λ id m e. absurd (ground (arith, e));
    invitation = λ id i e. absurd (ground (arith, e));
    headed = λ k w e. absurd (ground (arith, e));
  }

  Owned-HasSoleOwner :
      (s : ControlState) (k : Text) (w : RiskWorkspace)
      → Owned sha s
      → get_item s.workspaces k ≡ some w
      → HasSoleOwner s k w
  Owned-HasSoleOwner s k w h e =
      let (id, m, a, b, c, d) = h.headed k w e in
      record {
        id = id;
        owner = m;
        held = a;
        scope = b;
        user = c;
        role = headed-role sha s.workspaces s.memberships h id k m w a b c e;
        status = d;
        sole = λ j n f g r.
            let o = h.member j n f in
            let there : get_item s.workspaces k ≡ some o.workspace = rw (← g) o.known in
            let same : o.workspace ≡ w = ground (arith, e, there) in
            same_member sha s.workspaces s.memberships h j id n m f a (g ∙ sym b)
              (o.owns.0 r ∙ (ap (λ z. z.owner_user_id) same ∙ sym c));
      }

  -- From the empty store, after any sequence of calls of the workspace service, every workspace that
  -- is there has exactly one owner. The membership of the user that the workspace names is there,
  -- active and with the role of owner, and no other membership of the workspace has that role. A
  -- call that raises leaves the store as it was.
  pub run-HasSoleOwner :
      (ops : List ((Text → Bool) × Operation)) (k : Text) (w : RiskWorkspace)
      → WorkspaceTable.get (run casefold sha ops empty_state) k ≡ some w
      → HasSoleOwner (run casefold sha ops empty_state) k w
  unfolding WorkspaceTable.get
  run-HasSoleOwner ops k w e =
      Owned-HasSoleOwner (run casefold sha ops empty_state) k w
        (run-Owned ops empty_state empty-Owned) e
