-- ===== src/Workspaces/Service/Permits.antt =====
-- Who may call what: application/workspace_admin/service.py.
use ip_risk_agent_v.Base.{◌≡◌, refl, true, Bool, none, Text, ok}
use ip_risk_agent_v.Exec.{Exec}
use ip_risk_agent_v.Exec.Rules.{Ensures, Ensures-bind}
use ip_risk_agent_v.Memberships.Authorization.{VwsAction}
use ip_risk_agent_v.Repositories.{ControlState}
use ip_risk_agent_v.Workspaces.LicenseProfile.{Sha256}
use ip_risk_agent_v.Workspaces.Service.Runs.{Operation, perform, done}
use ip_risk_agent_v.Workspaces.Service.Guests.{
  MayAccept, accept_invitation-MayAccept, create_workspace-user,
}
use ip_risk_agent_v.Workspaces.Service.Callers.{
  Is, MayCall, MayCallOn, change_member_role-MayCall, disable_mount-MayCallOn,
  invite_member-MayCall, remove_member-MayCall, remove_mount-MayCallOn, rename_mount-MayCallOn,
  request_workspace_deletion-MayCall, revoke_invitation-MayCall, transfer_ownership-MayCall,
  update_workspace-MayCall,
}

-- What an operation demands.
abbrev pub Demands : (Text → Text) → Sha256 → (Text → Bool) → ControlState → Operation → Type 0
Demands fold sha has_user s (Operation.create w o n se r c a d) = has_user o ≡ true
Demands fold sha has_user s (Operation.accept i u e c a) =
    (has_user u ≡ true) × MayAccept fold s i e c
Demands fold sha has_user s (Operation.invite w u e r x c a) =
    MayCall sha s w u VwsAction.member_manage none
Demands fold sha has_user s (Operation.revoke w u i c a) =
    MayCall sha s w u VwsAction.member_manage none
Demands fold sha has_user s (Operation.change_role w u v r c a n) =
    MayCall sha s w u VwsAction.member_manage none
Demands fold sha has_user s (Operation.remove w u v c a n) =
    MayCall sha s w u VwsAction.member_manage none
Demands fold sha has_user s (Operation.hand_over w u v c a) =
    MayCall sha s w u VwsAction.ownership_transfer none
Demands fold sha has_user s (Operation.request_deletion w u c a) =
    MayCall sha s w u VwsAction.workspace_delete none
Demands fold sha has_user s (Operation.update w u x n d c a) =
    MayCall sha s w u VwsAction.vws_security_manage none
Demands fold sha has_user s (Operation.rename w u m n c a) =
    MayCallOn sha s w u m VwsAction.mount_rename
Demands fold sha has_user s (Operation.disable w u m c a ids) =
    MayCallOn sha s w u m VwsAction.mount_disable
Demands fold sha has_user s (Operation.unmount w u m c a ids) =
    MayCallOn sha s w u m VwsAction.mount_remove

module _ (casefold : Text → Text) (sha : Sha256) (has_user : Text → Bool) (s : ControlState) where
  done-Demands :
      {A : Type 0} {C : Type 0} (m : Exec ControlState A)
      → Ensures (Is s) m (λ _ _. C)
      → Ensures (Is s) (done m) (λ _ _. C)
  done-Demands m k = Ensures-bind m _ (λ _ _. _) _ k (λ a. record { at = λ t b t' p h. p })

  perform-Demands :
      (op : Operation)
      → Ensures
          (Is s)
          (perform casefold sha has_user op)
          (λ _ _. Demands casefold sha has_user s op)
  unfolding perform
  perform-Demands (Operation.create w o n se r c a d) =
      done-Demands _ (create_workspace-user casefold sha has_user s w o n se r c a d)
  perform-Demands (Operation.accept i u e c a) =
      done-Demands _ (accept_invitation-MayAccept casefold sha has_user s i u e c a)
  perform-Demands (Operation.invite w u e r x c a) =
      done-Demands _ (invite_member-MayCall casefold sha has_user s w u e r x c a)
  perform-Demands (Operation.revoke w u i c a) =
      done-Demands _ (revoke_invitation-MayCall casefold sha has_user s w u i c a)
  perform-Demands (Operation.change_role w u v r c a n) =
      done-Demands _ (change_member_role-MayCall casefold sha has_user s w u v r c a n)
  perform-Demands (Operation.remove w u v c a n) =
      done-Demands _ (remove_member-MayCall casefold sha has_user s w u v c a n)
  perform-Demands (Operation.hand_over w u v c a) =
      done-Demands _ (transfer_ownership-MayCall casefold sha has_user s w u v c a)
  perform-Demands (Operation.request_deletion w u c a) =
      done-Demands _ (request_workspace_deletion-MayCall casefold sha has_user s w u c a)
  perform-Demands (Operation.update w u x n d c a) =
      done-Demands _ (update_workspace-MayCall casefold sha has_user s w u x n d c a)
  perform-Demands (Operation.rename w u m n c a) =
      done-Demands _ (rename_mount-MayCallOn casefold sha has_user s w u m n c a)
  perform-Demands (Operation.disable w u m c a ids) =
      done-Demands _ (disable_mount-MayCallOn casefold sha has_user s w u m c a ids)
  perform-Demands (Operation.unmount w u m c a ids) =
      done-Demands _ (remove_mount-MayCallOn casefold sha has_user s w u m c a ids)

  -- A call of the workspace service that returns was permitted. One who creates a workspace or accepts
  -- an invitation is a known user, and the invitation is there and pending, goes to the address that
  -- was verified, and has not expired. For all else the actor has an active membership of the workspace
  -- that the call names, and its role allows the action: to invite, revoke, remove and change the role
  -- of members, to hand the workspace over, to delete it, to change its settings, to rename a mount of
  -- one's own, or to disable or remove a mount. The mount of a call is there, and is one of that
  -- workspace.
  pub perform_permitted :
      (op : Operation) (t : ControlState)
      → perform casefold sha has_user op s ≡ ok (tt, t)
      → Demands casefold sha has_user s op
  perform_permitted op t h = (perform-Demands op).at s tt t refl h
