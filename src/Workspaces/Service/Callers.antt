-- ===== src/Workspaces/Service/Callers.antt =====
-- What the operations ask of the one who calls them: application/workspace_admin/service.py.
use ip_risk_agent_v.Base.{
  ℕ, ◌≡◌, ◌∙◌, sym, subst, arith, Bool, true, Option, none, some, Text, Datetime, Instant, ok,
  text_eq_iff,
}
use ip_risk_agent_v.Exec.Rules.{
  Ensures, Keeps, keeps_rules, Reads-bind, Ensures-lift, Ensures-after, Ensures-skip, Ensures-fact,
}
use ip_risk_agent_v.Identity.{membership_id_for}
use ip_risk_agent_v.Memberships.{Membership, MembershipRole}
use ip_risk_agent_v.Memberships.Authorization.{
  VwsAction, MountOwnership, AuthorizationDecision, require_authorized,
}
use ip_risk_agent_v.Mounts.Models.{WorkspaceMount, ownership}
use ip_risk_agent_v.Repositories.{ControlState}
use ip_risk_agent_v.Repositories.Mounts as MountTable
use ip_risk_agent_v.Workspaces.LicenseProfile.{Sha256}
use ip_risk_agent_v.Workspaces.Service.{
  require_workspace, require_membership, invite_member, revoke_invitation, change_member_role,
  remove_member, transfer_ownership, request_workspace_deletion,
}
use ip_risk_agent_v.Workspaces.Service.Upkeep.{
  update_workspace, check_mount, membership_and_mount, rename_mount, disable_mount, remove_mount,
}
use ip_risk_agent_v.Workspaces.Service.Owned.{IsAt}
use ip_risk_agent_v.Workspaces.Service.Tables.{require_membership-eq-ok}
use ip_risk_agent_v.Workspaces.Service.Authority.{
  HasAuthority, authorized-HasAuthority, plan_mount_rename-HasAuthority,
  plan_mount_disable-HasAuthority, plan_mount_removal-HasAuthority,
  plan_membership_invitation-HasAuthority, plan_invitation_revocation-HasAuthority,
  plan_role_change-HasAuthority, plan_member_removal-HasAuthority,
  plan_ownership_transfer-HasAuthority, plan_workspace_deletion-HasAuthority,
}

-- The actor has a membership of the workspace, with which the action is allowed.
pub record MayCall (sha : Sha256) (s : ControlState) (workspace_id actor : Text)
    (action : VwsAction) (mount : Option MountOwnership) : Type 0 where
  pub id : Text
  pub member : Membership
  pub identity : membership_id_for sha workspace_id actor ≡ ok id
  pub held : IsAt s.memberships id member
  pub authority : HasAuthority actor member action mount

-- The same, of an action on a mount that is there and of the workspace.
pub record MayCallOn (sha : Sha256) (s : ControlState) (workspace_id actor mount_id : Text)
    (action : VwsAction) : Type 0 where
  pub mount : WorkspaceMount
  pub known : MountTable.get s mount_id ≡ some mount
  pub scope : mount.risk_workspace_id ≡ workspace_id
  pub may : MayCall sha s workspace_id actor action (some (ownership mount))

abbrev pub Is : ControlState → ControlState → Type 0
Is s t = t ≡ s

require_authorized-allowed :
    (d : AuthorizationDecision) → require_authorized d ≡ ok tt → d.allowed ≡ true
unfolding require_authorized
require_authorized-allowed d h = ground (arith, h)

check_mount-eq-ok :
    (workspace_id : Text) (o : Option WorkspaceMount) (mount : WorkspaceMount)
    → check_mount workspace_id o ≡ ok mount
    → (o ≡ some mount) × (mount.risk_workspace_id ≡ workspace_id)
check_mount-eq-ok workspace_id none mount h = absurd (ground (arith, h))
check_mount-eq-ok workspace_id (some m) mount h =
    ground (arith, h, text_eq_iff m.risk_workspace_id workspace_id)

module _ (casefold : Text → Text) (sha : Sha256) (has_user : Text → Bool) (s : ControlState) where
  -- The membership that a call reads first.
  abbrev IsFound : Text → Text → Membership → Type 0
  IsFound workspace_id actor m =
      (id : Text) × (membership_id_for sha workspace_id actor ≡ ok id) × IsAt s.memberships id m

  found :
      (workspace_id actor : Text)
      → Ensures
          (Is s)
          (require_membership casefold sha has_user workspace_id actor)
          (λ m t. Is s t × IsFound workspace_id actor m)
  found workspace_id actor = record {
    at = λ t m t' p h.
        let (same, id, e, a) =
          require_membership-eq-ok casefold sha has_user workspace_id actor t t' m h in
        (same ∙ p, (id, e, subst (λ z. IsAt z.memberships id m) p a));
  }

  may_call :
      (workspace_id actor : Text) (m : Membership) (action : VwsAction)
      (mount : Option MountOwnership)
      → IsFound workspace_id actor m
      → HasAuthority actor m action mount
      → MayCall sha s workspace_id actor action mount
  may_call workspace_id actor m action mount (id, e, a) h = record {
    id = id;
    member = m;
    identity = e;
    held = a;
    authority = h;
  }

  require_workspace-Keeps : (id : Text) → Keeps (Is s) (require_workspace id)
  unfolding require_workspace
  require_workspace-Keeps id = search keeps_rules

  pub invite_member-MayCall :
      (w u e : Text) (r : MembershipRole) (x : Option Instant) (c : Datetime) (a : Text)
      → Ensures
          (Is s)
          (invite_member casefold sha has_user w u e r x c a)
          (λ _ _. MayCall sha s w u VwsAction.member_manage none)
  unfolding invite_member
  invite_member-MayCall w u e r x c a = Reads-bind _ _ _ (found w u) (λ m f.
      Ensures-lift _ _ (λ p k. Ensures-fact _ (
        may_call w u m VwsAction.member_manage none f
          (plan_membership_invitation-HasAuthority u m casefold sha e r c a x p k))))

  pub change_member_role-MayCall :
      (w u v : Text) (r : MembershipRole) (c : Datetime) (a n : Text)
      → Ensures
          (Is s)
          (change_member_role casefold sha has_user w u v r c a n)
          (λ _ _. MayCall sha s w u VwsAction.member_manage none)
  unfolding change_member_role
  change_member_role-MayCall w u v r c a n = Reads-bind _ _ _ (found w u) (λ m f.
      Ensures-skip _ _ (λ t. Ensures-skip _ _ (λ k. Ensures-skip _ _ (λ mounts.
        Ensures-lift _ _ (λ p e. Ensures-fact _ (
          may_call w u m VwsAction.member_manage none f
            (plan_role_change-HasAuthority u m t r c a mounts _ _ p e)))))))

  pub remove_member-MayCall :
      (w u v : Text) (c : Datetime) (a n : Text)
      → Ensures
          (Is s)
          (remove_member casefold sha has_user w u v c a n)
          (λ _ _. MayCall sha s w u VwsAction.member_manage none)
  unfolding remove_member
  remove_member-MayCall w u v c a n = Reads-bind _ _ _ (found w u) (λ m f. Ensures-skip _ _ (λ t.
      Ensures-skip _ _ (λ k. Ensures-skip _ _ (λ mounts. Ensures-lift _ _ (λ p e. Ensures-fact _ (
        may_call w u m VwsAction.member_manage none f
          (plan_member_removal-HasAuthority u m t mounts k.owner_user_id c a _ p e)))))))

  pub revoke_invitation-MayCall :
      (w u i : Text) (c : Datetime) (a : Text)
      → Ensures
          (Is s)
          (revoke_invitation casefold sha has_user w u i c a)
          (λ _ _. MayCall sha s w u VwsAction.member_manage none)
  unfolding revoke_invitation
  revoke_invitation-MayCall w u i c a = Reads-bind _ _ _ (found w u) (λ m f. Ensures-skip _ _ (λ j.
      Ensures-lift _ _ (λ p e. Ensures-fact _ (
        may_call w u m VwsAction.member_manage none f
          (plan_invitation_revocation-HasAuthority u m casefold sha j c a p e)))))

  pub transfer_ownership-MayCall :
      (w u v : Text) (c : Datetime) (a : Text)
      → Ensures
          (Is s)
          (transfer_ownership casefold sha has_user w u v c a)
          (λ _ _. MayCall sha s w u VwsAction.ownership_transfer none)
  unfolding transfer_ownership
  transfer_ownership-MayCall w u v c a = Ensures-after _ _ (require_workspace-Keeps w) (λ k.
      Reads-bind _ _ _ (found w u) (λ m f. Ensures-skip _ _ (λ n. Ensures-lift _ _ (λ p e.
        Ensures-fact _ (
          may_call w u m VwsAction.ownership_transfer none f (
            plan_ownership_transfer-HasAuthority u m k n MembershipRole.source_manager c a p e))))))

  pub request_workspace_deletion-MayCall :
      (w u : Text) (c : Datetime) (a : Text)
      → Ensures
          (Is s)
          (request_workspace_deletion casefold sha has_user w u c a)
          (λ _ _. MayCall sha s w u VwsAction.workspace_delete none)
  unfolding request_workspace_deletion
  request_workspace_deletion-MayCall w u c a = Reads-bind _ _ _ (found w u) (λ m f.
      Ensures-skip _ _ (λ k. Ensures-lift _ _ (λ p e. Ensures-fact _ (
        may_call w u m VwsAction.workspace_delete none f
          (plan_workspace_deletion-HasAuthority u m k c a p e)))))

  pub update_workspace-MayCall :
      (w u : Text) (x : Datetime) (n : Option Text) (d : Option (Option Text)) (c : Datetime)
      (a : Text)
      → Ensures
          (Is s)
          (update_workspace casefold sha has_user w u x n d c a)
          (λ _ _. MayCall sha s w u VwsAction.vws_security_manage none)
  unfolding update_workspace
  update_workspace-MayCall w u x n d c a = Ensures-lift _ _ (λ version _.
      Reads-bind _ _ _ (found w u) (λ m f. Ensures-lift _ _ (λ decision e. Ensures-lift _ _ (λ _ k.
        Ensures-fact _ (
          may_call w u m VwsAction.vws_security_manage none f (
            authorized-HasAuthority u m w VwsAction.vws_security_manage none decision e
              (require_authorized-allowed decision k)))))))

  -- The mount that a call reads after the membership.
  abbrev IsFoundOn : Text → Text → Text → Membership × WorkspaceMount → Type 0
  IsFoundOn workspace_id actor mount_id found =
      IsFound workspace_id actor found.0
      × (MountTable.get s mount_id ≡ some found.1)
      × (found.1.risk_workspace_id ≡ workspace_id)

  found_on :
      (workspace_id actor mount_id : Text)
      → Ensures
          (Is s)
          (membership_and_mount casefold sha has_user workspace_id actor mount_id)
          (λ found t. Is s t × IsFoundOn workspace_id actor mount_id found)
  unfolding membership_and_mount
  found_on workspace_id actor mount_id = Reads-bind _ _ _ (found workspace_id actor) (λ m f.
      Reads-bind _ _ (λ o. MountTable.get s mount_id ≡ o)
        (record {
          at = λ t o t' p h.
              let same : t' ≡ t = ground (arith, h) in
              let read : MountTable.get t mount_id ≡ o = ground (arith, h) in
              (same ∙ p, subst (λ z. MountTable.get z mount_id ≡ o) p read);
        })
        (λ o g. Ensures-lift _ _ (λ mount e.
          let (known, scope) = check_mount-eq-ok workspace_id o mount e in
          record {
            at = λ t r t' p h.
                let same : t ≡ t' = ground (arith, h) in
                let pair : (m, mount) ≡ r = ground (arith, h) in
                (
                  sym same ∙ p,
                  subst (λ z. IsFoundOn workspace_id actor mount_id z) pair (f, g ∙ known, scope),
                );
          })))

  may_call_on :
      (workspace_id actor mount_id : Text) (m : Membership × WorkspaceMount) (action : VwsAction)
      → IsFoundOn workspace_id actor mount_id m
      → HasAuthority actor m.0 action (some (ownership m.1))
      → MayCallOn sha s workspace_id actor mount_id action
  may_call_on workspace_id actor mount_id m action (f, known, scope) h = record {
    mount = m.1;
    known = known;
    scope = scope;
    may = may_call workspace_id actor m.0 action (some (ownership m.1)) f h;
  }

  pub rename_mount-MayCallOn :
      (w u i n : Text) (c : Datetime) (a : Text)
      → Ensures
          (Is s)
          (rename_mount casefold sha has_user w u i n c a)
          (λ _ _. MayCallOn sha s w u i VwsAction.mount_rename)
  unfolding rename_mount
  rename_mount-MayCallOn w u i n c a = Reads-bind _ _ _ (found_on w u i) (λ m f.
      Ensures-lift _ _ (λ p e. Ensures-fact _ (
        may_call_on w u i m VwsAction.mount_rename f
          (plan_mount_rename-HasAuthority u m.0 m.1 n c a p e))))

  pub disable_mount-MayCallOn :
      (w u i : Text) (c : Datetime) (a : Text) (ids : ℕ → Text)
      → Ensures
          (Is s)
          (disable_mount casefold sha has_user w u i c a ids)
          (λ _ _. MayCallOn sha s w u i VwsAction.mount_disable)
  unfolding disable_mount
  disable_mount-MayCallOn w u i c a ids = Reads-bind _ _ _ (found_on w u i) (λ m f.
      Ensures-lift _ _ (λ p e. Ensures-fact _ (
        may_call_on w u i m VwsAction.mount_disable f
          (plan_mount_disable-HasAuthority u m.0 m.1 c a p e))))

  pub remove_mount-MayCallOn :
      (w u i : Text) (c : Datetime) (a : Text) (ids : ℕ → Text)
      → Ensures
          (Is s)
          (remove_mount casefold sha has_user w u i c a ids)
          (λ _ _. MayCallOn sha s w u i VwsAction.mount_remove)
  unfolding remove_mount
  remove_mount-MayCallOn w u i c a ids = Reads-bind _ _ _ (found_on w u i) (λ m f.
      Ensures-lift _ _ (λ p e. Ensures-fact _ (
        may_call_on w u i m VwsAction.mount_remove f
          (plan_mount_removal-HasAuthority u m.0 m.1 c a p e))))
