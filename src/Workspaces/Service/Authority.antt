-- ===== src/Workspaces/Service/Authority.antt =====
-- Who a plan was made for: core/workspaces/services.py, core/mounts/services.py and
-- core/memberships/authorization.py.
use ip_risk_agent_v.Base.{
  ◌≡◌, sym, subst, arith, true, Option, none, some, List, Text, Datetime, Instant,
  require_non_empty, Outcome-cases, ok, inl, inr,
}
use ip_risk_agent_v.Memberships.{Membership, MembershipRole}
use ip_risk_agent_v.Memberships.Invitations.{MembershipInvitation}
use ip_risk_agent_v.Memberships.Authorization.{
  VwsAction, AuthorizationDecision, MountOwnership, authorize_vws_action, decide_member,
  require_authorized,
}
use ip_risk_agent_v.Memberships.Authorization.Allowed.{MayAct, decide_member-allowed}
use ip_risk_agent_v.Mounts.Models.{WorkspaceMount, ownership}
use ip_risk_agent_v.Mounts.Plans.{
  MountMutationPlan, MountRemovalPlan, authorize, plan_mount_rename, plan_mount_disable,
  plan_mount_removal,
}
use ip_risk_agent_v.Workspaces.LicenseProfile.{Sha256}
use ip_risk_agent_v.Workspaces.Models.{RiskWorkspace}
use ip_risk_agent_v.Workspaces.Ownership.{
  OwnershipTransferPlan, WorkspaceDeletionPlan, plan_ownership_transfer, plan_workspace_deletion,
}
use ip_risk_agent_v.Workspaces.Invitations.{
  InvitationPlan, InvitationRevocationPlan, require_member_manager, plan_membership_invitation,
  plan_invitation_revocation,
}
use ip_risk_agent_v.Workspaces.Members.{
  RoleChangePlan, MemberRemovalPlan, check_role_change, plan_role_change, check_member_removal,
  plan_member_removal,
}

-- The membership is the actor's, and allows the action.
pub record HasAuthority (actor : Text) (m : Membership) (action : VwsAction)
    (mount : Option MountOwnership) : Type 0 where
  pub user : require_non_empty actor "actor_user_id" ≡ ok m.user_id
  pub may : MayAct m.user_id m.risk_workspace_id m action mount none

module _ (actor : Text) (m : Membership) where
  decided-HasAuthority :
      (a w : Text) (action : VwsAction) (mount : Option MountOwnership)
      → require_non_empty actor "actor_user_id" ≡ ok a
      → MayAct a w m action mount none
      → HasAuthority actor m action mount
  decided-HasAuthority a w action mount e k = record {
    user = subst (λ z. require_non_empty actor "actor_user_id" ≡ ok z) (sym k.member) e;
    may =
        subst (λ z. MayAct z m.risk_workspace_id m action mount none) (sym k.member)
          (subst (λ z. MayAct a z m action mount none) (sym k.of_workspace) k);
  }

  pub authorized-HasAuthority :
      (workspace : Text) (action : VwsAction) (mount : Option MountOwnership)
      (d : AuthorizationDecision)
      → authorize_vws_action actor workspace (some m) action mount none ≡ ok d
      → d.allowed ≡ true
      → HasAuthority actor m action mount
  unfolding authorize_vws_action
  authorized-HasAuthority workspace action mount d e k =
      elim (Outcome-cases (require_non_empty actor "actor_user_id")) [
        | inl (a, f) ↦ elim (Outcome-cases (require_non_empty workspace "risk_workspace_id")) [
          | inl (w, g) ↦
              let same : decide_member a w (some m) action mount none ≡ d =
                ground (arith, e, f, g) in
              decided-HasAuthority a w action mount f (
                (decide_member-allowed a w m action mount none).0
                  (subst (λ z. z.allowed ≡ true) (sym same) k))
          | inr (x, g) ↦ absurd (ground (arith, e, f, g))
        ]
        | inr (x, f) ↦ absurd (ground (arith, e, f))
      ]

  pub require_member_manager-HasAuthority :
      (workspace : Text)
      → require_member_manager actor workspace m ≡ ok tt
      → HasAuthority actor m VwsAction.member_manage none
  unfolding require_authorized
  require_member_manager-HasAuthority workspace h =
      elim (Outcome-cases
        (authorize_vws_action actor workspace (some m) VwsAction.member_manage none none)) [
          | inl (d, e) ↦
              authorized-HasAuthority workspace VwsAction.member_manage none d e
                (ground (arith, h, e))
          | inr (x, e) ↦ absurd (ground (arith, h, e))
        ]

  pub authorize-HasAuthority :
      (action : VwsAction) (mount : WorkspaceMount)
      → authorize actor m action mount ≡ ok tt
      → HasAuthority actor m action (some (ownership mount))
  unfolding require_authorized
  authorize-HasAuthority action mount h =
      elim (Outcome-cases (
        authorize_vws_action actor m.risk_workspace_id (some m) action (some (ownership mount))
          none)) [
            | inl (d, e) ↦
                authorized-HasAuthority m.risk_workspace_id action (some (ownership mount)) d e
                  (ground (arith, h, e))
            | inr (x, e) ↦ absurd (ground (arith, h, e))
          ]

  pub plan_mount_rename-HasAuthority :
      (mount : WorkspaceMount) (alias : Text) (clock : Datetime) (id : Text) (p : MountMutationPlan)
      → plan_mount_rename actor m mount alias clock id ≡ ok p
      → HasAuthority actor m VwsAction.mount_rename (some (ownership mount))
  unfolding plan_mount_rename
  plan_mount_rename-HasAuthority mount alias clock id p h =
      authorize-HasAuthority VwsAction.mount_rename mount (ground (arith, h))

  pub plan_mount_disable-HasAuthority :
      (mount : WorkspaceMount) (clock : Datetime) (id : Text) (p : MountMutationPlan)
      → plan_mount_disable actor m mount clock id ≡ ok p
      → HasAuthority actor m VwsAction.mount_disable (some (ownership mount))
  unfolding plan_mount_disable
  plan_mount_disable-HasAuthority mount clock id p h =
      authorize-HasAuthority VwsAction.mount_disable mount (ground (arith, h))

  pub plan_mount_removal-HasAuthority :
      (mount : WorkspaceMount) (clock : Datetime) (id : Text) (p : MountRemovalPlan)
      → plan_mount_removal actor m mount clock id ≡ ok p
      → HasAuthority actor m VwsAction.mount_remove (some (ownership mount))
  unfolding plan_mount_removal
  plan_mount_removal-HasAuthority mount clock id p h =
      authorize-HasAuthority VwsAction.mount_remove mount (ground (arith, h))

  pub plan_membership_invitation-HasAuthority :
      (casefold : Text → Text) (sha : Sha256) (email : Text) (role : MembershipRole)
      (clock : Datetime) (id : Text) (expires : Option Instant) (p : InvitationPlan)
      → plan_membership_invitation casefold sha actor m email role clock id expires ≡ ok p
      → HasAuthority actor m VwsAction.member_manage none
  unfolding plan_membership_invitation
  plan_membership_invitation-HasAuthority casefold sha email role clock id expires p h =
      require_member_manager-HasAuthority m.risk_workspace_id (ground (arith, h))

  pub plan_invitation_revocation-HasAuthority :
      (casefold : Text → Text) (sha : Sha256) (i : MembershipInvitation) (clock : Datetime)
      (id : Text) (p : InvitationRevocationPlan)
      → plan_invitation_revocation casefold sha actor m i clock id ≡ ok p
      → HasAuthority actor m VwsAction.member_manage none
  unfolding plan_invitation_revocation
  plan_invitation_revocation-HasAuthority casefold sha i clock id p h =
      require_member_manager-HasAuthority i.risk_workspace_id (ground (arith, h))

  pub plan_role_change-HasAuthority :
      (target : Membership) (role : MembershipRole) (clock : Datetime) (id : Text)
      (ms : List WorkspaceMount) (owner notice : Option Text) (p : RoleChangePlan)
      → plan_role_change actor m target role clock id ms owner notice ≡ ok p
      → HasAuthority actor m VwsAction.member_manage none
  unfolding plan_role_change check_role_change
  plan_role_change-HasAuthority target role clock id ms owner notice p h =
      require_member_manager-HasAuthority m.risk_workspace_id (ground (arith, h))

  pub plan_member_removal-HasAuthority :
      (target : Membership) (ms : List WorkspaceMount) (owner : Text) (clock : Datetime) (id : Text)
      (notice : Option Text) (p : MemberRemovalPlan)
      → plan_member_removal actor m target ms owner clock id notice ≡ ok p
      → HasAuthority actor m VwsAction.member_manage none
  unfolding plan_member_removal check_member_removal
  plan_member_removal-HasAuthority target ms owner clock id notice p h =
      require_member_manager-HasAuthority m.risk_workspace_id (ground (arith, h))

  pub plan_ownership_transfer-HasAuthority :
      (w : RiskWorkspace) (next : Membership) (role : MembershipRole) (clock : Datetime) (id : Text)
      (p : OwnershipTransferPlan)
      → plan_ownership_transfer actor w m next role clock id ≡ ok p
      → HasAuthority actor m VwsAction.ownership_transfer none
  unfolding plan_ownership_transfer require_authorized
  plan_ownership_transfer-HasAuthority w next role clock id p h =
      elim (Outcome-cases
        (authorize_vws_action actor w.id (some m) VwsAction.ownership_transfer none none)) [
          | inl (d, e) ↦
              authorized-HasAuthority w.id VwsAction.ownership_transfer none d e
                (ground (arith, h, e))
          | inr (x, e) ↦ absurd (ground (arith, h, e))
        ]

  pub plan_workspace_deletion-HasAuthority :
      (w : RiskWorkspace) (clock : Datetime) (id : Text) (p : WorkspaceDeletionPlan)
      → plan_workspace_deletion actor m w clock id ≡ ok p
      → HasAuthority actor m VwsAction.workspace_delete none
  unfolding plan_workspace_deletion require_authorized
  plan_workspace_deletion-HasAuthority w clock id p h =
      elim (Outcome-cases
        (authorize_vws_action actor w.id (some m) VwsAction.workspace_delete none none)) [
          | inl (d, e) ↦
              authorized-HasAuthority w.id VwsAction.workspace_delete none d e
                (ground (arith, h, e))
          | inr (x, e) ↦ absurd (ground (arith, h, e))
        ]
