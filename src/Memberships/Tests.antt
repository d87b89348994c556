-- ===== src/Memberships/Tests.antt =====
-- Runs of the authorization, and the properties at concrete members.
use ip_risk_agent_v.Base.{
  ◌≡◌, ◌↔◌, refl, arith, true, none, some, codes, text_eq, ok, require_non_empty, strip, strip_of,
  lstrip, rstrip, same_text, IsNormal,
}
use ip_risk_agent_v.Memberships.{Membership, MembershipRole, MembershipStatus}
use ip_risk_agent_v.Memberships.Authorization.{
  VwsAction, AuthorizationReason, AuthorizationDecision, MountOwnership, authorize_vws_action,
  decide_member,
}
use ip_risk_agent_v.Memberships.Authorization.Allowed.{MayAct, authorize_iff, higher_role_may}

abbrev member_with : MembershipRole → Membership
member_with role = record {
  id = codes "m1";
  risk_workspace_id = codes "rws";
  user_id = codes "ann";
  role = role;
  status = MembershipStatus.active;
  invited_by = codes "bob";
  created_at = 1;
  updated_at = 2;
}

abbrev own_mount : MountOwnership
own_mount = record { risk_workspace_id = codes "rws"; mounted_by_user_id = codes "ann" }

abbrev mount_of_bob : MountOwnership
mount_of_bob = record { risk_workspace_id = codes "rws"; mounted_by_user_id = codes "bob" }

-- Not even the owner of the workspace reconnects the mount of somebody else.
owner_cannot_reconnect :
    (decide_member
      (codes "ann")
      (codes "rws")
      (some (member_with MembershipRole.owner))
      VwsAction.mount_reconnect
      (some mount_of_bob)
      none).reason
    ≡ AuthorizationReason.mount_ownership_required
unfolding decide_member text_eq
owner_cannot_reconnect = refl

ann-IsNormal : IsNormal (codes "ann") "actor_user_id"
unfolding require_non_empty strip strip_of lstrip rstrip
ann-IsNormal = refl

workspace-IsNormal : IsNormal (codes "rws") "risk_workspace_id"
unfolding require_non_empty strip strip_of lstrip rstrip
workspace-IsNormal = refl

authorize_iff_example :
    (d : AuthorizationDecision) × (authorize_vws_action
        (codes "ann")
        (codes "rws")
        (some (member_with MembershipRole.owner))
        VwsAction.mount_reconnect
        (some own_mount)
        (some (codes "ann"))
      ≡ ok d)
    × ((d.allowed ≡ true) ↔ (
        (m : Membership) × (some (member_with MembershipRole.owner) ≡ some m)
        × MayAct
            (codes "ann")
            (codes "rws")
            m
            VwsAction.mount_reconnect
            (some own_mount)
            (some (codes "ann"))))
authorize_iff_example =
    authorize_iff (codes "ann") (codes "rws") (some (member_with MembershipRole.owner))
      VwsAction.mount_reconnect (some own_mount) (some (codes "ann")) ann-IsNormal
      workspace-IsNormal

manager_reconnects :
    (decide_member
      (codes "ann")
      (codes "rws")
      (some (member_with MembershipRole.source_manager))
      VwsAction.mount_reconnect
      (some own_mount)
      (some (codes "ann"))).allowed
    ≡ true
unfolding decide_member text_eq same_text
manager_reconnects = refl

owner_may_as_admin :
    (decide_member
      (codes "ann")
      (codes "rws")
      (some (member_with MembershipRole.owner))
      VwsAction.mount_reconnect
      (some own_mount)
      (some (codes "ann"))).allowed
    ≡ true
owner_may_as_admin =
    higher_role_may (codes "ann") (codes "rws") (member_with MembershipRole.source_manager)
      (member_with MembershipRole.owner) VwsAction.mount_reconnect (some own_mount)
      (some (codes "ann")) refl refl refl (omega arith) manager_reconnects
