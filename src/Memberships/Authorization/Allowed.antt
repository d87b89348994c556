-- ===== src/Memberships/Authorization/Allowed.antt =====
-- Who is allowed what, and why: core/memberships/authorization.py.
use ip_risk_agent_v.Base.{
  ◌≡◌, ◌↔◌, ◌⊎◌, refl, sym, subst, arith, ◌∙◌, ℕ, ◌≤◌, true, false, Option, none, some, Text,
  text_eq_iff, same_text, ok, IsNormal,
}
use ip_risk_agent_v.Memberships.{Membership, MembershipRole, MembershipStatus, permissions_for}
use ip_risk_agent_v.Memberships.Authorization.{
  VwsAction, AuthorizationDecision, MountOwnership, action_permission, is_provider_authority_action,
  decide_member, authorize_vws_action,
}

-- The roles form a ladder.
abbrev pub rank : MembershipRole → ℕ
rank MembershipRole.viewer = 0
rank MembershipRole.risk_reviewer = 1
rank MembershipRole.source_manager = 2
rank MembershipRole.owner = 3

-- The lowest rank that may do it.
abbrev pub least_rank : VwsAction → ℕ
least_rank VwsAction.vws_view = 0
least_rank VwsAction.risk_view = 0
least_rank VwsAction.mount_status_view = 0
least_rank VwsAction.risk_review = 1
least_rank VwsAction.source_mount = 2
least_rank VwsAction.mount_rename = 2
least_rank VwsAction.mount_source_operation = 2
least_rank VwsAction.mount_reconnect = 2
least_rank VwsAction.mount_scope_manage = 2
least_rank _ = 3

-- Which mount an action needs: one of the workspace, and for some actions one's own.
abbrev pub MountAllows : Text → Text → VwsAction → Option MountOwnership → Type 0
MountAllows actor workspace VwsAction.mount_rename (some m) =
    (m.risk_workspace_id ≡ workspace) × (m.mounted_by_user_id ≡ actor)
MountAllows actor workspace VwsAction.mount_source_operation (some m) =
    (m.risk_workspace_id ≡ workspace) × (m.mounted_by_user_id ≡ actor)
MountAllows actor workspace VwsAction.mount_reconnect (some m) =
    (m.risk_workspace_id ≡ workspace) × (m.mounted_by_user_id ≡ actor)
MountAllows actor workspace VwsAction.mount_scope_manage (some m) =
    (m.risk_workspace_id ≡ workspace) × (m.mounted_by_user_id ≡ actor)
MountAllows actor workspace VwsAction.mount_disable (some m) = m.risk_workspace_id ≡ workspace
MountAllows actor workspace VwsAction.mount_remove (some m) = m.risk_workspace_id ≡ workspace
MountAllows actor workspace VwsAction.mount_status_view (some m) = m.risk_workspace_id ≡ workspace
MountAllows actor workspace VwsAction.mount_rename none = ⊥
MountAllows actor workspace VwsAction.mount_source_operation none = ⊥
MountAllows actor workspace VwsAction.mount_reconnect none = ⊥
MountAllows actor workspace VwsAction.mount_scope_manage none = ⊥
MountAllows actor workspace VwsAction.mount_disable none = ⊥
MountAllows actor workspace VwsAction.mount_remove none = ⊥
MountAllows actor workspace VwsAction.mount_status_view none = ⊥
MountAllows actor workspace _ mount = Unit

-- A credential of a provider is used by nobody but its owner.
abbrev pub CredentialAllows : Text → VwsAction → Option Text → Type 0
CredentialAllows actor action none = Unit
CredentialAllows actor action (some owner) =
    (is_provider_authority_action action ≡ false) ⊎ (owner ≡ actor)

pub record MayAct (actor workspace : Text) (m : Membership) (action : VwsAction)
    (mount : Option MountOwnership) (credential_owner : Option Text) : Type 0 where
  pub member : m.user_id ≡ actor
  pub of_workspace : m.risk_workspace_id ≡ workspace
  pub active : m.status ≡ MembershipStatus.active
  pub rank : least_rank action ≤ rank m.role
  pub of_mount : MountAllows actor workspace action mount
  pub credential : CredentialAllows actor action credential_owner

permission-rank :
    (r : MembershipRole) (a : VwsAction)
    → (permissions_for r (action_permission a) ≡ true) ↔ (least_rank a ≤ rank r)
permission-rank r a = ground arith

pub decide_member-allowed :
    (actor workspace : Text) (m : Membership) (action : VwsAction) (mount : Option MountOwnership)
    (owner : Option Text)
    → ((decide_member actor workspace (some m) action mount owner).allowed ≡ true)
      ↔ MayAct actor workspace m action mount owner
unfolding decide_member same_text
decide_member-allowed actor workspace m action none none =
    ground (arith, text_eq_iff m.user_id actor, text_eq_iff m.risk_workspace_id workspace)
decide_member-allowed actor workspace m action none (some o) = ground (
  arith,
  text_eq_iff m.user_id actor,
  text_eq_iff m.risk_workspace_id workspace,
  text_eq_iff o actor,
)
decide_member-allowed actor workspace m action (some t) none = ground (
  arith,
  text_eq_iff m.user_id actor,
  text_eq_iff m.risk_workspace_id workspace,
  text_eq_iff t.risk_workspace_id workspace,
  text_eq_iff t.mounted_by_user_id actor,
)
decide_member-allowed actor workspace m action (some t) (some o) = ground (
  arith,
  text_eq_iff m.user_id actor,
  text_eq_iff m.risk_workspace_id workspace,
  text_eq_iff t.risk_workspace_id workspace,
  text_eq_iff t.mounted_by_user_id actor,
  text_eq_iff o actor,
)

-- The decision on a membership that is there.
pub authorize_member :
    (actor workspace : Text) (m : Membership) (action : VwsAction) (mount : Option MountOwnership)
    (owner : Option Text)
    → IsNormal actor "actor_user_id"
    → IsNormal workspace "risk_workspace_id"
    → (d : AuthorizationDecision) × (authorize_vws_action actor workspace
          (some m)
          action
          mount
          owner
        ≡ ok d)
      × ((d.allowed ≡ true) ↔ MayAct actor workspace m action mount owner)
unfolding authorize_vws_action
authorize_member actor workspace m action mount owner ha hw = (
  decide_member actor workspace (some m) action mount owner,
  rw (ha, hw) refl,
  decide_member-allowed actor workspace m action mount owner,
)

nobody_allowed :
    (actor workspace : Text) (action : VwsAction) (mount : Option MountOwnership)
    (owner : Option Text)
    → (decide_member actor workspace none action mount owner).allowed ≡ false
unfolding decide_member
nobody_allowed actor workspace action mount owner = refl

-- For an actor and a workspace with normal ids, the decision on what was looked up, a membership or
-- nothing, is made without an error, and it is to allow exactly when there is a membership, it is an
-- active one of the actor in the workspace, its role stands high enough on the ladder of roles, the
-- mount is the right one, and no credential of somebody else is used.
pub authorize_iff :
    (actor workspace : Text) (membership : Option Membership) (action : VwsAction)
    (mount : Option MountOwnership) (owner : Option Text)
    → IsNormal actor "actor_user_id"
    → IsNormal workspace "risk_workspace_id"
    → (d : AuthorizationDecision) × (authorize_vws_action actor workspace membership action mount
          owner
        ≡ ok d)
      × ((d.allowed ≡ true) ↔ (
          (m : Membership) × (membership ≡ some m) × MayAct actor workspace m action mount owner))
unfolding authorize_vws_action
authorize_iff actor workspace none action mount owner ha hw =
    let d = decide_member actor workspace none action mount owner in
    let n = nobody_allowed actor workspace action mount owner in
    (
      d,
      rw (ha, hw) refl,
      (λ a. absurd (ground (arith, a, n)), λ (m, e, k). absurd (ground (arith, e))),
    )
authorize_iff actor workspace (some m) action mount owner ha hw =
    let (d, e, k) = authorize_member actor workspace m action mount owner ha hw in
    (
      d,
      e,
      (
        λ a. (m, refl, k.0 a),
        λ (n, q, may). k.1 (
            subst (λ z. MayAct actor workspace z action mount owner) (sym (ground (arith, q))) may),
      ),
    )

-- With the same mount and credential, a member of a higher role may do all that one of a lower role
-- may do.
pub higher_role_may :
    (actor workspace : Text) (m n : Membership) (action : VwsAction) (mount : Option MountOwnership)
    (owner : Option Text)
    → n.user_id ≡ m.user_id
    → n.risk_workspace_id ≡ m.risk_workspace_id
    → n.status ≡ m.status
    → rank m.role ≤ rank n.role
    → (decide_member actor workspace (some m) action mount owner).allowed ≡ true
    → (decide_member actor workspace (some n) action mount owner).allowed ≡ true
higher_role_may actor workspace m n action mount owner eu ew es le h =
    let k = (decide_member-allowed actor workspace m action mount owner).0 h in
    (decide_member-allowed actor workspace n action mount owner).1 record {
      member = eu ∙ k.member;
      of_workspace = ew ∙ k.of_workspace;
      active = es ∙ k.active;
      rank = omega (arith, le, k.rank);
      of_mount = k.of_mount;
      credential = k.credential;
    }
