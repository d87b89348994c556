-- ===== src/Workspaces/Service/Changes.antt =====
-- What the plans that change members make of a membership: core/workspaces/services.py.
use ip_risk_agent_v.Base.{
  ◌≡◌, ◌≢◌, ◌∙◌, sym, arith, Option, List, Text, text_eq_iff, Datetime, naive, aware, Instant,
  IsNormal, ok,
}
use ip_risk_agent_v.Memberships.{Membership, MembershipRole, MembershipStatus}
use ip_risk_agent_v.Memberships
use ip_risk_agent_v.Memberships.Validity.{IsValid, post_init-IsValid}
use ip_risk_agent_v.Mounts.Models.{WorkspaceMount}
use ip_risk_agent_v.Workspaces.Models.{RiskWorkspace}
use ip_risk_agent_v.Workspaces.Models
use ip_risk_agent_v.Workspaces.Ownership.{OwnershipTransferPlan, transfer, plan_ownership_transfer}
use ip_risk_agent_v.Workspaces.Ownership.Changes.{
  Transferred, plan_ownership_transfer-Transferred, plan_ownership_transfer-checked, transfer-made,
}
use ip_risk_agent_v.Workspaces.Members.{
  RoleChangePlan, MemberRemovalPlan, check_role_change, plan_role_change, check_member_removal,
  plan_member_removal,
}
use ip_risk_agent_v.Workspaces.Service.Handover.{IsSame}

-- The constructor keeps a membership whose texts need no stripping.
pub post_init-IsSame :
    (m n : Membership)
    → IsNormal m.id "membership.id"
    → IsNormal m.risk_workspace_id "membership.risk_workspace_id"
    → IsNormal m.user_id "membership.user_id"
    → Memberships.post_init m ≡ ok n
    → IsSame m n × (n.role ≡ m.role) × (n.status ≡ m.status)
unfolding Memberships.post_init
post_init-IsSame m n a b c h =
    let v = post_init-IsValid m n h in
    (
      record {
        valid = v;
        id = ground (arith, h, a, b, c);
        scope = ground (arith, h, a, b, c);
        user = ground (arith, h, a, b, c);
      },
      ground (arith, h),
      ground (arith, h),
    )

-- A membership before and after a change that leaves ownership alone.
pub record IsPlainChange (m n : Membership) : Type 0 where
  pub same : IsSame m n
  pub before : m.role ≢ MembershipRole.owner
  pub after : n.role ≢ MembershipRole.owner

role_change-parts :
    (actor : Text) (am target : Membership) (role : MembershipRole) (t : Instant) (id : Text)
    (ms : List WorkspaceMount) (owner notice : Option Text) (p : RoleChangePlan)
    → plan_role_change actor am target role (aware t) id ms owner notice ≡ ok p
    → (check_role_change actor am target role ms ≡ ok tt)
      × (Memberships.post_init record target { role = role; updated_at = t } ≡ ok p.membership)
unfolding plan_role_change
role_change-parts actor am target role t id ms owner notice p h = ground (arith, h)

check_role_change-roles :
    (actor : Text) (am target : Membership) (role : MembershipRole) (ms : List WorkspaceMount)
    → check_role_change actor am target role ms ≡ ok tt
    → (target.role ≢ MembershipRole.owner) × (role ≢ MembershipRole.owner)
unfolding check_role_change
check_role_change-roles actor am target role ms h = ground (arith, h)

pub plan_role_change-IsPlainChange :
    (actor : Text) (am target : Membership) (role : MembershipRole) (clock : Datetime) (id : Text)
    (ms : List WorkspaceMount) (owner notice : Option Text) (p : RoleChangePlan)
    → IsValid target
    → plan_role_change actor am target role clock id ms owner notice ≡ ok p
    → IsPlainChange target p.membership
unfolding plan_role_change
plan_role_change-IsPlainChange actor am target role (naive t) id ms owner notice p v h =
    absurd (ground (arith, h))
plan_role_change-IsPlainChange actor am target role (aware t) id ms owner notice p v h =
    let (c, k) = role_change-parts actor am target role t id ms owner notice p h in
    let (before, after) = check_role_change-roles actor am target role ms c in
    let m : Membership = record target { role = role; updated_at = t } in
    let (s, r, _) = post_init-IsSame m p.membership v.id v.risk_workspace_id v.user_id k in
    record {
      same = record { valid = s.valid; id = s.id; scope = s.scope; user = s.user };
      before = before;
      after = λ e. after (sym r ∙ e);
    }

removal-parts :
    (actor : Text) (am target : Membership) (t : Instant) (id : Text) (ms : List WorkspaceMount)
    (owner : Text) (notice : Option Text) (p : MemberRemovalPlan)
    → plan_member_removal actor am target ms owner (aware t) id notice ≡ ok p
    → (check_member_removal actor am target ms owner ≡ ok tt)
      × (Memberships.post_init record target { status = MembershipStatus.removed; updated_at = t }
          ≡ ok p.membership)
unfolding plan_member_removal
removal-parts actor am target t id ms owner notice p h = ground (arith, h)

check_member_removal-role :
    (actor : Text) (am target : Membership) (ms : List WorkspaceMount) (owner : Text)
    → check_member_removal actor am target ms owner ≡ ok tt
    → target.role ≢ MembershipRole.owner
unfolding check_member_removal
check_member_removal-role actor am target ms owner h = ground (arith, h)

pub plan_member_removal-IsPlainChange :
    (actor : Text) (am target : Membership) (ms : List WorkspaceMount) (owner : Text)
    (clock : Datetime) (id : Text) (notice : Option Text) (p : MemberRemovalPlan)
    → IsValid target
    → plan_member_removal actor am target ms owner clock id notice ≡ ok p
    → IsPlainChange target p.membership
unfolding plan_member_removal
plan_member_removal-IsPlainChange actor am target ms owner (naive t) id notice p v h =
    absurd (ground (arith, h))
plan_member_removal-IsPlainChange actor am target ms owner (aware t) id notice p v h =
    let (c, k) = removal-parts actor am target t id ms owner notice p h in
    let before = check_member_removal-role actor am target ms owner c in
    let m : Membership = record target { status = MembershipStatus.removed; updated_at = t } in
    let (s, r, _) = post_init-IsSame m p.membership v.id v.risk_workspace_id v.user_id k in
    record {
      same = record { valid = s.valid; id = s.id; scope = s.scope; user = s.user };
      before = before;
      after = λ e. before (sym r ∙ e);
    }

-- What a transfer leaves of its workspace and its two memberships.
pub record IsHandover (w : RiskWorkspace) (previous next : Membership) (p : OwnershipTransferPlan)
    : Type 0 where
  pub made : Transferred w previous next p
  pub workspace : p.workspace.id ≡ w.id
  pub former : IsSame previous p.previous_owner_membership
  pub latter : IsSame next p.new_owner_membership
  pub scopes : previous.risk_workspace_id ≡ next.risk_workspace_id
  pub scope : w.id ≡ previous.risk_workspace_id

-- The constructor keeps an id that needs no stripping.
pub post_init-id :
    (w x : RiskWorkspace)
    → IsNormal w.id "risk_workspace.id"
    → Models.post_init w ≡ ok x
    → x.id ≡ w.id
unfolding Models.post_init
post_init-id w x n h = ground (arith, n, h)

transfer-scopes :
    (actor : Text) (w : RiskWorkspace) (previous next : Membership) (role : MembershipRole)
    (clock : Datetime) (id : Text) (p : OwnershipTransferPlan)
    → plan_ownership_transfer actor w previous next role clock id ≡ ok p
    → (previous.risk_workspace_id ≡ next.risk_workspace_id) × (w.id ≡ previous.risk_workspace_id)
unfolding plan_ownership_transfer
transfer-scopes actor w previous next role clock id p h = ground (
  arith,
  h,
  text_eq_iff previous.risk_workspace_id next.risk_workspace_id,
  text_eq_iff w.id previous.risk_workspace_id,
)

handed_over-IsHandover :
    (actor : Text) (w : RiskWorkspace) (previous next : Membership) (role : MembershipRole)
    (clock : Datetime) (id : Text) (p : OwnershipTransferPlan)
    → IsNormal w.id "risk_workspace.id"
    → IsValid previous
    → IsValid next
    → plan_ownership_transfer actor w previous next role clock id ≡ ok p
    → transfer actor w previous next role clock id ≡ ok p
    → IsHandover w previous next p
unfolding transfer
handed_over-IsHandover actor w previous next role (naive t) id p n vp vn h k =
    absurd (ground (arith, k))
handed_over-IsHandover actor w previous next role (aware t) id p n vp vn h k =
    let (mw, mp, mn) = transfer-made actor w previous next role t id p k in
    let (a, b) = transfer-scopes actor w previous next role (aware t) id p h in
    let x : RiskWorkspace = record w { owner_user_id = next.user_id; updated_at = t } in
    let m : Membership = record previous { role = role; updated_at = t } in
    let o : Membership = record next { role = MembershipRole.owner; updated_at = t } in
    let (f, _, _) =
      post_init-IsSame m p.previous_owner_membership vp.id vp.risk_workspace_id vp.user_id mp in
    let (l, _, _) =
      post_init-IsSame o p.new_owner_membership vn.id vn.risk_workspace_id vn.user_id mn in
    record {
      made = plan_ownership_transfer-Transferred actor w previous next role (aware t) id p vp vn h;
      workspace = post_init-id x p.workspace n mw;
      former = record { valid = f.valid; id = f.id; scope = f.scope; user = f.user };
      latter = record { valid = l.valid; id = l.id; scope = l.scope; user = l.user };
      scopes = a;
      scope = b;
    }

pub plan_ownership_transfer-IsHandover :
    (actor : Text) (w : RiskWorkspace) (previous next : Membership) (role : MembershipRole)
    (clock : Datetime) (id : Text) (p : OwnershipTransferPlan)
    → IsNormal w.id "risk_workspace.id"
    → IsValid previous
    → IsValid next
    → plan_ownership_transfer actor w previous next role clock id ≡ ok p
    → IsHandover w previous next p
plan_ownership_transfer-IsHandover actor w previous next role clock id p n vp vn h =
    let (_, k) = plan_ownership_transfer-checked actor w previous next role clock id p h in
    handed_over-IsHandover actor w previous next role clock id p n vp vn h k
