-- ===== src/Workspaces/Ownership/Changes.antt =====
-- What a transfer of ownership changes: core/workspaces/services.py.
use ip_risk_agent_v.Base.{
  ◌≡◌, ◌≢◌, ◌∙◌, arith, Text, text_eq_iff, Datetime, naive, aware, Instant, ok,
  require_non_empty-IsNormal, IsNormal,
}
use ip_risk_agent_v.Memberships.{Membership, MembershipRole, MembershipStatus}
use ip_risk_agent_v.Memberships
use ip_risk_agent_v.Memberships.Validity.{IsValid, post_init-IsValid}
use ip_risk_agent_v.Workspaces.Models.{RiskWorkspace}
use ip_risk_agent_v.Workspaces.Models
use ip_risk_agent_v.Workspaces.Ownership.{
  OwnershipTransferPlan, check_transfer, transfer, plan_ownership_transfer,
}

-- The constructor keeps the owner that is given, if there is nothing to strip.
pub post_init-owner :
    (w x : RiskWorkspace)
    → IsNormal w.owner_user_id "risk_workspace.owner_user_id"
    → Models.post_init w ≡ ok x
    → x.owner_user_id ≡ w.owner_user_id
unfolding Models.post_init
post_init-owner w x n h = ground arith

-- What the constructor of a membership keeps.
post_init-member :
    (m n : Membership)
    → IsNormal m.user_id "membership.user_id"
    → Memberships.post_init m ≡ ok n
    → (n.user_id ≡ m.user_id) × (n.role ≡ m.role) × (n.status ≡ m.status)
unfolding Memberships.post_init
post_init-member m n v h = ground arith

-- The workspace and the two memberships after a transfer.
pub record Transferred (w : RiskWorkspace) (previous next : Membership) (p : OwnershipTransferPlan)
    : Type 0 where
  pub held : previous.role ≡ MembershipRole.owner
  pub other : next.user_id ≢ w.owner_user_id
  pub owner : p.workspace.owner_user_id ≡ next.user_id
  pub previous_valid : IsValid p.previous_owner_membership
  pub previous_user : p.previous_owner_membership.user_id ≡ previous.user_id
  pub previous_role : p.previous_owner_membership.role ≡ MembershipRole.source_manager
  pub next_valid : IsValid p.new_owner_membership
  pub next_user : p.new_owner_membership.user_id ≡ next.user_id
  pub next_role : p.new_owner_membership.role ≡ MembershipRole.owner
  pub next_status : p.new_owner_membership.status ≡ MembershipStatus.active

pub check_transfer-ok :
    (actor : Text) (w : RiskWorkspace) (previous next : Membership) (role : MembershipRole)
    → check_transfer actor w previous next role ≡ ok tt
    → (previous.role ≡ MembershipRole.owner)
      × (next.user_id ≢ w.owner_user_id)
      × (next.status ≡ MembershipStatus.active)
      × (role ≡ MembershipRole.source_manager)
unfolding check_transfer
check_transfer-ok actor w previous next role h =
    ground (arith, text_eq_iff w.owner_user_id actor, text_eq_iff next.user_id actor)

pub plan_ownership_transfer-checked :
    (actor : Text) (w : RiskWorkspace) (previous next : Membership) (role : MembershipRole)
    (clock : Datetime) (id : Text) (p : OwnershipTransferPlan)
    → plan_ownership_transfer actor w previous next role clock id ≡ ok p
    → (check_transfer actor w previous next role ≡ ok tt)
      × (transfer actor w previous next role clock id ≡ ok p)
unfolding plan_ownership_transfer
plan_ownership_transfer-checked actor w previous next role clock id p h = ground arith

-- The steps of a transfer that went through.
pub transfer-made :
    (actor : Text) (w : RiskWorkspace) (previous next : Membership) (role : MembershipRole)
    (t : Instant) (id : Text) (p : OwnershipTransferPlan)
    → transfer actor w previous next role (aware t) id ≡ ok p
    → (Models.post_init (record w { owner_user_id = next.user_id; updated_at = t })
        ≡ ok p.workspace)
      × (Memberships.post_init (record previous { role = role; updated_at = t })
          ≡ ok p.previous_owner_membership)
      × (Memberships.post_init (record next { role = MembershipRole.owner; updated_at = t })
          ≡ ok p.new_owner_membership)
unfolding transfer
transfer-made actor w previous next role t id p h = ground arith

transfer-Transferred :
    (actor : Text) (w : RiskWorkspace) (previous next : Membership) (role : MembershipRole)
    (clock : Datetime) (id : Text) (p : OwnershipTransferPlan)
    → IsValid previous
    → IsValid next
    → check_transfer actor w previous next role ≡ ok tt
    → transfer actor w previous next role clock id ≡ ok p
    → Transferred w previous next p
unfolding transfer
transfer-Transferred actor w previous next role (naive t) id p vp vn c h = absurd (ground arith)
transfer-Transferred actor w previous next role (aware t) id p vp vn c h =
    let k = check_transfer-ok actor w previous next role c in
    let (mw, mp, mn) = transfer-made actor w previous next role t id p h in
    let a = record previous { role = role; updated_at = t } in
    let b = record next { role = MembershipRole.owner; updated_at = t } in
    let n =
      require_non_empty-IsNormal next.user_id "membership.user_id" "risk_workspace.owner_user_id"
        vn.user_id in
    let (pu, pr, ps) = post_init-member a p.previous_owner_membership vp.user_id mp in
    let (nu, nr, ns) = post_init-member b p.new_owner_membership vn.user_id mn in
    record {
      held = k.0;
      other = k.1;
      owner =
          post_init-owner (record w { owner_user_id = next.user_id; updated_at = t }) p.workspace n
            mw;
      previous_valid = post_init-IsValid a p.previous_owner_membership mp;
      previous_user = pu;
      previous_role = pr ∙ k.3;
      next_valid = post_init-IsValid b p.new_owner_membership mn;
      next_user = nu;
      next_role = nr;
      next_status = ns ∙ k.2;
    }

pub plan_ownership_transfer-Transferred :
    (actor : Text) (w : RiskWorkspace) (previous next : Membership) (role : MembershipRole)
    (clock : Datetime) (id : Text) (p : OwnershipTransferPlan)
    → IsValid previous
    → IsValid next
    → plan_ownership_transfer actor w previous next role clock id ≡ ok p
    → Transferred w previous next p
plan_ownership_transfer-Transferred actor w previous next role clock id p vp vn h =
    let (c, t) = plan_ownership_transfer-checked actor w previous next role clock id p h in
    transfer-Transferred actor w previous next role clock id p vp vn c t
