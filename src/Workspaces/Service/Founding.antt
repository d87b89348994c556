-- ===== src/Workspaces/Service/Founding.antt =====
-- What the plan that creates a workspace makes: core/workspaces/services.py.
use ip_risk_agent_v.Base.{
  ◌≡◌, refl, arith, Option, Text, Datetime, naive, aware, IsNormal, require_non_empty,
  require_non_empty-IsNormal, require_non_empty-cases, ok,
}
use ip_risk_agent_v.Workspaces.LicenseProfile.{Sha256}
use ip_risk_agent_v.Identity.{membership_id_for}
use ip_risk_agent_v.Memberships.{Membership, MembershipRole, MembershipStatus}
use ip_risk_agent_v.Memberships
use ip_risk_agent_v.Memberships.Validity.{IsValid, post_init-IsValid}
use ip_risk_agent_v.Workspaces.Models.{RiskWorkspace}
use ip_risk_agent_v.Workspaces.Models
use ip_risk_agent_v.Workspaces.Ownership.{
  WorkspaceCreationPlan, plan_workspace_creation, first_workspace, first_membership,
}
use ip_risk_agent_v.Workspaces.Administration.Reachable.{creation-made, owners_agree}
use ip_risk_agent_v.Workspaces.Service.Joining.{
  membership_id_for-IsNormal, membership_id_for-stripped,
}

-- A new workspace, and the membership of its owner.
pub record IsFounding (sha : Sha256) (p : WorkspaceCreationPlan) : Type 0 where
  pub named : IsNormal p.workspace.id "risk_workspace.id"
  pub valid : IsValid p.owner_membership
  pub identity :
      membership_id_for sha p.owner_membership.risk_workspace_id p.owner_membership.user_id
      ≡ ok p.owner_membership.id
  pub scope : p.owner_membership.risk_workspace_id ≡ p.workspace.id
  pub user : p.owner_membership.user_id ≡ p.workspace.owner_user_id
  pub role : p.owner_membership.role ≡ MembershipRole.owner
  pub status : p.owner_membership.status ≡ MembershipStatus.active

post_init-stripped_id :
    (w x : RiskWorkspace)
    → Models.post_init w ≡ ok x
    → require_non_empty w.id "risk_workspace.id" ≡ ok x.id
unfolding Models.post_init
post_init-stripped_id w x h = ground (arith, h, require_non_empty-cases w.id "risk_workspace.id")

-- The texts of a membership are stripped by the constructor.
post_init-texts :
    (m n : Membership)
    → Memberships.post_init m ≡ ok n
    → (require_non_empty m.id "membership.id" ≡ ok n.id)
      × (require_non_empty m.risk_workspace_id "membership.risk_workspace_id"
          ≡ ok n.risk_workspace_id)
      × (require_non_empty m.user_id "membership.user_id" ≡ ok n.user_id)
unfolding Memberships.post_init
post_init-texts m n h = (
  ground (arith, h, require_non_empty-cases m.id "membership.id"),
  ground (arith, h, require_non_empty-cases m.risk_workspace_id "membership.risk_workspace_id"),
  ground (arith, h, require_non_empty-cases m.user_id "membership.user_id"),
)

same_text_given :
    (s t : Text) → IsNormal s "membership.id" → require_non_empty s "membership.id" ≡ ok t → t ≡ s
same_text_given s t n h = ground (arith, n, h)

pub plan_workspace_creation-IsFounding :
    (sha : Sha256) (membership_id workspace_id owner name security retention : Text)
    (clock : Datetime) (audit_id : Text) (description : Option Text) (p : WorkspaceCreationPlan)
    → membership_id_for sha workspace_id owner ≡ ok membership_id
    → plan_workspace_creation membership_id workspace_id owner name security retention clock
        audit_id description
      ≡ ok p
    → IsFounding sha p
unfolding plan_workspace_creation
plan_workspace_creation-IsFounding sha membership_id workspace_id owner name security retention
      (naive t) audit_id description p e h =
    absurd (ground (arith, h))
plan_workspace_creation-IsFounding sha membership_id workspace_id owner name security retention
      (aware t) audit_id description p e h =
    let (a, b) =
      creation-made membership_id workspace_id owner name security retention audit_id t description
        p h in
    let w : RiskWorkspace =
      first_workspace workspace_id owner name security retention t description in
    let m : Membership = first_membership membership_id p.workspace.id owner t in
    let stripped = post_init-stripped_id w p.workspace a in
    let (i, s, u) = post_init-texts m p.owner_membership b in
    let (same, r, st) = owners_agree w p.workspace m p.owner_membership refl a b in
    let named =
      require_non_empty-IsNormal workspace_id "risk_workspace.id" "membership.risk_workspace_id"
        stripped in
    let key =
      same_text_given membership_id p.owner_membership.id
        (membership_id_for-IsNormal sha workspace_id owner membership_id e) i in
    let scope : p.owner_membership.risk_workspace_id ≡ p.workspace.id = ground (arith, named, s) in
    let q =
      membership_id_for-stripped sha workspace_id owner membership_id p.workspace.id
        p.owner_membership.user_id "risk_workspace.id" "membership.user_id" e stripped u in
    record {
      named =
          require_non_empty-IsNormal workspace_id "risk_workspace.id" "risk_workspace.id" stripped;
      valid = post_init-IsValid m p.owner_membership b;
      identity = rw (scope, key) q;
      scope = scope;
      user = same;
      role = r;
      status = st;
    }
