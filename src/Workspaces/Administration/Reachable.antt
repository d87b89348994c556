-- ===== src/Workspaces/Administration/Reachable.antt =====
-- The life of a workspace as its members see it: application/workspace_admin/service.py.
use ip_risk_agent_v.Base.{
  ◌≡◌, refl, sym, ◌∙◌, arith, All-mono, Option, [], ◌∷◌, Text, text_eq_iff, Datetime, naive, aware,
  Instant, ok, require_non_empty_unique, subst, require_non_empty-IsNormal, IsNormal,
}
use ip_risk_agent_v.Memberships.{Membership, MembershipRole, MembershipStatus}
use ip_risk_agent_v.Memberships
use ip_risk_agent_v.Memberships.Validity.{IsValid, post_init-IsValid}
use ip_risk_agent_v.Workspaces.Models.{RiskWorkspace}
use ip_risk_agent_v.Workspaces.Models
use ip_risk_agent_v.Workspaces.Ownership.{
  first_workspace, first_membership, WorkspaceCreationPlan, WorkspaceDeletionPlan,
  plan_workspace_creation, plan_workspace_deletion,
}
use ip_risk_agent_v.Workspaces.Ownership.Changes.{post_init-owner}
use ip_risk_agent_v.Workspaces.Ownership.Deletion.{marked, plan_workspace_deletion-made}
use ip_risk_agent_v.Workspaces.Administration.{Held, get_member, transfer_ownership}
use ip_risk_agent_v.Workspaces.Administration.Owners.{
  AgreesWith, HasOneOwner, transfer_ownership-HasOneOwner, get_member-All,
}

-- What the repositories hold of a workspace after its creation, and after any number of transfers
-- and requests for its deletion. Its members are otherwise left alone.
pub data Reached : Held → Type 0 where
  created :
      (membership_id workspace_id owner name security retention audit_id : Text) (clock : Datetime)
      (description : Option Text) (p : WorkspaceCreationPlan)
      → plan_workspace_creation membership_id workspace_id owner name security retention clock
          audit_id description
        ≡ ok p
      → Reached (record { workspace = p.workspace; members = p.owner_membership ∷ [] })
  transferred :
      {x y : Held} (actor new_owner audit_id : Text) (clock : Datetime)
      → Reached x
      → transfer_ownership x actor new_owner clock audit_id ≡ ok y
      → Reached y
  deleting :
      {x : Held} (actor audit_id : Text) (m : Membership) (clock : Datetime)
      (p : WorkspaceDeletionPlan)
      → Reached x
      → plan_workspace_deletion actor m x.workspace clock audit_id ≡ ok p
      → Reached (record { workspace = p.workspace; members = x.members })

-- What the two constructors make of a creation.
pub creation-made :
    (membership_id workspace_id owner name security retention audit_id : Text) (t : Instant)
    (description : Option Text) (p : WorkspaceCreationPlan)
    → plan_workspace_creation membership_id workspace_id owner name security retention
        (aware t)
        audit_id
        description
      ≡ ok p
    → (Models.post_init (first_workspace workspace_id owner name security retention t description)
        ≡ ok p.workspace)
      × (Memberships.post_init (first_membership membership_id p.workspace.id owner t)
          ≡ ok p.owner_membership)
unfolding plan_workspace_creation
creation-made membership_id workspace_id owner name security retention audit_id t description p h =
    ground arith

-- What the two constructors make of the id of the owner.
pub owners_agree :
    (w x : RiskWorkspace) (m n : Membership)
    → w.owner_user_id ≡ m.user_id
    → Models.post_init w ≡ ok x
    → Memberships.post_init m ≡ ok n
    → (n.user_id ≡ x.owner_user_id) × (n.role ≡ m.role) × (n.status ≡ m.status)
unfolding Models.post_init Memberships.post_init
owners_agree w x m n e h k = ground (
  arith,
  require_non_empty_unique m.user_id "membership.user_id" "risk_workspace.owner_user_id"
      {t = n.user_id} {u = x.owner_user_id},
)

sole_owner :
    (w : RiskWorkspace) (m : Membership)
    → IsValid m
    → m.user_id ≡ w.owner_user_id
    → m.role ≡ MembershipRole.owner
    → m.status ≡ MembershipStatus.active
    → HasOneOwner (record { workspace = w; members = m ∷ [] })
unfolding get_member
sole_owner w m v e r s = record {
  agree = (record { valid = v; owns = (λ _. e, λ _. r) }, tt);
  owner = m;
  held = ground (arith, e, text_eq_iff m.user_id w.owner_user_id);
  active = s;
}

creation-HasOneOwner :
    (membership_id workspace_id owner name security retention audit_id : Text) (clock : Datetime)
    (description : Option Text) (p : WorkspaceCreationPlan)
    → plan_workspace_creation membership_id workspace_id owner name security retention clock
        audit_id description
      ≡ ok p
    → HasOneOwner (record { workspace = p.workspace; members = p.owner_membership ∷ [] })
unfolding plan_workspace_creation
creation-HasOneOwner membership_id workspace_id owner name security retention audit_id (naive t)
      description p h =
    absurd (ground arith)
creation-HasOneOwner membership_id workspace_id owner name security retention audit_id (aware t)
      description p h =
    let (a, b) =
      creation-made membership_id workspace_id owner name security retention audit_id t description
        p h in
    let m = first_membership membership_id p.workspace.id owner t in
    let (u, r, s) =
      owners_agree (first_workspace workspace_id owner name security retention t description)
        p.workspace m p.owner_membership refl a b in
    sole_owner p.workspace p.owner_membership (post_init-IsValid m p.owner_membership b) u r s

-- A workspace that names the same owner as before.
HasOneOwner-same :
    (x : Held) (w : RiskWorkspace)
    → w.owner_user_id ≡ x.workspace.owner_user_id
    → HasOneOwner x
    → HasOneOwner (record { workspace = w; members = x.members })
HasOneOwner-same x w e one = record {
  agree =
      All-mono (AgreesWith x.workspace) (AgreesWith w)
        (λ m a. record { valid = a.valid; owns = (λ r. a.owns.0 r ∙ sym e, λ u. a.owns.1 (u ∙ e)) })
        x.members one.agree;
  owner = one.owner;
  held = rw e one.held;
  active = one.active;
}

-- The constructor keeps the owner of a workspace that has one.
owner-IsNormal :
    (x : Held) → HasOneOwner x → IsNormal x.workspace.owner_user_id "risk_workspace.owner_user_id"
owner-IsNormal x one =
    let (a, e) =
      get_member-All (AgreesWith x.workspace) x.members x.workspace.owner_user_id one.owner
        one.agree one.held in
    subst (λ u. IsNormal u "risk_workspace.owner_user_id") e
      (require_non_empty-IsNormal one.owner.user_id "membership.user_id"
        "risk_workspace.owner_user_id" a.valid.user_id)

deletion-HasOneOwner :
    (x : Held) (actor audit_id : Text) (m : Membership) (clock : Datetime)
    (p : WorkspaceDeletionPlan)
    → HasOneOwner x
    → plan_workspace_deletion actor m x.workspace clock audit_id ≡ ok p
    → HasOneOwner (record { workspace = p.workspace; members = x.members })
unfolding plan_workspace_deletion
deletion-HasOneOwner x actor audit_id m (naive t) p one h = absurd (ground arith)
deletion-HasOneOwner x actor audit_id m (aware t) p one h =
    let (o, s, k) = plan_workspace_deletion-made actor m x.workspace t audit_id p h in
    HasOneOwner-same x p.workspace
      (post_init-owner (marked x.workspace t) p.workspace (owner-IsNormal x one) k) one

-- A workspace that was created, and then handed over and asked to be deleted any number of times in
-- any order, has one owner: the role of owner is held by the membership of the user that the
-- workspace names and by no other, and that membership is there and active.
pub Reached-HasOneOwner : {x : Held} → Reached x → HasOneOwner x
Reached-HasOneOwner (created mi wi o n s r ai clock d p h) =
    creation-HasOneOwner mi wi o n s r ai clock d p h
Reached-HasOneOwner (transferred {x} {y} actor new_owner audit_id clock k h) =
    (transfer_ownership-HasOneOwner x actor new_owner clock audit_id y (Reached-HasOneOwner k) h).0
Reached-HasOneOwner (deleting {x} actor audit_id m clock p k h) =
    deletion-HasOneOwner x actor audit_id m clock p (Reached-HasOneOwner k) h
