-- ===== src/Workspaces/Service/Owned.antt =====
-- Tables in which every workspace has one owner:
-- application/workspace_admin/service.py.
use ip_risk_agent_v.Base.{
  ◌≡◌, ◌≢◌, ◌↔◌, ◌⊎◌, inl, inr, ◌∙◌, ap, subst, arith, true, false, Bool-cases, text_eq,
  text_eq_iff, some, Text, Dict, get_item, set_item, get_item-set_item_same,
  get_item-set_item_other, IsNormal, ok,
}
use ip_risk_agent_v.Workspaces.LicenseProfile.{Sha256}
use ip_risk_agent_v.Identity.{membership_id_for}
use ip_risk_agent_v.Memberships.{Membership, MembershipRole, MembershipStatus}
use ip_risk_agent_v.Memberships.Validity.{IsValid}
use ip_risk_agent_v.Memberships.Invitations.{MembershipInvitation}
use ip_risk_agent_v.Workspaces.Models.{RiskWorkspace}
use ip_risk_agent_v.Repositories.{ControlState, MembershipRecord}

abbrev pub IsAt : Dict MembershipRecord → Text → Membership → Type 0
IsAt ms id m = get_item ms id ≡ some (MembershipRecord.member m)

-- A membership stands under its id, which is the digest of its workspace and its user, and has the role
-- of an owner just if it is the one of the user that the workspace names.
pub record IsMember (sha : Sha256) (ws : Dict RiskWorkspace) (id : Text) (m : Membership)
    : Type 0 where
  pub valid : IsValid m
  pub key : m.id ≡ id
  pub identity : membership_id_for sha m.risk_workspace_id m.user_id ≡ ok id
  pub workspace : RiskWorkspace
  pub known : get_item ws m.risk_workspace_id ≡ some workspace
  pub owns : (m.role ≡ MembershipRole.owner) ↔ (m.user_id ≡ workspace.owner_user_id)

-- An invitation stands under its id, is to a workspace that is there, and not for its owner.
pub record IsInvited (ws : Dict RiskWorkspace) (id : Text) (i : MembershipInvitation) : Type 0 where
  pub key : i.id ≡ id
  pub named : IsNormal i.id "membership_invitation.id"
  pub scoped : IsNormal i.risk_workspace_id "membership_invitation.risk_workspace_id"
  pub role : i.role ≢ MembershipRole.owner
  pub workspace : RiskWorkspace
  pub known : get_item ws i.risk_workspace_id ≡ some workspace

-- An assignment of a workspace leaves an invitation with one.
pub set_item-IsInvited :
    (ws : Dict RiskWorkspace) (k : Text) (x : RiskWorkspace) (id : Text) (i : MembershipInvitation)
    → IsInvited ws id i
    → IsInvited (set_item k x ws) id i
set_item-IsInvited ws k x id i h =
    let (y, e) = there (Bool-cases (text_eq k i.risk_workspace_id)) in
    record {
      key = h.key;
      named = h.named;
      scoped = h.scoped;
      role = h.role;
      workspace = y;
      known = e;
    }
  where
    there :
        (text_eq k i.risk_workspace_id ≡ true) ⊎ (text_eq k i.risk_workspace_id ≡ false)
        → (y : RiskWorkspace) × (get_item (set_item k x ws) i.risk_workspace_id ≡ some y)
    there (inl t) = (
      x,
      subst (λ z. get_item (set_item k x ws) z ≡ some x) ((text_eq_iff k i.risk_workspace_id).0 t)
          (get_item-set_item_same k x ws),
    )
    there (inr f) = (
      h.workspace,
      get_item-set_item_other k i.risk_workspace_id x ws
            (λ e. ground (arith, f, e, text_eq_iff k i.risk_workspace_id))
          ∙ h.known,
    )

-- The membership of the owner is there and active.
abbrev pub Headed : Dict MembershipRecord → Text → RiskWorkspace → Type 0
Headed ms k w =
    (id : Text) × (m : Membership) × IsAt ms id m
    × (m.risk_workspace_id ≡ k)
    × (m.user_id ≡ w.owner_user_id)
    × (m.status ≡ MembershipStatus.active)

pub record IsOwned (sha : Sha256) (ws : Dict RiskWorkspace) (ms : Dict MembershipRecord)
    : Type 0 where
  pub named :
      (k : Text) (w : RiskWorkspace)
      → get_item ws k ≡ some w
      → (w.id ≡ k) × IsNormal w.id "risk_workspace.id"
  pub member : (id : Text) (m : Membership) → IsAt ms id m → IsMember sha ws id m
  pub invitation :
      (id : Text) (i : MembershipInvitation)
      → get_item ms id ≡ some (MembershipRecord.invitation i)
      → IsInvited ws id i
  pub headed : (k : Text) (w : RiskWorkspace) → get_item ws k ≡ some w → Headed ms k w

-- The tables of a state.
abbrev pub Owned : Sha256 → ControlState → Type 0
Owned sha s = IsOwned sha s.workspaces s.memberships

pub member_unique :
    (i : MembershipInvitation) (m : Membership)
    → MembershipRecord.invitation i ≡ MembershipRecord.member m
    → ⊥
member_unique i m e = ground (arith, e)

module _ (sha : Sha256) (ws : Dict RiskWorkspace) (ms : Dict MembershipRecord)
    (h : IsOwned sha ws ms) where
  -- Two memberships of one user in one workspace are one.
  pub same_member :
      (id j : Text) (m n : Membership)
      → IsAt ms id m
      → IsAt ms j n
      → m.risk_workspace_id ≡ n.risk_workspace_id
      → m.user_id ≡ n.user_id
      → id ≡ j
  same_member id j m n a b w u =
      let p = (h.member id m a).identity in
      let q : membership_id_for sha m.risk_workspace_id m.user_id ≡ ok j =
        rw (w, u) (h.member j n b).identity in
      ground (arith, p, q)

  -- A membership that heads a workspace has the role of its owner.
  pub headed-role :
      (id k : Text) (m : Membership) (w : RiskWorkspace)
      → IsAt ms id m
      → m.risk_workspace_id ≡ k
      → m.user_id ≡ w.owner_user_id
      → get_item ws k ≡ some w
      → m.role ≡ MembershipRole.owner
  headed-role id k m w a b c e =
      let o = h.member id m a in
      let there : get_item ws k ≡ some o.workspace = rw (← b) o.known in
      let same : w ≡ o.workspace = ground (arith, e, there) in
      o.owns.1 (c ∙ ap (λ z. z.owner_user_id) same)
