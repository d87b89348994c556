-- ===== src/Workspaces/Administration/Owners.antt =====
-- A workspace has exactly one owner, before and after a transfer: application/workspace_admin/service.py
-- over core/workspaces/services.py.
use ip_risk_agent_v.Base.{
  ◌≡◌, ◌≢◌, ◌↔◌, refl, sym, ◌∙◌, arith, All, Bool-cases, inl, inr, subst, some, List, [], ◌∷◌, map,
  Text, text_eq, text_eq_iff, Datetime, ok,
}
use ip_risk_agent_v.Memberships.{Membership, MembershipRole, MembershipStatus}
use ip_risk_agent_v.Memberships.Validity.{IsValid}
use ip_risk_agent_v.Workspaces.Models.{RiskWorkspace}
use ip_risk_agent_v.Workspaces.Ownership.{OwnershipTransferPlan, plan_ownership_transfer}
use ip_risk_agent_v.Workspaces.Ownership.Changes.{Transferred, plan_ownership_transfer-Transferred}
use ip_risk_agent_v.Workspaces.Administration.{
  Held, get_member, replaced, save_member, save_transfer, transfer_ownership,
}

-- A membership has the role of an owner just if it is the one of the user that the workspace names.
pub record AgreesWith (w : RiskWorkspace) (m : Membership) : Type 0 where
  pub valid : IsValid m
  pub owns : (m.role ≡ MembershipRole.owner) ↔ (m.user_id ≡ w.owner_user_id)

-- All memberships agree with the workspace, and the owner that it names is an active member.
pub record HasOneOwner (x : Held) : Type 0 where
  pub agree : All (AgreesWith x.workspace) x.members
  pub owner : Membership
  pub held : get_member x.members x.workspace.owner_user_id ≡ some owner
  pub active : owner.status ≡ MembershipStatus.active

pub get_member-All :
    (P : Membership → Type 0) (ms : List Membership) (user : Text) (m : Membership)
    → All P ms
    → get_member ms user ≡ some m
    → P m × (m.user_id ≡ user)
unfolding get_member
get_member-All P [] user m h e = absurd (ground arith)
get_member-All P (n ∷ ms) user m h e = elim (Bool-cases (text_eq n.user_id user)) [
  | inl t ↦
      let q : n ≡ m = ground (arith, t) in
      (subst P q h.0, ground (arith, q, t, text_eq_iff n.user_id user))
  | inr f ↦ get_member-All P ms user m h.1 (ground (arith, f))
]

All-map-map :
    (P Q : Membership → Type 0) (f g : Membership → Membership)
    → ((m : Membership) → P m → Q (f (g m)))
    → (ms : List Membership) → All P ms
    → All Q (map f (map g ms))
All-map-map P Q f g k [] h = tt
All-map-map P Q f g k (m ∷ ms) h = (k m h.0, All-map-map P Q f g k ms h.1)

-- A saved membership is found.
get_member-save :
    (x m : Membership) (ms : List Membership)
    → get_member ms x.user_id ≡ some m
    → get_member (save_member x ms) x.user_id ≡ some x
unfolding get_member
get_member-save x m [] h = absurd (ground arith)
get_member-save x m (n ∷ ms) h = elim (Bool-cases (text_eq n.user_id x.user_id)) [
  | inl t ↦ ground (arith, t, text_eq_iff x.user_id x.user_id)
  | inr f ↦ ground (arith, f, get_member-save x m ms)
]

-- Other memberships stay where they are.
get_member-save_other :
    (x : Membership) (ms : List Membership) (user : Text)
    → x.user_id ≢ user
    → get_member (save_member x ms) user ≡ get_member ms user
unfolding get_member
get_member-save_other x [] user d = refl
get_member-save_other x (n ∷ ms) user d = ground (
  arith,
  d,
  text_eq_iff n.user_id x.user_id,
  text_eq_iff n.user_id user,
  text_eq_iff x.user_id user,
  get_member-save_other x ms user d,
)

-- The plan of a transfer that succeeds.
transfer_ownership-plan :
    (x : Held) (actor new_owner : Text) (clock : Datetime) (id : Text) (y : Held)
    → transfer_ownership x actor new_owner clock id ≡ ok y
    → (previous : Membership) × (next : Membership) × (p : OwnershipTransferPlan) × (get_member
          x.members actor
        ≡ some previous)
      × (get_member x.members new_owner ≡ some next)
      × (plan_ownership_transfer actor x.workspace previous next MembershipRole.source_manager clock
            id
          ≡ ok p)
      × (save_transfer x p ≡ y)
unfolding transfer_ownership
transfer_ownership-plan x actor new_owner clock id y h = ground arith

module _ (w : RiskWorkspace) (previous next : Membership) (p : OwnershipTransferPlan)
    (agree : AgreesWith w previous) (moved : Transferred w previous next p) where
  replaced-AgreesWith :
      (m : Membership)
      → AgreesWith w m
      → AgreesWith p.workspace
          (replaced p.new_owner_membership (replaced p.previous_owner_membership m))
  replaced-AgreesWith m h =
      let a = p.previous_owner_membership in
      let b = p.new_owner_membership in
      ground (
        arith,
        text_eq_iff m.user_id a.user_id,
        text_eq_iff m.user_id b.user_id,
        text_eq_iff a.user_id b.user_id,
        agree.owns,
        h.owns,
      )

  save_transfer-HasOneOwner :
      (ms : List Membership)
      → All (AgreesWith w) ms
      → get_member ms next.user_id ≡ some next
      → HasOneOwner (save_transfer (record { workspace = w; members = ms }) p)
  save_transfer-HasOneOwner ms h g =
      let a = p.previous_owner_membership in
      let b = p.new_owner_membership in
      let apart : a.user_id ≢ b.user_id = λ e. ground (arith, e, agree.owns) in
      let kept : get_member (save_member a ms) b.user_id ≡ some next =
        get_member-save_other a ms b.user_id apart ∙ rw moved.next_user g in
      record {
        agree =
            All-map-map (AgreesWith w) (AgreesWith p.workspace) (replaced b) (replaced a)
              replaced-AgreesWith ms h;
        owner = b;
        held =
            rw (moved.owner, sym moved.next_user) (get_member-save b next (save_member a ms) kept);
        active = moved.next_status;
      }

-- A transfer that succeeds leaves one owner if there was one before, and it is the user whom the call
-- names, another than before: every membership agrees with the workspace on who the owner is, and
-- the new owner is an active member.
pub transfer_ownership-HasOneOwner :
    (x : Held) (actor new_owner : Text) (clock : Datetime) (id : Text) (y : Held)
    → HasOneOwner x
    → transfer_ownership x actor new_owner clock id ≡ ok y
    → HasOneOwner y
      × (y.workspace.owner_user_id ≡ new_owner)
      × (new_owner ≢ x.workspace.owner_user_id)
transfer_ownership-HasOneOwner x actor new_owner clock id y one h =
    let (previous, next, p, gp, gn, q, e) =
      transfer_ownership-plan x actor new_owner clock id y h in
    let (vp, up) = get_member-All (AgreesWith x.workspace) x.members actor previous one.agree gp in
    let (vn, un) = get_member-All (AgreesWith x.workspace) x.members new_owner next one.agree gn in
    let moved =
      plan_ownership_transfer-Transferred actor x.workspace previous next
        MembershipRole.source_manager clock id p vp.valid vn.valid q in
    let saved =
      save_transfer-HasOneOwner x.workspace previous next p vp moved x.members one.agree
        (rw un gn) in
    (subst HasOneOwner e saved, ground (arith, e, moved.owner, un), ground (arith, moved.other, un))
