-- ===== src/Workspaces/Service/Joining.antt =====
-- What the plans that invite members and create workspaces make: core/workspaces/services.py.
use ip_risk_agent_v.Base.{
  ◌≡◌, ◌≢◌, ◌∙◌, refl, sym, subst, arith, Option, [], ◌∷◌, String, is_space, Text, Datetime, naive,
  aware, Instant, codes, IsNormal, require_non_empty, require_non_empty-IsNormal,
  require_non_empty_renamed, require_non_empty-cases, ok, Outcome-cases, inl, inr,
}
use ip_risk_agent_v.Workspaces.LicenseProfile.{Sha256}
use ip_risk_agent_v.Identity.{membership_id_for, stable_key, components}
use ip_risk_agent_v.Identity.Normal.{stable_key-IsNormal}
use ip_risk_agent_v.Memberships.{Membership, MembershipRole, MembershipStatus, is_owner}
use ip_risk_agent_v.Memberships
use ip_risk_agent_v.Memberships.Validity.{IsValid}
use ip_risk_agent_v.Memberships.Invitations.{
  MembershipInvitation, InvitationStatus, normalize_invitation_email, invitation_id_for,
}
use ip_risk_agent_v.Memberships.Invitations
use ip_risk_agent_v.Workspaces.Invitations.{
  InvitationPlan, InvitationAcceptancePlan, InvitationRevocationPlan, plan_membership_invitation,
  plan_invitation_acceptance, plan_invitation_revocation, accept, invited_membership,
}
use ip_risk_agent_v.Workspaces.Service.Changes.{post_init-IsSame}

-- An invitation that the constructor gave: not for an owner, with its texts stripped.
pub record IsMade (i : MembershipInvitation) : Type 0 where
  pub named : IsNormal i.id "membership_invitation.id"
  pub scoped : IsNormal i.risk_workspace_id "membership_invitation.risk_workspace_id"
  pub role : i.role ≢ MembershipRole.owner

pub membership_id_for-IsNormal :
    (sha : Sha256) (workspace_id user_id id : Text)
    → membership_id_for sha workspace_id user_id ≡ ok id
    → IsNormal id "membership.id"
unfolding membership_id_for is_space
membership_id_for-IsNormal sha workspace_id user_id id h =
    stable_key-IsNormal sha (codes "membership") (workspace_id ∷ user_id ∷ []) id "membership.id"
      refl h

-- A membership has the id of its stripped texts.
pub membership_id_for-stripped :
    (sha : Sha256) (workspace_id user_id k w u : Text) (name name' : String)
    → membership_id_for sha workspace_id user_id ≡ ok k
    → require_non_empty workspace_id name ≡ ok w
    → require_non_empty user_id name' ≡ ok u
    → membership_id_for sha w u ≡ ok k
unfolding membership_id_for stable_key components
membership_id_for-stripped sha workspace_id user_id k w u name name' h a b =
    let a' = require_non_empty_renamed workspace_id name "identity component" a in
    let b' = require_non_empty_renamed user_id name' "identity component" b in
    let a'' = require_non_empty-IsNormal workspace_id name "identity component" a in
    let b'' = require_non_empty-IsNormal user_id name' "identity component" b in
    ground (arith, h, a', b', a'', b'')

-- An invitation before and after a change of its status.
pub record IsAnswered (i j : MembershipInvitation) : Type 0 where
  pub made : IsMade j
  pub id : j.id ≡ i.id
  pub scope : j.risk_workspace_id ≡ i.risk_workspace_id

module _ (casefold : Text → Text) where
  pub post_init-IsMade :
      (i j : MembershipInvitation) → Invitations.post_init casefold i ≡ ok j → IsMade j
  unfolding Invitations.post_init
  post_init-IsMade i j h = record {
    named = ground (arith, h, require_non_empty-cases i.id "membership_invitation.id");
    scoped = ground (
      arith,
      h,
      require_non_empty-cases i.risk_workspace_id "membership_invitation.risk_workspace_id",
    );
    role = ground (arith, h);
  }

  -- The constructor keeps the texts of an invitation that need no stripping.
  post_init-scope :
      (i j : MembershipInvitation)
      → IsNormal i.risk_workspace_id "membership_invitation.risk_workspace_id"
      → Invitations.post_init casefold i ≡ ok j
      → (j.risk_workspace_id ≡ i.risk_workspace_id) × (j.role ≡ i.role)
  unfolding Invitations.post_init
  post_init-scope i j n h = ground (arith, n, h)

  post_init-name :
      (i j : MembershipInvitation)
      → IsNormal i.id "membership_invitation.id"
      → Invitations.post_init casefold i ≡ ok j
      → j.id ≡ i.id
  unfolding Invitations.post_init
  post_init-name i j n h = ground (arith, n, h)

  answered :
      (i j k : MembershipInvitation)
      → IsMade i
      → k.id ≡ i.id
      → k.risk_workspace_id ≡ i.risk_workspace_id
      → Invitations.post_init casefold k ≡ ok j
      → IsAnswered i j
  answered i j k m a b h = record {
    made = post_init-IsMade k j h;
    id =
        post_init-name k j (subst (λ z. IsNormal z "membership_invitation.id") (sym a) m.named) h
        ∙ a;
    scope =
        (post_init-scope k j
          (subst (λ z. IsNormal z "membership_invitation.risk_workspace_id") (sym b) m.scoped) h).0
        ∙ b;
  }

  module _ (sha : Sha256) where
    -- The constructor call of an invitation.
    invitation-parts :
        (actor : Text) (am : Membership) (email : Text) (role : MembershipRole) (clock : Datetime)
        (id : Text) (expires : Option Instant) (p : InvitationPlan)
        → plan_membership_invitation casefold sha actor am email role clock id expires ≡ ok p
        → (i : MembershipInvitation) × (i.risk_workspace_id ≡ am.risk_workspace_id)
          × (Invitations.post_init casefold i ≡ ok p.invitation)
    unfolding plan_membership_invitation
    invitation-parts actor am email role (naive t) id expires p h =
        elim (Outcome-cases (normalize_invitation_email casefold email)) [
          | inl (n, a) ↦ absurd (ground (arith, h, a))
          | inr (x, a) ↦ absurd (ground (arith, h, a))
        ]
    invitation-parts actor am email role (aware t) id expires p h =
        elim (Outcome-cases (normalize_invitation_email casefold email)) [
          | inl (n, a) ↦
              elim (Outcome-cases (invitation_id_for casefold sha am.risk_workspace_id n)) [
                | inl (k, b) ↦ (
                  record {
                    id = k;
                    risk_workspace_id = am.risk_workspace_id;
                    email = n;
                    role = role;
                    status = InvitationStatus.pending;
                    invited_by = actor;
                    created_at = t;
                    updated_at = t;
                    expires_at = expires;
                  },
                  refl,
                  ground (arith, h, a, b),
                )
                | inr (x, b) ↦ absurd (ground (arith, h, a, b))
              ]
          | inr (x, a) ↦ absurd (ground (arith, h, a))
        ]

    pub plan_membership_invitation-IsMade :
        (actor : Text) (am : Membership) (email : Text) (role : MembershipRole) (clock : Datetime)
        (id : Text) (expires : Option Instant) (p : InvitationPlan)
        → IsValid am
        → plan_membership_invitation casefold sha actor am email role clock id expires ≡ ok p
        → IsMade p.invitation × (p.invitation.risk_workspace_id ≡ am.risk_workspace_id)
    plan_membership_invitation-IsMade actor am email role clock id expires p v h =
        let (i, e, k) = invitation-parts actor am email role clock id expires p h in
        let n =
          require_non_empty-IsNormal am.risk_workspace_id "membership.risk_workspace_id"
            "membership_invitation.risk_workspace_id" v.risk_workspace_id in
        let m = subst (λ z. IsNormal z "membership_invitation.risk_workspace_id") (sym e) n in
        (post_init-IsMade i p.invitation k, (post_init-scope i p.invitation m k).0 ∙ e)

    -- What an acceptance makes of its invitation, and the membership of the user.
    pub record IsJoining (user : Text) (i : MembershipInvitation) (p : InvitationAcceptancePlan)
        : Type 0 where
      pub answer : IsAnswered i p.invitation
      pub valid : IsValid p.membership
      pub identity :
          membership_id_for sha p.membership.risk_workspace_id p.membership.user_id
          ≡ ok p.membership.id
      pub scope : p.membership.risk_workspace_id ≡ i.risk_workspace_id
      pub role : p.membership.role ≡ i.role
      pub accepted_by : require_non_empty user "authenticated_user_id" ≡ ok p.membership.user_id

    accept-parts :
        (user : Text) (i : MembershipInvitation) (t : Instant) (audit : Text)
        (p : InvitationAcceptancePlan)
        → accept casefold sha user i t audit ≡ ok p
        → (Invitations.post_init casefold
              record i { status = InvitationStatus.accepted; updated_at = t }
            ≡ ok p.invitation)
          × (id : Text) × (membership_id_for sha i.risk_workspace_id user ≡ ok id)
          × (Memberships.post_init (invited_membership casefold sha i id user t) ≡ ok p.membership)
    unfolding accept
    accept-parts user i t audit p h =
        elim (Outcome-cases (membership_id_for sha i.risk_workspace_id user)) [
          | inl (id, e) ↦ (ground (arith, h), id, e, ground (arith, h, e))
          | inr (x, e) ↦ absurd (ground (arith, h, e))
        ]

    acceptance-parts :
        (user email : Text) (i : MembershipInvitation) (clock : Datetime) (audit : Text)
        (p : InvitationAcceptancePlan)
        → plan_invitation_acceptance casefold sha user email i clock audit ≡ ok p
        → (u : Text) × (t : Instant) × (require_non_empty user "authenticated_user_id" ≡ ok u)
          × (accept casefold sha u i t audit ≡ ok p)
    unfolding plan_invitation_acceptance
    acceptance-parts user email i (naive t) audit p h =
        elim (Outcome-cases (require_non_empty user "authenticated_user_id")) [
          | inl (u, e) ↦ absurd (ground (arith, h, e))
          | inr (x, e) ↦ absurd (ground (arith, h, e))
        ]
    acceptance-parts user email i (aware t) audit p h =
        elim (Outcome-cases (require_non_empty user "authenticated_user_id")) [
          | inl (u, e) ↦ (u, t, e, ground (arith, h, e))
          | inr (x, e) ↦ absurd (ground (arith, h, e))
        ]

    pub plan_invitation_acceptance-IsJoining :
        (user email : Text) (i : MembershipInvitation) (clock : Datetime) (audit : Text)
        (p : InvitationAcceptancePlan)
        → IsMade i
        → plan_invitation_acceptance casefold sha user email i clock audit ≡ ok p
        → IsJoining user i p
    plan_invitation_acceptance-IsJoining user email i clock audit p m h =
        let (u, t, g, k) = acceptance-parts user email i clock audit p h in
        let nu = require_non_empty-IsNormal user "authenticated_user_id" "membership.user_id" g in
        let (a, id, e, b) = accept-parts u i t audit p k in
        let j : MembershipInvitation = record i {
          status = InvitationStatus.accepted;
          updated_at = t;
        } in
        let n : Membership = invited_membership casefold sha i id u t in
        let ni = membership_id_for-IsNormal sha i.risk_workspace_id u id e in
        let ns =
          require_non_empty-IsNormal i.risk_workspace_id "membership_invitation.risk_workspace_id"
            "membership.risk_workspace_id" m.scoped in
        let (s, r, _) = post_init-IsSame n p.membership ni ns nu b in
        record {
          answer = answered i p.invitation j m refl refl a;
          valid = s.valid;
          identity = rw (s.scope, s.user, s.id) e;
          scope = s.scope;
          role = r;
          accepted_by = rw s.user g;
        }

    pub plan_invitation_revocation-IsAnswered :
        (actor : Text) (am : Membership) (i : MembershipInvitation) (clock : Datetime)
        (audit : Text) (p : InvitationRevocationPlan)
        → IsMade i
        → plan_invitation_revocation casefold sha actor am i clock audit ≡ ok p
        → IsAnswered i p.invitation
    unfolding plan_invitation_revocation
    plan_invitation_revocation-IsAnswered actor am i (naive t) audit p m h =
        absurd (ground (arith, h))
    plan_invitation_revocation-IsAnswered actor am i (aware t) audit p m h =
        let j : MembershipInvitation = record i {
          status = InvitationStatus.revoked;
          updated_at = t;
        } in
        answered i p.invitation j m refl refl (ground (arith, h))
