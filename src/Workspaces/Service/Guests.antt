-- ===== src/Workspaces/Service/Guests.antt =====
-- What is asked of one who is no member yet: application/workspace_admin/service.py.
use ip_risk_agent_v.Base.{
  ◌≡◌, refl, sym, subst, arith, Bool, true, false, not, Option, some, Text, get_item, Datetime,
  naive, aware, Instant, text_eq_iff, require_non_empty, Outcome-cases, ok, inl, inr,
}
use ip_risk_agent_v.Exec.Rules.{
  Ensures, Reads-bind, Ensures-lift, Ensures-fact, Ensures-from, refuse_if-Ensures,
}
use ip_risk_agent_v.Memberships.Invitations.{
  MembershipInvitation, InvitationStatus, normalize_invitation_email,
}
use ip_risk_agent_v.Repositories.{ControlState, MembershipRecord}
use ip_risk_agent_v.Workspaces.LicenseProfile.{Sha256}
use ip_risk_agent_v.Workspaces.Invitations.{
  InvitationAcceptancePlan, plan_invitation_acceptance, has_expired,
}
use ip_risk_agent_v.Workspaces.Service.{create_workspace, accept_invitation}
use ip_risk_agent_v.Workspaces.Service.Tables.{require_invitation-Reads}
use ip_risk_agent_v.Workspaces.Service.Callers.{Is}

-- The invitation is there and pending, its address is the verified one, and it has not expired.
pub record MayAccept (casefold : Text → Text) (s : ControlState) (invitation_id email : Text)
    (clock : Datetime) : Type 0 where
  pub invitation : MembershipInvitation
  pub known : get_item s.memberships invitation_id ≡ some (MembershipRecord.invitation invitation)
  pub pending : invitation.status ≡ InvitationStatus.pending
  pub address : normalize_invitation_email casefold email ≡ ok invitation.email
  pub now : Instant
  pub read : clock ≡ aware now
  pub in_time : has_expired invitation.expires_at now ≡ false

module _ (casefold : Text → Text) (sha : Sha256) where
  acceptance-MayAccept :
      (s : ControlState) (id user email : Text) (i : MembershipInvitation) (clock : Datetime)
      (audit : Text) (p : InvitationAcceptancePlan)
      → get_item s.memberships id ≡ some (MembershipRecord.invitation i)
      → plan_invitation_acceptance casefold sha user email i clock audit ≡ ok p
      → MayAccept casefold s id email clock
  unfolding plan_invitation_acceptance
  acceptance-MayAccept s id user email i (naive t) audit p known h =
      elim (Outcome-cases (require_non_empty user "authenticated_user_id")) [
        | inl (u, e) ↦ absurd (ground (arith, h, e))
        | inr (x, e) ↦ absurd (ground (arith, h, e))
      ]
  acceptance-MayAccept s id user email i (aware t) audit p known h =
      elim (Outcome-cases (require_non_empty user "authenticated_user_id")) [
        | inl (u, e) ↦ elim (Outcome-cases (normalize_invitation_email casefold email)) [
          | inl (a, f) ↦
              let same : i.email ≡ a = ground (arith, h, e, f, text_eq_iff i.email a) in
              record {
                invitation = i;
                known = known;
                pending = ground (arith, h, e, f);
                address = rw same f;
                now = t;
                read = refl;
                in_time = ground (arith, h, e, f);
              }
          | inr (x, f) ↦ absurd (ground (arith, h, e, f))
        ]
        | inr (x, e) ↦ absurd (ground (arith, h, e))
      ]

  module _ (has_user : Text → Bool) (s : ControlState) where
    passed : (user : Text) → not (has_user user) ≡ false → has_user user ≡ true
    passed user h = ground (arith, h)

    pub accept_invitation-MayAccept :
        (id user email : Text) (clock : Datetime) (audit : Text)
        → Ensures
            (Is s)
            (accept_invitation casefold sha has_user id user email clock audit)
            (λ _ _. (has_user user ≡ true) × MayAccept casefold s id email clock)
    unfolding accept_invitation
    accept_invitation-MayAccept id user email clock audit =
        Reads-bind _ _ _ (refuse_if-Ensures _ _) (λ _ known.
          Ensures-from _
            (λ t p. (
              subst (λ z. z.workspaces ≡ s.workspaces) (sym p) refl,
              subst (λ z. z.memberships ≡ s.memberships) (sym p) refl,
            ))
            (Reads-bind _ _ _ (require_invitation-Reads casefold sha has_user id) (λ i a.
              Ensures-lift _ _ (λ p e.
                Ensures-fact _
                  (passed user known, acceptance-MayAccept s id user email i clock audit p a e)))))

    pub create_workspace-user :
        (w o n se r : Text) (c : Datetime) (a : Text) (d : Option Text)
        → Ensures
            (Is s)
            (create_workspace casefold sha has_user w o n se r c a d)
            (λ _ _. has_user o ≡ true)
    unfolding create_workspace
    create_workspace-user w o n se r c a d = Ensures-lift _ _ (λ id _. Ensures-lift _ _ (λ p _.
        Reads-bind _ _ _ (refuse_if-Ensures _ _) (λ _ known. Ensures-fact _ (passed o known))))
