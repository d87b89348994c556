-- ===== src/Workspaces/Invitations.antt =====
-- core/workspaces/services.py: the plans that invite a member, accept an invitation and revoke it.
use ip_risk_agent_v.Base.{
  Bool, false, not, ltb, Option, none, some, [], ◌∷◌, Text, codes, text_eq, Datetime, Instant,
  normalize_utc, require_non_empty, Outcome, ok, ◌>>=◌, ◌>>◌, raise_if, Error, invariant,
}
use ip_risk_agent_v.Workspaces.LicenseProfile.{Sha256}
use ip_risk_agent_v.Identity.{membership_id_for}
use ip_risk_agent_v.Memberships.{Membership, MembershipRole, MembershipStatus, is_owner}
use ip_risk_agent_v.Memberships
use ip_risk_agent_v.Memberships.Invitations.{
  MembershipInvitation, InvitationStatus, is_pending, normalize_invitation_email, invitation_id_for,
  post_init,
}
use ip_risk_agent_v.Memberships.Authorization.{VwsAction, authorize_vws_action, require_authorized}
use ip_risk_agent_v.Audit.{AuditEvent, AuditEventType}
use ip_risk_agent_v.Audit
use ip_risk_agent_v.Risk.Events.{ActorType, SafeValue, SafeMapping}
use ip_risk_agent_v.Workspaces.Ownership.{role_value}

pub record InvitationPlan : Type 0 where
  pub invitation : MembershipInvitation
  pub audit_event : AuditEvent

pub record InvitationAcceptancePlan : Type 0 where
  pub invitation : MembershipInvitation
  pub membership : Membership
  pub audit_event : AuditEvent

pub record InvitationRevocationPlan : Type 0 where
  pub invitation : MembershipInvitation
  pub audit_event : AuditEvent

-- `require_authorized(authorize_vws_action(..., action=VwsAction.MEMBER_MANAGE))`
abbrev pub require_member_manager : Text → Text → Membership → Outcome Error (Unit {0})
require_member_manager actor_user_id risk_workspace_id actor_membership = do
  decision ←
      authorize_vws_action actor_user_id risk_workspace_id (some actor_membership)
        VwsAction.member_manage none none
  require_authorized decision

-- What a user did in a workspace.
abbrev pub user_event :
    AuditEventType → Text → Text → Instant → Text → SafeMapping → Outcome Error AuditEvent
user_event event_type risk_workspace_id actor_user_id occurred_at audit_event_id metadata_safe =
    Audit.post_init record {
      id = audit_event_id;
      risk_workspace_id = risk_workspace_id;
      event_type = event_type;
      actor_type = ActorType.user;
      actor_user_id = some actor_user_id;
      occurred_at = occurred_at;
      metadata_safe = metadata_safe;
    }

-- `expires_at is not None and occurred_at >= expires_at`
abbrev pub has_expired : Option Instant → Instant → Bool
has_expired none now = false
has_expired (some t) now = not (ltb now t)

module _ (casefold : Text → Text) (sha : Sha256) where
  unfoldable pub plan_membership_invitation :
      Text
      → Membership
      → Text
      → MembershipRole
      → Datetime
      → Text
      → Option Instant
      → Outcome Error InvitationPlan
  plan_membership_invitation actor_user_id actor_membership email role clock audit_event_id
        expires_at =
      do
        require_member_manager actor_user_id actor_membership.risk_workspace_id actor_membership
        raise_if (is_owner role) (invariant "OWNER must be assigned through ownership transfer")
        normalized_email ← normalize_invitation_email casefold email
        occurred_at ← normalize_utc clock "membership_invitation.occurred_at"
        id ← invitation_id_for casefold sha actor_membership.risk_workspace_id normalized_email
        invitation ← post_init casefold record {
          id = id;
          risk_workspace_id = actor_membership.risk_workspace_id;
          email = normalized_email;
          role = role;
          status = InvitationStatus.pending;
          invited_by = actor_user_id;
          created_at = occurred_at;
          updated_at = occurred_at;
          expires_at = expires_at;
        }
        audit_event ←
            user_event AuditEventType.member_invited actor_membership.risk_workspace_id
              actor_user_id occurred_at audit_event_id
              ((codes "invitation_id", SafeValue.text invitation.id)
                ∷ (codes "role", SafeValue.text (role_value role))
                ∷ [])
        ok record { invitation = invitation; audit_event = audit_event }

  -- The constructor call of an accepted invitation.
  abbrev pub invited_membership : MembershipInvitation → Text → Text → Instant → Membership
  invited_membership invitation id user_id occurred_at = record {
    id = id;
    risk_workspace_id = invitation.risk_workspace_id;
    user_id = user_id;
    role = invitation.role;
    status = MembershipStatus.active;
    invited_by = invitation.invited_by;
    created_at = occurred_at;
    updated_at = occurred_at;
  }

  -- What the acceptance makes, once it is checked.
  unfoldable pub accept :
      Text → MembershipInvitation → Instant → Text → Outcome Error InvitationAcceptancePlan
  accept user_id invitation occurred_at audit_event_id = do
    accepted_invitation ←
        post_init casefold
          record invitation { status = InvitationStatus.accepted; updated_at = occurred_at }
    id ← membership_id_for sha invitation.risk_workspace_id user_id
    membership ← Memberships.post_init (invited_membership invitation id user_id occurred_at)
    audit_event ←
        user_event AuditEventType.member_invitation_accepted invitation.risk_workspace_id user_id
          occurred_at audit_event_id
          ((codes "invitation_id", SafeValue.text invitation.id)
            ∷ (codes "membership_id", SafeValue.text membership.id)
            ∷ (codes "role", SafeValue.text (role_value membership.role))
            ∷ [])
    ok record {
      invitation = accepted_invitation;
      membership = membership;
      audit_event = audit_event;
    }

  unfoldable pub plan_invitation_acceptance :
      Text → Text → MembershipInvitation → Datetime → Text → Outcome Error InvitationAcceptancePlan
  plan_invitation_acceptance authenticated_user_id verified_email invitation clock audit_event_id =
      do
        user_id ← require_non_empty authenticated_user_id "authenticated_user_id"
        occurred_at ← normalize_utc clock "invitation_acceptance.occurred_at"
        raise_if (not (is_pending invitation.status))
            (invariant "only a pending invitation may be accepted")
        email ← normalize_invitation_email casefold verified_email
        raise_if (not (text_eq invitation.email email))
            (invariant "verified email does not match the invitation")
        raise_if (has_expired invitation.expires_at occurred_at)
            (invariant "invitation has expired")
        accept user_id invitation occurred_at audit_event_id

  unfoldable pub plan_invitation_revocation :
      Text
      → Membership
      → MembershipInvitation
      → Datetime
      → Text
      → Outcome Error InvitationRevocationPlan
  plan_invitation_revocation actor_user_id actor_membership invitation clock audit_event_id = do
    raise_if (not (text_eq actor_membership.risk_workspace_id invitation.risk_workspace_id))
        (invariant "membership and invitation must belong to the same VWS")
    require_member_manager actor_user_id invitation.risk_workspace_id actor_membership
    raise_if (not (is_pending invitation.status))
        (invariant "only a pending invitation may be revoked")
    occurred_at ← normalize_utc clock "invitation_revocation.occurred_at"
    revoked ←
        post_init casefold
          record invitation { status = InvitationStatus.revoked; updated_at = occurred_at }
    audit_event ←
        user_event AuditEventType.member_invitation_revoked invitation.risk_workspace_id
          actor_user_id occurred_at audit_event_id
          ((codes "invitation_id", SafeValue.text invitation.id) ∷ [])
    ok record { invitation = revoked; audit_event = audit_event }
