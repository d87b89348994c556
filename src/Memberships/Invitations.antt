-- ===== src/Memberships/Invitations.antt =====
-- core/memberships/models.py and core/memberships/identity.py: invitations by email. `str.casefold` is an
-- argument.
use ip_risk_agent_v.Base.{
  ℕ, ◌==◌, Bool, true, false, not, if◌then◌else◌, Option, none, some, [], ◌∷◌, Text, codes, Instant,
  require_non_empty, require_chronological, Outcome, ok, ◌>>=◌, ◌>>◌, raise_if, Error, invariant,
}
use ip_risk_agent_v.Workspaces.LicenseProfile.{Sha256}
use ip_risk_agent_v.Identity.{stable_key}
use ip_risk_agent_v.Memberships.{MembershipRole, is_owner}

pub data InvitationStatus : Type 0 where
  pending accepted revoked expired : InvitationStatus

pub record MembershipInvitation : Type 0 where
  pub id : Text
  pub risk_workspace_id : Text
  pub email : Text
  pub role : MembershipRole
  pub status : InvitationStatus
  pub invited_by : Text
  pub created_at : Instant
  pub updated_at : Instant
  pub expires_at : Option Instant

abbrev pub is_pending : InvitationStatus → Bool
is_pending InvitationStatus.pending = true
is_pending _ = false

abbrev longer : ℕ → Text → Option (Text × Text) → Option (Text × Text)
longer c s (some (local, domain)) = some (c ∷ local, domain)
longer c s none = if c == 64 then some ([], s) else none

-- `s.rpartition("@")`, if it finds one.
unfoldable pub rpartition : Text → Option (Text × Text)
rpartition [] = none
rpartition (c ∷ s) = longer c s (rpartition s)

abbrev both_filled : Option (Text × Text) → Bool
both_filled (some (c ∷ local, d ∷ domain)) = true
both_filled _ = false

-- There is a separator, and something on both sides of the last one.
unfoldable pub is_address : Text → Bool
unfolding rpartition
is_address s = both_filled (rpartition s)

module _ (casefold : Text → Text) where
  unfoldable pub normalize_invitation_email : Text → Outcome Error Text
  unfolding is_address
  normalize_invitation_email email = do
    stripped ← require_non_empty email "invitation.email"
    raise_if (not (is_address (casefold stripped)))
        (invariant "invitation.email must contain a local part and domain")
    ok (casefold stripped)

  unfoldable pub invitation_id_for : Sha256 → Text → Text → Outcome Error Text
  unfolding normalize_invitation_email
  invitation_id_for sha risk_workspace_id email = do
    normalized ← normalize_invitation_email email
    stable_key sha (codes "membership-invitation") (risk_workspace_id ∷ normalized ∷ [])

  abbrev check_expires : Instant → Option Instant → Outcome Error (Unit {0})
  check_expires created_at none = ok tt
  check_expires created_at (some expires_at) =
      require_chronological created_at expires_at "membership_invitation.created_at"
        "membership_invitation.expires_at"

  -- `MembershipInvitation.__post_init__`, on timestamps that are instants already.
  unfoldable pub post_init : MembershipInvitation → Outcome Error MembershipInvitation
  unfolding is_address
  post_init i = do
    id ← require_non_empty i.id "membership_invitation.id"
    risk_workspace_id ←
        require_non_empty i.risk_workspace_id "membership_invitation.risk_workspace_id"
    invited_by ← require_non_empty i.invited_by "membership_invitation.invited_by"
    email ← require_non_empty i.email "membership_invitation.email"
    raise_if (not (is_address (casefold email)))
        (invariant "membership_invitation.email must contain a local part and domain")
    raise_if (is_owner i.role) (invariant "OWNER must be assigned through ownership transfer")
    require_chronological i.created_at i.updated_at "membership_invitation.created_at"
        "membership_invitation.updated_at"
    check_expires i.created_at i.expires_at
    ok record i {
      id = id;
      risk_workspace_id = risk_workspace_id;
      invited_by = invited_by;
      email = casefold email;
    }
