-- ===== src/Repositories/Memberships.antt =====
-- `InMemoryMembershipRepository` of application/repositories/in_memory.py.
use ip_risk_agent_v.Base.{
  not, ◌||◌, is_some, Option, none, some, List, [], ◌∷◌, Text, text_eq, text_leb, sorted, keep,
  get_item, set_item, values, not_found, unique_violation,
}
use ip_risk_agent_v.Exec.{Exec, raise, lift, gets, modify, refuse_if, ◌>>=◌, ◌>>◌}
use ip_risk_agent_v.Workspaces.LicenseProfile.{Sha256}
use ip_risk_agent_v.Identity.{membership_id_for}
use ip_risk_agent_v.Memberships.{Membership}
use ip_risk_agent_v.Memberships.Invitations.{MembershipInvitation, normalize_invitation_email}
use ip_risk_agent_v.Repositories.{ControlState, MembershipRecord}

-- `record if isinstance(record, Membership) else None`, and the same for an invitation.
abbrev pub as_member : Option MembershipRecord → Option Membership
as_member (some (MembershipRecord.member m)) = some m
as_member _ = none

abbrev pub as_invitation : Option MembershipRecord → Option MembershipInvitation
as_invitation (some (MembershipRecord.invitation i)) = some i
as_invitation _ = none

unfoldable pub get : Sha256 → Text → Text → Exec ControlState (Option Membership)
get sha risk_workspace_id user_id = do
  id ← lift (membership_id_for sha risk_workspace_id user_id)
  gets (λ s. as_member (get_item s.memberships id))

unfoldable pub get_invitation : ControlState → Text → Option MembershipInvitation
get_invitation s invitation_id = as_invitation (get_item s.memberships invitation_id)

abbrev pub put : Text → MembershipRecord → ControlState → ControlState
put id r s = record s { memberships = set_item id r s.memberships }

unfoldable pub add : Membership → Exec ControlState (Unit {0})
add membership = do
  known ← gets (λ s. get_item s.memberships membership.id)
  refuse_if (is_some known) (unique_violation "membership record already exists")
  modify (put membership.id (MembershipRecord.member membership))

unfoldable pub save_over : Option Membership → Membership → Exec ControlState (Unit {0})
save_over none membership = raise not_found
save_over (some previous) membership = do
  refuse_if
      (not (text_eq previous.risk_workspace_id membership.risk_workspace_id)
        || not (text_eq previous.user_id membership.user_id))
      (unique_violation "membership identity fields are immutable")
  modify (put membership.id (MembershipRecord.member membership))

unfoldable pub save : Membership → Exec ControlState (Unit {0})
unfolding save_over
save membership = do
  previous ← gets (λ s. as_member (get_item s.memberships membership.id))
  save_over previous membership

unfoldable pub add_invitation : MembershipInvitation → Exec ControlState (Unit {0})
add_invitation invitation = do
  known ← gets (λ s. get_item s.memberships invitation.id)
  refuse_if (is_some known) (unique_violation "membership record already exists")
  modify (put invitation.id (MembershipRecord.invitation invitation))

unfoldable pub save_invitation_over :
    Option MembershipInvitation → MembershipInvitation → Exec ControlState (Unit {0})
save_invitation_over none invitation = raise not_found
save_invitation_over (some previous) invitation = do
  refuse_if
      (not (text_eq previous.risk_workspace_id invitation.risk_workspace_id)
        || not (text_eq previous.email invitation.email))
      (unique_violation "membership invitation identity fields are immutable")
  modify (put invitation.id (MembershipRecord.invitation invitation))

unfoldable pub save_invitation : MembershipInvitation → Exec ControlState (Unit {0})
unfolding save_invitation_over
save_invitation invitation = do
  previous ← gets (λ s. as_invitation (get_item s.memberships invitation.id))
  save_invitation_over previous invitation

-- The memberships among the records, and the invitations.
unfoldable pub members_of : List MembershipRecord → List Membership
members_of [] = []
members_of (MembershipRecord.member m ∷ rs) = m ∷ members_of rs
members_of (MembershipRecord.invitation i ∷ rs) = members_of rs

unfoldable pub invitations_of : List MembershipRecord → List MembershipInvitation
invitations_of [] = []
invitations_of (MembershipRecord.member m ∷ rs) = invitations_of rs
invitations_of (MembershipRecord.invitation i ∷ rs) = i ∷ invitations_of rs

unfoldable pub list_members : ControlState → Text → List Membership
unfolding members_of
list_members s risk_workspace_id =
    sorted (λ a b. text_leb a.id b.id)
      (keep (λ m. text_eq m.risk_workspace_id risk_workspace_id)
        (members_of (values s.memberships)))

unfoldable pub list_invitations : ControlState → Text → List MembershipInvitation
unfolding invitations_of
list_invitations s risk_workspace_id =
    sorted (λ a b. text_leb a.id b.id)
      (keep (λ i. text_eq i.risk_workspace_id risk_workspace_id)
        (invitations_of (values s.memberships)))

unfoldable pub list_invitations_for_email :
    (Text → Text) → Text → Exec ControlState (List MembershipInvitation)
unfolding invitations_of
list_invitations_for_email casefold email = do
  normalized_email ← lift (normalize_invitation_email casefold email)
  gets (λ s.
      sorted (λ a b. text_leb a.id b.id)
        (keep (λ i. text_eq i.email normalized_email) (invitations_of (values s.memberships))))
