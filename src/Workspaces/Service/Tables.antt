-- ===== src/Workspaces/Service/Tables.antt =====
-- What the operations read of the two tables, and how they write them:
-- application/workspace_admin/service.py on application/repositories/in_memory.py.
use ip_risk_agent_v.Base.{
  Bool, ◌≡◌, arith, Option, none, some, Text, Dict, get_item, set_item, Outcome-cases, ok, inl, inr,
}
use ip_risk_agent_v.Exec.{◌>>=◌}
use ip_risk_agent_v.Exec.Rules.{Ensures, Reads}
use ip_risk_agent_v.Identity.{membership_id_for}
use ip_risk_agent_v.Memberships.{Membership}
use ip_risk_agent_v.Memberships.Invitations.{MembershipInvitation}
use ip_risk_agent_v.Workspaces.LicenseProfile.{Sha256}
use ip_risk_agent_v.Workspaces.Models.{RiskWorkspace}
use ip_risk_agent_v.Repositories.{ControlState, MembershipRecord}
use ip_risk_agent_v.Repositories.Workspaces as WorkspaceTable
use ip_risk_agent_v.Repositories.Memberships as MembershipTable
use ip_risk_agent_v.Repositories.Memberships.{as_member, as_invitation}
use ip_risk_agent_v.Workspaces.Service.{
  require_workspace, require_membership, require_invitation, found_or_missing,
}
use ip_risk_agent_v.Workspaces.Service.Owned.{IsAt}
use ip_risk_agent_v.Workspaces.Service.Frame.{HasTables}

found_or_missing-eq-ok :
    {A : Type 0} (o : Option A) (a : A) → found_or_missing o ≡ ok a → o ≡ some a
found_or_missing-eq-ok none a h = absurd (ground (arith, h))
found_or_missing-eq-ok (some b) a h = ground (arith, h)

as_member-eq-some :
    (o : Option MembershipRecord) (m : Membership)
    → as_member o ≡ some m
    → o ≡ some (MembershipRecord.member m)
as_member-eq-some none m h = absurd (ground (arith, h))
as_member-eq-some (some (MembershipRecord.member n)) m h = ground (arith, h)
as_member-eq-some (some (MembershipRecord.invitation i)) m h = absurd (ground (arith, h))

pub as_invitation-eq-some :
    (o : Option MembershipRecord) (i : MembershipInvitation)
    → as_invitation o ≡ some i
    → o ≡ some (MembershipRecord.invitation i)
as_invitation-eq-some none m h = absurd (ground (arith, h))
as_invitation-eq-some (some (MembershipRecord.member n)) i h = absurd (ground (arith, h))
as_invitation-eq-some (some (MembershipRecord.invitation j)) i h = ground (arith, h)

pub require_membership-eq-ok :
    (casefold : Text → Text) (sha : Sha256) (has_user : Text → Bool) (workspace_id user_id : Text)
    (s s' : ControlState) (m : Membership)
    → require_membership casefold sha has_user workspace_id user_id s ≡ ok (m, s')
    → (s' ≡ s)
      × (id : Text) × (membership_id_for sha workspace_id user_id ≡ ok id)
      × IsAt s.memberships id m
unfolding require_membership ◌>>=◌ MembershipTable.get
require_membership-eq-ok casefold sha has_user workspace_id user_id s s' m h =
    elim (Outcome-cases (membership_id_for sha workspace_id user_id)) [
      | inl (id, e) ↦
          let f : found_or_missing (as_member (get_item s.memberships id)) ≡ ok m =
            ground (arith, h, e) in
          let g =
            as_member-eq-some (get_item s.memberships id) m
              (found_or_missing-eq-ok (as_member (get_item s.memberships id)) m f) in
          (ground (arith, h, e, f), id, e, g)
      | inr (x, e) ↦ absurd (ground (arith, h, e))
    ]

module _ {ws : Dict RiskWorkspace} {ms : Dict MembershipRecord} where
  pub require_workspace-Reads :
      (id : Text) → Reads (HasTables ws ms) (require_workspace id) (λ w. get_item ws id ≡ some w)
  unfolding require_workspace ◌>>=◌ WorkspaceTable.get
  require_workspace-Reads id = record {
    at = λ s w s' (p, q) h.
        ground (arith, h, p, q, found_or_missing-eq-ok (get_item s.workspaces id) w);
  }

  module _ (casefold : Text → Text) (sha : Sha256) (has_user : Text → Bool) where
    pub require_membership-Reads :
        (workspace_id user_id : Text)
        → Reads
            (HasTables ws ms)
            (require_membership casefold sha has_user workspace_id user_id)
            (λ m. (id : Text) × (membership_id_for sha workspace_id user_id ≡ ok id) × IsAt ms id m)
    require_membership-Reads workspace_id user_id = record {
      at = λ s m s' (p, q) h.
          let (same, id, e, g) =
            require_membership-eq-ok casefold sha has_user workspace_id user_id s s' m h in
          (rw same (p, q), (id, e, rw (← q) g));
    }

    pub require_invitation-Reads :
        (id : Text)
        → Reads
            (HasTables ws ms)
            (require_invitation casefold sha has_user id)
            (λ i. get_item ms id ≡ some (MembershipRecord.invitation i))
    unfolding require_invitation ◌>>=◌ MembershipTable.get_invitation
    require_invitation-Reads id = record {
      at = λ s i s' (p, q) h.
          let f : found_or_missing (as_invitation (get_item s.memberships id)) ≡ ok i =
            ground (arith, h) in
          let g =
            as_invitation-eq-some (get_item s.memberships id) i
              (found_or_missing-eq-ok (as_invitation (get_item s.memberships id)) i f) in
          let same : s' ≡ s = ground (arith, h, f) in (rw same (p, q), rw (← q) g);
    }

  pub add_workspace-Ensures :
      (w : RiskWorkspace)
      → Ensures
          (HasTables ws ms)
          (WorkspaceTable.add w)
          (λ _ s. HasTables (set_item w.id w ws) ms s × (get_item ws w.id ≡ none))
  unfolding WorkspaceTable.add ◌>>=◌
  add_workspace-Ensures w = record { at = λ s a s' (p, q) h. ground (arith, h, p, q) }

  pub save_workspace-Ensures :
      (w : RiskWorkspace)
      → Ensures (HasTables ws ms) (WorkspaceTable.save w) (λ _. HasTables (set_item w.id w ws) ms)
  unfolding WorkspaceTable.save WorkspaceTable.save_over ◌>>=◌
  save_workspace-Ensures w = record { at = λ s a s' (p, q) h. ground (arith, h, p, q) }

  pub add_member-Ensures :
      (m : Membership)
      → Ensures (HasTables ws ms) (MembershipTable.add m) (λ _ s.
        HasTables ws (set_item m.id (MembershipRecord.member m) ms) s × (get_item ms m.id ≡ none))
  unfolding MembershipTable.add ◌>>=◌
  add_member-Ensures m = record { at = λ s a s' (p, q) h. ground (arith, h, p, q) }

  pub save_member-Ensures :
      (m : Membership)
      → Ensures
          (HasTables ws ms)
          (MembershipTable.save m)
          (λ _. HasTables ws (set_item m.id (MembershipRecord.member m) ms))
  unfolding MembershipTable.save MembershipTable.save_over ◌>>=◌
  save_member-Ensures m = record { at = λ s a s' (p, q) h. ground (arith, h, p, q) }

  pub add_invitation-Ensures :
      (i : MembershipInvitation)
      → Ensures (HasTables ws ms) (MembershipTable.add_invitation i) (λ _ s.
        HasTables ws (set_item i.id (MembershipRecord.invitation i) ms) s
        × (get_item ms i.id ≡ none))
  unfolding MembershipTable.add_invitation ◌>>=◌
  add_invitation-Ensures i = record { at = λ s a s' (p, q) h. ground (arith, h, p, q) }

  pub save_invitation-Ensures :
      (i : MembershipInvitation)
      → Ensures
          (HasTables ws ms)
          (MembershipTable.save_invitation i)
          (λ _. HasTables ws (set_item i.id (MembershipRecord.invitation i) ms))
  unfolding MembershipTable.save_invitation MembershipTable.save_invitation_over ◌>>=◌
  save_invitation-Ensures i = record { at = λ s a s' (p, q) h. ground (arith, h, p, q) }
