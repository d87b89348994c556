-- ===== src/Workspaces/Service/Steps.antt =====
-- Each operation on members keeps the tables in order: application/workspace_admin/service.py.
use ip_risk_agent_v.Base.{
  ◌≡◌, ◌∙◌, refl, sym, subst, arith, Bool, Option, none, some, Text, Dict, get_item, set_item,
  Datetime, Instant,
}
use ip_risk_agent_v.Exec.{Exec}
use ip_risk_agent_v.Exec.Rules.{
  Ensures, Keeps, Reads-bind, Ensures-bind, Ensures-lift, Ensures-after, Ensures-so, Keeps-gets,
  Keeps-refuse_if, keeps_rules,
}
use ip_risk_agent_v.Memberships.{Membership, MembershipRole}
use ip_risk_agent_v.Memberships.Invitations.{MembershipInvitation}
use ip_risk_agent_v.Workspaces.LicenseProfile.{Sha256}
use ip_risk_agent_v.Workspaces.Models.{RiskWorkspace}
use ip_risk_agent_v.Repositories.{ControlState, MembershipRecord}
use ip_risk_agent_v.Workspaces.Invitations.{InvitationAcceptancePlan}
use ip_risk_agent_v.Workspaces.Service.{
  invite_member, accept_invitation, revoke_invitation, change_member_role, remove_member,
}
use ip_risk_agent_v.Workspaces.Service.Owned.{IsAt, IsOwned, Owned}
use ip_risk_agent_v.Workspaces.Service.Lasting.{
  Stays, Stays-trans, put_member-Stays, put_invitation-Stays,
}
use ip_risk_agent_v.Workspaces.Service.Writes.{
  add_member-IsOwned, put_member-IsOwned, put_invitation-IsOwned,
}
use ip_risk_agent_v.Workspaces.Service.Changes.{
  IsPlainChange, plan_role_change-IsPlainChange, plan_member_removal-IsPlainChange,
}
use ip_risk_agent_v.Workspaces.Service.Joining.{
  IsMade, IsAnswered, IsJoining, plan_membership_invitation-IsMade,
  plan_invitation_acceptance-IsJoining, plan_invitation_revocation-IsAnswered,
}
use ip_risk_agent_v.Workspaces.Service.Frame.{
  HasTables, append-Keeps, notify-Keeps, save_mounts-Keeps,
}
use ip_risk_agent_v.Workspaces.Service.Tables.{
  require_workspace-Reads, require_membership-Reads, require_invitation-Reads, add_member-Ensures,
  save_member-Ensures, add_invitation-Ensures, save_invitation-Ensures,
}

-- An operation leaves tables in order, with a membership wherever there was one.
abbrev pub Settles :
    Sha256
    → {A : Type 0} → Dict RiskWorkspace
    → Dict MembershipRecord
    → Exec ControlState A
    → Type 0
Settles sha ws ms m = Ensures (HasTables ws ms) m (λ _ s. Owned sha s × Stays ms s.memberships)

-- The last step of an operation appends its event; the tables are those that were written.
pub settled :
    (sha : Sha256) (ws : Dict RiskWorkspace) (ms : Dict MembershipRecord) {A : Type 0}
    (m : Exec ControlState A) {before : Dict MembershipRecord}
    → IsOwned sha ws ms
    → Stays before ms
    → Keeps (HasTables ws ms) m
    → Ensures (HasTables ws ms) m (λ _ s. Owned sha s × Stays before s.memberships)
settled sha ws ms m h st k = Ensures-so m (HasTables ws ms) k (λ a s (p, q). rw (p, q) (h, st))

module _ (casefold : Text → Text) (sha : Sha256) (has_user : Text → Bool) {ws : Dict RiskWorkspace}
    {ms : Dict MembershipRecord} (h : IsOwned sha ws ms) where
  -- A membership is saved after a change that leaves ownership alone.
  plain_change-IsOwned :
      (id : Text) (m n : Membership)
      → IsAt ms id m
      → IsPlainChange m n
      → IsOwned sha ws (set_item n.id (MembershipRecord.member n) ms)
  plain_change-IsOwned id m n a c =
      let key : n.id ≡ id = c.same.id ∙ (h.member id m a).key in
      subst (λ z. IsOwned sha ws (set_item z (MembershipRecord.member n) ms)) (sym key)
        (put_member-IsOwned sha ws ms h id m n a c.same.valid c.same.id c.same.scope c.same.user
          c.before c.after)

  pub change_member_role-Settles :
      (workspace_id actor target : Text) (role : MembershipRole) (clock : Datetime)
      (audit_id notice_id : Text)
      → Settles sha ws ms (
          change_member_role casefold sha has_user workspace_id actor target role clock audit_id
            notice_id)
  unfolding change_member_role
  change_member_role-Settles workspace_id actor target role clock audit_id notice_id =
      Reads-bind _ _ _ (require_membership-Reads casefold sha has_user workspace_id actor) (λ am _.
        Reads-bind _ _ _ (require_membership-Reads casefold sha has_user workspace_id target)
          (λ m (id, _, a). Reads-bind _ _ _ (require_workspace-Reads workspace_id) (λ w _.
            Ensures-after _ _ (Keeps-gets _) (λ mounts. Ensures-lift _ _ (λ p e.
              Ensures-bind _ _ _ _ (save_member-Ensures p.membership) (λ _.
                settled sha ws _ _
                  (plain_change-IsOwned id m p.membership a (
                    plan_role_change-IsPlainChange actor am m role clock audit_id mounts _ _ p
                      (h.member id m a).valid e))
                  (put_member-Stays ms p.membership.id p.membership)
                  (search (keeps_rules, save_mounts-Keeps, notify-Keeps, append-Keeps))))))))

  pub remove_member-Settles :
      (workspace_id actor target : Text) (clock : Datetime) (audit_id notice_id : Text)
      → Settles sha ws ms
          (remove_member casefold sha has_user workspace_id actor target clock audit_id notice_id)
  unfolding remove_member
  remove_member-Settles workspace_id actor target clock audit_id notice_id =
      Reads-bind _ _ _ (require_membership-Reads casefold sha has_user workspace_id actor) (λ am _.
        Reads-bind _ _ _ (require_membership-Reads casefold sha has_user workspace_id target)
          (λ m (id, _, a). Reads-bind _ _ _ (require_workspace-Reads workspace_id) (λ w _.
            Ensures-after _ _ (Keeps-gets _) (λ mounts. Ensures-lift _ _ (λ p e.
              Ensures-bind _ _ _ _ (save_member-Ensures p.membership) (λ _.
                settled sha ws _ _
                  (plain_change-IsOwned id m p.membership a (
                    plan_member_removal-IsPlainChange actor am m mounts w.owner_user_id clock
                      audit_id _ p (h.member id m a).valid e))
                  (put_member-Stays ms p.membership.id p.membership)
                  (search (keeps_rules, save_mounts-Keeps, notify-Keeps, append-Keeps))))))))

  known-IsMade :
      (id : Text) (i : MembershipInvitation)
      → get_item ms id ≡ some (MembershipRecord.invitation i)
      → IsMade i
  known-IsMade id i a =
      let v = h.invitation id i a in record { named = v.named; scoped = v.scoped; role = v.role }

  -- An invitation is saved with another status.
  answered-IsOwned :
      (id : Text) (i j : MembershipInvitation)
      → get_item ms id ≡ some (MembershipRecord.invitation i)
      → IsAnswered i j
      → IsOwned sha ws (set_item j.id (MembershipRecord.invitation j) ms)
  answered-IsOwned id i j a c =
      let v = h.invitation id i a in
      let key : j.id ≡ id = c.id ∙ v.key in
      put_invitation-IsOwned sha ws ms h j.id j
        record {
          key = refl;
          named = c.made.named;
          scoped = c.made.scoped;
          role = c.made.role;
          workspace = v.workspace;
          known = rw c.scope v.known;
        }
        (λ m b. let b' : IsAt ms id m = subst (λ z. IsAt ms z m) key b in ground (arith, a, b'))

  answered-Stays :
      (id : Text) (i j : MembershipInvitation)
      → get_item ms id ≡ some (MembershipRecord.invitation i)
      → IsAnswered i j
      → Stays ms (set_item j.id (MembershipRecord.invitation j) ms)
  answered-Stays id i j a c =
      let key : j.id ≡ id = c.id ∙ (h.invitation id i a).key in
      put_invitation-Stays ms j.id j
        (λ m b. let b' : IsAt ms id m = subst (λ z. IsAt ms z m) key b in ground (arith, a, b'))

  pub revoke_invitation-Settles :
      (workspace_id actor invitation_id : Text) (clock : Datetime) (audit_id : Text)
      → Settles sha ws ms
          (revoke_invitation casefold sha has_user workspace_id actor invitation_id clock audit_id)
  unfolding revoke_invitation
  revoke_invitation-Settles workspace_id actor invitation_id clock audit_id =
      Reads-bind _ _ _ (require_membership-Reads casefold sha has_user workspace_id actor) (λ am _.
        Reads-bind _ _ _ (require_invitation-Reads casefold sha has_user invitation_id) (λ i a.
          Ensures-lift _ _ (λ p e. Ensures-bind _ _ _ _ (save_invitation-Ensures p.invitation) (λ _.
            settled sha ws _ _
              (answered-IsOwned invitation_id i p.invitation a (
                plan_invitation_revocation-IsAnswered casefold sha actor am i clock audit_id p
                  (known-IsMade invitation_id i a) e))
              (answered-Stays invitation_id i p.invitation a (
                plan_invitation_revocation-IsAnswered casefold sha actor am i clock audit_id p
                  (known-IsMade invitation_id i a) e))
              (search (keeps_rules, append-Keeps))))))

  pub invite_member-Settles :
      (workspace_id actor email : Text) (role : MembershipRole) (expires : Option Instant)
      (clock : Datetime) (audit_id : Text)
      → Settles sha ws ms
          (invite_member casefold sha has_user workspace_id actor email role expires clock audit_id)
  unfolding invite_member
  invite_member-Settles workspace_id actor email role expires clock audit_id =
      Reads-bind _ _ _ (require_membership-Reads casefold sha has_user workspace_id actor)
        (λ am (id, _, a). Ensures-lift _ _ (λ p e.
          Reads-bind _ _ _ (add_invitation-Ensures p.invitation) (λ _ fresh.
            let o = h.member id am a in
            let (made, scope) =
              plan_membership_invitation-IsMade casefold sha actor am email role clock audit_id
                expires p o.valid e in
            settled sha ws _ _
              (put_invitation-IsOwned sha ws ms h p.invitation.id p.invitation
                record {
                  key = refl;
                  named = made.named;
                  scoped = made.scoped;
                  role = made.role;
                  workspace = o.workspace;
                  known = rw scope o.known;
                }
                (λ m b. ground (arith, fresh, b)))
              (put_invitation-Stays ms p.invitation.id p.invitation
                (λ m b. ground (arith, fresh, b)))
              (search (keeps_rules, append-Keeps)))))

  -- An accepted invitation, and the membership that it makes.
  joined-IsOwned :
      (user id : Text) (i : MembershipInvitation) (p : InvitationAcceptancePlan)
      → get_item ms id ≡ some (MembershipRecord.invitation i)
      → IsJoining casefold sha user i p
      → let ms' = set_item p.invitation.id (MembershipRecord.invitation p.invitation) ms in
        get_item ms' p.membership.id ≡ none
        → IsOwned sha ws (set_item p.membership.id (MembershipRecord.member p.membership) ms')
  joined-IsOwned user id i p a c fresh =
      let v = h.invitation id i a in
      let ms' = set_item p.invitation.id (MembershipRecord.invitation p.invitation) ms in
      add_member-IsOwned sha ws ms' (answered-IsOwned id i p.invitation a c.answer) p.membership.id
        p.membership v.workspace fresh c.valid refl c.identity (λ e. v.role (sym c.role ∙ e))
        (rw c.scope v.known)

  joined-Stays :
      (user id : Text) (i : MembershipInvitation) (p : InvitationAcceptancePlan)
      → get_item ms id ≡ some (MembershipRecord.invitation i)
      → IsJoining casefold sha user i p
      → let ms' = set_item p.invitation.id (MembershipRecord.invitation p.invitation) ms in
        Stays ms (set_item p.membership.id (MembershipRecord.member p.membership) ms')
  joined-Stays user id i p a c =
      Stays-trans (answered-Stays id i p.invitation a c.answer)
        (put_member-Stays _ p.membership.id p.membership)

  pub accept_invitation-Settles :
      (invitation_id user email : Text) (clock : Datetime) (audit_id : Text)
      → Settles sha ws ms
          (accept_invitation casefold sha has_user invitation_id user email clock audit_id)
  unfolding accept_invitation
  accept_invitation-Settles invitation_id user email clock audit_id =
      Ensures-after _ _ (Keeps-refuse_if _ _) (λ _.
        Reads-bind _ _ _ (require_invitation-Reads casefold sha has_user invitation_id) (λ i a.
          Ensures-lift _ _ (λ p e. Ensures-bind _ _ _ _ (save_invitation-Ensures p.invitation) (λ _.
            Reads-bind _ _ _ (add_member-Ensures p.membership) (λ _ fresh.
              settled sha ws _ _
                (joined-IsOwned user invitation_id i p a
                  (plan_invitation_acceptance-IsJoining casefold sha user email i clock audit_id p
                    (known-IsMade invitation_id i a) e)
                  fresh)
                (joined-Stays user invitation_id i p a (
                  plan_invitation_acceptance-IsJoining casefold sha user email i clock audit_id p
                    (known-IsMade invitation_id i a) e))
                (search (keeps_rules, append-Keeps)))))))
