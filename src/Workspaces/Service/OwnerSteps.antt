-- ===== src/Workspaces/Service/OwnerSteps.antt =====
-- Each operation on workspaces and mounts keeps the tables in order:
-- application/workspace_admin/service.py.
use ip_risk_agent_v.Base.{
  ℕ, ◌≡◌, ◌∙◌, refl, sym, ap, subst, arith, ◌&&◌, Bool, Option, some, Text, text_eq, same_text,
  Dict, get_item, set_item, Datetime, naive, aware, IsNormal, require_non_empty-IsNormal, ok,
}
use ip_risk_agent_v.Exec.{pure}
use ip_risk_agent_v.Exec.Rules.{
  Keeps, Reads-bind, Ensures-bind, Ensures-branch, Ensures-lift, Ensures-after, Keeps-lift,
  Keeps-pure, Keeps-refuse_if, keeps_rules,
}
use ip_risk_agent_v.Memberships.{Membership, MembershipRole}
use ip_risk_agent_v.Workspaces.LicenseProfile.{Sha256}
use ip_risk_agent_v.Workspaces.Models.{RiskWorkspace}
use ip_risk_agent_v.Workspaces.Models
use ip_risk_agent_v.Repositories.{MembershipRecord}
use ip_risk_agent_v.Workspaces.Ownership.{
  OwnershipTransferPlan, WorkspaceDeletionPlan, plan_workspace_deletion,
}
use ip_risk_agent_v.Workspaces.Ownership.Changes.{post_init-owner}
use ip_risk_agent_v.Workspaces.Ownership.Deletion.{marked, plan_workspace_deletion-made}
use ip_risk_agent_v.Workspaces.Service.{
  create_workspace, transfer_ownership, request_workspace_deletion,
}
use ip_risk_agent_v.Workspaces.Service.Upkeep.{
  or_text, provided, updated_workspace, write_update, update_workspace, membership_and_mount,
  rename_mount, disable_mount, remove_mount,
}
use ip_risk_agent_v.Workspaces.Service.Owned.{IsAt, IsOwned}
use ip_risk_agent_v.Workspaces.Service.Lasting.{Stays-refl, Stays-trans, put_member-Stays}
use ip_risk_agent_v.Workspaces.Service.Writes.{put_workspace-IsOwned}
use ip_risk_agent_v.Workspaces.Service.Handover.{handover-IsOwned, create-IsOwned}
use ip_risk_agent_v.Workspaces.Service.Changes.{
  IsHandover, plan_ownership_transfer-IsHandover, post_init-id,
}
use ip_risk_agent_v.Workspaces.Service.Founding.{plan_workspace_creation-IsFounding}
use ip_risk_agent_v.Workspaces.Service.Frame.{
  HasTables, append-Keeps, save_mount-Keeps, remove_mount-Keeps, exclude_mount_risks-Keeps,
}
use ip_risk_agent_v.Workspaces.Service.Steps.{Settles, settled}
use ip_risk_agent_v.Workspaces.Service.Tables.{
  require_workspace-Reads, require_membership-Reads, add_workspace-Ensures, save_workspace-Ensures,
  add_member-Ensures, save_member-Ensures,
}

module _ (casefold : Text → Text) (sha : Sha256) (has_user : Text → Bool) {ws : Dict RiskWorkspace}
    {ms : Dict MembershipRecord} (h : IsOwned sha ws ms) where
  handed_over-IsOwned :
      (k p q : Text) (w : RiskWorkspace) (m n : Membership) (plan : OwnershipTransferPlan)
      → get_item ws k ≡ some w
      → IsAt ms p m
      → IsAt ms q n
      → IsHandover w m n plan
      → let former = plan.previous_owner_membership in
        let latter = plan.new_owner_membership in
        IsOwned sha (set_item plan.workspace.id plan.workspace ws) (
          set_item latter.id
            (MembershipRecord.member latter)
            (set_item former.id (MembershipRecord.member former) ms))
  handed_over-IsOwned k p q w m n plan there mp nq c =
      let (name, _) = h.named k w there in
      let mk : m.risk_workspace_id ≡ k = sym c.scope ∙ name in
      let nk : n.risk_workspace_id ≡ k = sym c.scopes ∙ mk in
      let o = h.member p m mp in
      let known : get_item ws k ≡ some o.workspace = rw (← mk) o.known in
      let same : o.workspace ≡ w = ground (arith, there, known) in
      let mo : m.user_id ≡ w.owner_user_id =
        o.owns.0 c.made.held ∙ ap (λ z. z.owner_user_id) same in
      let all =
        handover-IsOwned sha ws ms h k w plan.workspace there c.workspace p q m n
          plan.previous_owner_membership plan.new_owner_membership mp nq c.former c.latter mk nk mo
          c.made.other c.made.owner (λ e. let r = c.made.previous_role in ground (arith, e, r))
          c.made.next_role c.made.next_status in
      let wk : plan.workspace.id ≡ k = c.workspace ∙ name in
      let fp : plan.previous_owner_membership.id ≡ p = c.former.id ∙ o.key in
      let lq : plan.new_owner_membership.id ≡ q = c.latter.id ∙ (h.member q n nq).key in
      let tables = λ (z : Text) (y : Text) (x : Text). IsOwned sha (set_item z plan.workspace ws) (
        set_item y (MembershipRecord.member plan.new_owner_membership)
          (set_item x (MembershipRecord.member plan.previous_owner_membership) ms)) in
      subst (λ z. tables z plan.new_owner_membership.id plan.previous_owner_membership.id) (sym wk)
        (subst (λ y. tables k y plan.previous_owner_membership.id) (sym lq)
          (subst (λ x. tables k q x) (sym fp) all))

  pub transfer_ownership-Settles :
      (workspace_id actor new_owner : Text) (clock : Datetime) (audit_id : Text)
      → Settles sha ws ms
          (transfer_ownership casefold sha has_user workspace_id actor new_owner clock audit_id)
  unfolding transfer_ownership
  transfer_ownership-Settles workspace_id actor new_owner clock audit_id =
      Reads-bind _ _ _ (require_workspace-Reads workspace_id) (λ w there.
        Reads-bind _ _ _ (require_membership-Reads casefold sha has_user workspace_id actor)
          (λ m (p, _, a).
            Reads-bind _ _ _ (require_membership-Reads casefold sha has_user workspace_id new_owner)
              (λ n (q, _, b). Ensures-lift _ _ (λ plan e.
                Ensures-bind _ _ _ _ (save_workspace-Ensures plan.workspace) (λ _.
                  Ensures-bind _ _ _ _ (save_member-Ensures plan.previous_owner_membership) (λ _.
                    Ensures-bind _ _ _ _ (save_member-Ensures plan.new_owner_membership) (λ _.
                      settled sha _ _ _
                        (handed_over-IsOwned workspace_id p q w m n plan there a b (
                          plan_ownership_transfer-IsHandover actor w m n
                            MembershipRole.source_manager clock audit_id plan
                            (h.named workspace_id w there).1 (h.member p m a).valid
                            (h.member q n b).valid e))
                        (Stays-trans (put_member-Stays ms _ plan.previous_owner_membership)
                          (put_member-Stays _ _ plan.new_owner_membership))
                        (search (keeps_rules, append-Keeps)))))))))

  pub create_workspace-Settles :
      (workspace_id owner name security retention : Text) (clock : Datetime) (audit_id : Text)
      (description : Option Text)
      → Settles sha ws ms (
          create_workspace casefold sha has_user workspace_id owner name security retention clock
            audit_id description)
  unfolding create_workspace
  create_workspace-Settles workspace_id owner name security retention clock audit_id description =
      Ensures-lift _ _ (λ id e. Ensures-lift _ _ (λ p k.
        Ensures-after _ _ (Keeps-refuse_if _ _) (λ _.
          Reads-bind _ _ _ (add_workspace-Ensures p.workspace) (λ _ new.
            Reads-bind _ _ _ (add_member-Ensures p.owner_membership) (λ _ fresh.
              let c =
                plan_workspace_creation-IsFounding sha id workspace_id owner name security retention
                  clock audit_id description p e k in
              settled sha _ _ _
                (create-IsOwned sha ws ms h p.workspace p.owner_membership new fresh c.named c.valid
                  c.identity c.scope c.user c.role c.status)
                (put_member-Stays ms _ p.owner_membership) (search (keeps_rules, append-Keeps)))))))

  -- The id and the owner of a workspace need no stripping.
  owner-IsNormal :
      (k : Text) (w : RiskWorkspace)
      → get_item ws k ≡ some w
      → IsNormal w.owner_user_id "risk_workspace.owner_user_id"
  owner-IsNormal k w e =
      let (id, m, a, _, u, _) = h.headed k w e in
      subst (λ z. IsNormal z "risk_workspace.owner_user_id") u
        (require_non_empty-IsNormal m.user_id "membership.user_id" "risk_workspace.owner_user_id"
          (h.member id m a).valid.user_id)

  -- A workspace is saved after a change that leaves its owner alone.
  kept_workspace-IsOwned :
      (k : Text) (w v x : RiskWorkspace)
      → get_item ws k ≡ some w
      → v.id ≡ w.id
      → v.owner_user_id ≡ w.owner_user_id
      → Models.post_init v ≡ ok x
      → IsOwned sha (set_item x.id x ws) ms
  kept_workspace-IsOwned k w v x e i o c =
      let (name, n) = h.named k w e in
      let same : x.id ≡ w.id = post_init-id v x (rw i n) c ∙ i in
      let owner : x.owner_user_id ≡ w.owner_user_id =
        post_init-owner v x (rw o (owner-IsNormal k w e)) c ∙ o in
      subst (λ z. IsOwned sha (set_item z x ws) ms) (sym (same ∙ name))
        (put_workspace-IsOwned sha ws ms h k w x e same owner)

  deleting-IsOwned :
      (actor : Text) (am : Membership) (k : Text) (w : RiskWorkspace) (clock : Datetime)
      (audit_id : Text) (p : WorkspaceDeletionPlan)
      → get_item ws k ≡ some w
      → plan_workspace_deletion actor am w clock audit_id ≡ ok p
      → IsOwned sha (set_item p.workspace.id p.workspace ws) ms
  unfolding plan_workspace_deletion
  deleting-IsOwned actor am k w (naive t) audit_id p there e = absurd (ground (arith, e))
  deleting-IsOwned actor am k w (aware t) audit_id p there e =
      let (_, _, c) = plan_workspace_deletion-made actor am w t audit_id p e in
      kept_workspace-IsOwned k w (marked w t) p.workspace there refl refl c

  pub request_workspace_deletion-Settles :
      (workspace_id actor : Text) (clock : Datetime) (audit_id : Text)
      → Settles sha ws ms
          (request_workspace_deletion casefold sha has_user workspace_id actor clock audit_id)
  unfolding request_workspace_deletion
  request_workspace_deletion-Settles workspace_id actor clock audit_id =
      Reads-bind _ _ _ (require_membership-Reads casefold sha has_user workspace_id actor) (λ am _.
        Reads-bind _ _ _ (require_workspace-Reads workspace_id) (λ w there. Ensures-lift _ _ (λ p e.
          Ensures-bind _ _ _ _ (save_workspace-Ensures p.workspace) (λ _.
            settled sha _ _ _ (deleting-IsOwned actor am workspace_id w clock audit_id p there e)
              (Stays-refl ms) (search (keeps_rules, append-Keeps))))))

  write_update-Settles :
      (k : Text) (w : RiskWorkspace) (workspace_id name : Text) (description : Option Text)
      (actor : Text) (clock : Datetime) (audit_id : Text)
      → get_item ws k ≡ some w
      → Settles sha ws ms (write_update w workspace_id name description actor clock audit_id)
  unfolding write_update
  write_update-Settles k w workspace_id name description actor clock audit_id there =
      Ensures-lift _ _ (λ now _. Ensures-lift _ _ (λ x c.
        Ensures-bind _ _ _ _ (save_workspace-Ensures x) (λ _.
          settled sha _ _ _
            (kept_workspace-IsOwned k w (updated_workspace w name description now) x there refl refl
              c)
            (Stays-refl ms) (search (keeps_rules, append-Keeps)))))

  pub update_workspace-Settles :
      (workspace_id actor : Text) (expected : Datetime) (name : Option Text)
      (description : Option (Option Text)) (clock : Datetime) (audit_id : Text)
      → Settles sha ws ms (
          update_workspace casefold sha has_user workspace_id actor expected name description clock
            audit_id)
  unfolding update_workspace
  update_workspace-Settles workspace_id actor expected name description clock audit_id =
      Ensures-lift _ _ (λ version _.
        Reads-bind _ _ _ (require_membership-Reads casefold sha has_user workspace_id actor)
          (λ am _. Ensures-lift _ _ (λ decision _. Ensures-after _ _ (Keeps-lift _) (λ _.
            Reads-bind _ _ _ (require_workspace-Reads workspace_id) (λ w there.
              Ensures-after _ _ (Keeps-refuse_if _ _) (λ _.
                let n = or_text name w.name in
                let d = provided description w.description in
                Ensures-branch (text_eq n w.name && same_text d w.description) (pure w)
                  (write_update w workspace_id n d actor clock audit_id)
                  (λ _. settled sha _ _ _ h (Stays-refl ms) (Keeps-pure w))
                  (λ _.
                    write_update-Settles workspace_id w workspace_id n d actor clock audit_id
                      there)))))))

  membership_and_mount-Keeps :
      (workspace_id user mount_id : Text)
      → Keeps
          (HasTables ws ms)
          (membership_and_mount casefold sha has_user workspace_id user mount_id)
  unfolding membership_and_mount
  membership_and_mount-Keeps workspace_id user mount_id =
      Reads-bind _ _ _ (require_membership-Reads casefold sha has_user workspace_id user)
        (λ m _. search keeps_rules)

  pub rename_mount-Settles :
      (workspace_id actor mount_id alias : Text) (clock : Datetime) (audit_id : Text)
      → Settles sha ws ms
          (rename_mount casefold sha has_user workspace_id actor mount_id alias clock audit_id)
  unfolding rename_mount
  rename_mount-Settles workspace_id actor mount_id alias clock audit_id =
      settled sha _ _ _ h (Stays-refl ms)
        (search (keeps_rules, membership_and_mount-Keeps, save_mount-Keeps, append-Keeps) depth 16)

  pub disable_mount-Settles :
      (workspace_id actor mount_id : Text) (clock : Datetime) (audit_id : Text) (ids : ℕ → Text)
      → Settles sha ws ms
          (disable_mount casefold sha has_user workspace_id actor mount_id clock audit_id ids)
  unfolding disable_mount
  disable_mount-Settles workspace_id actor mount_id clock audit_id ids =
      settled sha _ _ _ h (Stays-refl ms) (
        search
          (
            keeps_rules, membership_and_mount-Keeps, save_mount-Keeps, append-Keeps,
            exclude_mount_risks-Keeps,
          )
          depth 20)

  pub remove_mount-Settles :
      (workspace_id actor mount_id : Text) (clock : Datetime) (audit_id : Text) (ids : ℕ → Text)
      → Settles sha ws ms
          (remove_mount casefold sha has_user workspace_id actor mount_id clock audit_id ids)
  unfolding remove_mount
  remove_mount-Settles workspace_id actor mount_id clock audit_id ids =
      settled sha _ _ _ h (Stays-refl ms) (
        search
          (
            keeps_rules, membership_and_mount-Keeps, remove_mount-Keeps, append-Keeps,
            exclude_mount_risks-Keeps,
          )
          depth 20)
