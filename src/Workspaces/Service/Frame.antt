-- ===== src/Workspaces/Service/Frame.antt =====
-- What leaves the tables of workspaces and memberships alone: application/workspace_admin/service.py.
use ip_risk_agent_v.Base.{ℕ, ◌+◌, Bool, ◌≡◌, Option, none, some, List, [], ◌∷◌, Text, Dict, Instant}
use ip_risk_agent_v.Exec.{Exec}
use ip_risk_agent_v.Exec.Rules.{
  Keeps, Keeps-bind, Keeps-modify, Keeps-pure, Keeps-lift, keeps_rules,
}
use ip_risk_agent_v.Audit.{AuditEvent}
use ip_risk_agent_v.Notifications.{Notification}
use ip_risk_agent_v.Mounts.Models.{WorkspaceMount}
use ip_risk_agent_v.Risk.{Risk}
use ip_risk_agent_v.Risk.Events.{RiskEvent, post_init}
use ip_risk_agent_v.Risk.Exclusion.{exclude_risk}
use ip_risk_agent_v.Risk.Exclusion.Loops.{
  record_change, exclude_risks, exclude_of_files, exclude_mount_risks,
}
use ip_risk_agent_v.Workspaces.LicenseProfile.{Sha256}
use ip_risk_agent_v.Workspaces.Models.{RiskWorkspace}
use ip_risk_agent_v.Repositories.{ControlState, MembershipRecord}
use ip_risk_agent_v.Repositories.Audit as AuditTable
use ip_risk_agent_v.Repositories.Mounts as MountTable
use ip_risk_agent_v.Repositories.Notifications as NotificationTable
use ip_risk_agent_v.Repositories.Risks as RiskTable
use ip_risk_agent_v.Workspaces.Service.{notify, save_mounts}

-- The state has these tables of workspaces and memberships.
abbrev pub HasTables : Dict RiskWorkspace → Dict MembershipRecord → ControlState → Type 0
HasTables ws ms s = (s.workspaces ≡ ws) × (s.memberships ≡ ms)

module _ {ws : Dict RiskWorkspace} {ms : Dict MembershipRecord} where
  pub append-Keeps : (e : AuditEvent) → Keeps (HasTables ws ms) (AuditTable.append e)
  unfolding AuditTable.append
  append-Keeps e = search (keeps_rules, Keeps-modify)

  pub notify-Keeps : (n : Option Notification) → Keeps (HasTables ws ms) (notify n)
  unfolding NotificationTable.add
  notify-Keeps none = search keeps_rules
  notify-Keeps (some n) = search (keeps_rules, Keeps-modify)

  module _ (casefold : Text → Text) where
    save_mount_over-Keeps :
        (old : Option WorkspaceMount) (m : WorkspaceMount)
        → Keeps (HasTables ws ms) (MountTable.save_over casefold old m)
    unfolding MountTable.save_over
    save_mount_over-Keeps none m = search keeps_rules
    save_mount_over-Keeps (some old) m = search (keeps_rules, Keeps-modify) depth 16

    pub save_mount-Keeps :
        (m : WorkspaceMount) → Keeps (HasTables ws ms) (MountTable.save casefold m)
    unfolding MountTable.save
    save_mount-Keeps m = search (keeps_rules, save_mount_over-Keeps)

    remove_known-Keeps :
        (old : Option WorkspaceMount) (id : Text)
        → Keeps (HasTables ws ms) (MountTable.remove_known casefold old id)
    unfolding MountTable.remove_known
    remove_known-Keeps none id = search keeps_rules
    remove_known-Keeps (some old) id = search (keeps_rules, Keeps-modify)

    pub remove_mount-Keeps : (id : Text) → Keeps (HasTables ws ms) (MountTable.remove casefold id)
    unfolding MountTable.remove
    remove_mount-Keeps id = search (keeps_rules, remove_known-Keeps)

    module _ (sha : Sha256) (has_user : Text → Bool) where
      pub save_mounts-Keeps :
          (mounts : List WorkspaceMount)
          → Keeps (HasTables ws ms) (save_mounts casefold sha has_user mounts)
      unfolding save_mounts
      save_mounts-Keeps [] = search keeps_rules
      save_mounts-Keeps (m ∷ mounts) =
          Keeps-bind _ _ (save_mount-Keeps m) (λ _. save_mounts-Keeps mounts)

  save_risk_over-Keeps :
      (old : Option Risk) (r : Risk) → Keeps (HasTables ws ms) (RiskTable.save_over old r)
  unfolding RiskTable.save_over
  save_risk_over-Keeps none r = search keeps_rules
  save_risk_over-Keeps (some old) r = search (keeps_rules, Keeps-modify) depth 16

  save_risk-Keeps : (r : Risk) → Keeps (HasTables ws ms) (RiskTable.save r)
  unfolding RiskTable.save
  save_risk-Keeps r = search (keeps_rules, save_risk_over-Keeps)

  append_event-Keeps : (e : RiskEvent) → Keeps (HasTables ws ms) (RiskTable.append_event e)
  unfolding RiskTable.append_event
  append_event-Keeps e = search (keeps_rules, Keeps-modify)

  record_change-Keeps :
      (step : Option (Risk × RiskEvent)) (same changed : Exec ControlState (List Text))
      → Keeps (HasTables ws ms) same
      → Keeps (HasTables ws ms) changed
      → Keeps (HasTables ws ms) (record_change step same changed)
  unfolding record_change
  record_change-Keeps none same changed a b = a
  record_change-Keeps (some (r, e)) same changed a b = Keeps-bind _ _ (save_risk-Keeps r) (λ _.
      Keeps-bind _ _ (Keeps-lift (post_init e)) (λ event.
        Keeps-bind _ _ (append_event-Keeps event)
          (λ _. Keeps-bind _ _ b (λ others. Keeps-pure (r.id ∷ others)))))

  module _ (at : Instant) (reason : Text) (ids : ℕ → Text) where
    exclude_risks-Keeps :
        (n : ℕ) (risks : List Risk) → Keeps (HasTables ws ms) (exclude_risks at reason ids n risks)
    unfolding exclude_risks
    exclude_risks-Keeps n [] = search keeps_rules
    exclude_risks-Keeps n (r ∷ risks) =
        Keeps-bind _ _ (Keeps-lift (exclude_risk r at reason (ids n))) (λ step.
          record_change-Keeps step (exclude_risks at reason ids n risks)
            (exclude_risks at reason ids (n + 1) risks) (exclude_risks-Keeps n risks)
            (exclude_risks-Keeps (n + 1) risks))

    exclude_of_files-Keeps :
        (workspace_id : Text) (files : List Text)
        → Keeps (HasTables ws ms) (exclude_of_files at reason ids workspace_id files)
    exclude_of_files-Keeps workspace_id [] = search keeps_rules
    exclude_of_files-Keeps workspace_id (f ∷ files) = search (keeps_rules, exclude_risks-Keeps)

    pub exclude_mount_risks-Keeps :
        (workspace_id mount_id : Text)
        → Keeps (HasTables ws ms) (exclude_mount_risks at reason ids workspace_id mount_id)
    unfolding exclude_mount_risks
    exclude_mount_risks-Keeps workspace_id mount_id = search (keeps_rules, exclude_of_files-Keeps)
