-- ===== src/Workspaces/Service/Upkeep.antt =====
-- application/workspace_admin/service.py: the update of a workspace, and the operations on its mounts.
use ip_risk_agent_v.Base.{
  ℕ, ◌+◌, ◌==◌, max, Bool, not, ◌&&◌, if◌then◌else◌, Option, none, some, [], ◌∷◌, Text, codes,
  text_eq, same_text, Instant, Datetime, normalize_utc, Outcome, ok, raised, Error, not_found,
  invariant,
}
use ip_risk_agent_v.Exec.{Exec, pure, lift, gets, refuse_if, ◌>>=◌, ◌>>◌}
use ip_risk_agent_v.Workspaces.LicenseProfile.{Sha256}
use ip_risk_agent_v.Memberships.{Membership}
use ip_risk_agent_v.Memberships.Authorization.{VwsAction, authorize_vws_action, require_authorized}
use ip_risk_agent_v.Mounts.Models.{WorkspaceMount}
use ip_risk_agent_v.Mounts.Plans.{
  MountMutationPlan, MountRemovalPlan, plan_mount_rename, plan_mount_disable, plan_mount_removal,
}
use ip_risk_agent_v.Audit.{AuditEventType}
use ip_risk_agent_v.Risk.Events.{SafeValue}
use ip_risk_agent_v.Risk.Exclusion.Loops.{exclude_mount_risks}
use ip_risk_agent_v.Workspaces.Models.{RiskWorkspace}
use ip_risk_agent_v.Workspaces.Models
use ip_risk_agent_v.Workspaces.Invitations.{user_event}
use ip_risk_agent_v.Repositories.{ControlState}
use ip_risk_agent_v.Repositories.Workspaces as WorkspaceTable
use ip_risk_agent_v.Repositories.Mounts as MountTable
use ip_risk_agent_v.Repositories.Audit as AuditTable
use ip_risk_agent_v.Workspaces.Service.{require_workspace, require_membership}

abbrev pub or_text : Option Text → Text → Text
or_text none s = s
or_text (some t) s = t

abbrev pub provided : Option (Option Text) → Option Text → Option Text
provided none d = d
provided (some given) d = given

-- The workspace as an update leaves it: a microsecond after the last change at least.
abbrev pub updated_workspace : RiskWorkspace → Text → Option Text → Instant → RiskWorkspace
updated_workspace w name description now = record w {
  name = name;
  description = description;
  updated_at = max now (w.updated_at + 1);
}

-- The writes of an update that changes something.
unfoldable pub write_update :
    RiskWorkspace
    → Text
    → Text
    → Option Text
    → Text
    → Datetime
    → Text
    → Exec ControlState RiskWorkspace
write_update w risk_workspace_id name description actor_user_id clock audit_event_id = do
  now ← lift (normalize_utc clock "workspace_update.clock")
  updated ← lift (Models.post_init (updated_workspace w name description now))
  WorkspaceTable.save updated
  event ← lift (
      user_event AuditEventType.workspace_updated risk_workspace_id actor_user_id
        (max now (w.updated_at + 1)) audit_event_id
        ((codes "workspace_name", SafeValue.text updated.name) ∷ []))
  AuditTable.append event
  pure updated

abbrev pub check_mount : Text → Option WorkspaceMount → Outcome Error WorkspaceMount
check_mount workspace_id none = raised not_found
check_mount workspace_id (some mount) =
    if text_eq mount.risk_workspace_id workspace_id then ok mount else raised not_found

module _ (casefold : Text → Text) (sha : Sha256) (has_user : Text → Bool) where
  -- `description` is given if the caller provides one, which may be the absent one.
  unfoldable pub update_workspace :
      Text
      → Text
      → Datetime
      → Option Text
      → Option (Option Text)
      → Datetime
      → Text
      → Exec ControlState RiskWorkspace
  unfolding write_update
  update_workspace risk_workspace_id actor_user_id expected_updated_at name description clock
        audit_event_id =
      do
        expected ← lift (normalize_utc expected_updated_at "workspace_update.expected_updated_at")
        actor ← require_membership casefold sha has_user risk_workspace_id actor_user_id
        decision ← lift (
            authorize_vws_action actor_user_id risk_workspace_id (some actor)
              VwsAction.vws_security_manage none none)
        lift (require_authorized decision)
        w ← require_workspace risk_workspace_id
        refuse_if (not (w.updated_at == expected)) (invariant "workspace update version conflict")
        let next_name = or_text name w.name
        let next_description = provided description w.description
        let write =
            write_update w risk_workspace_id next_name next_description actor_user_id clock
              audit_event_id
        if text_eq next_name w.name && same_text next_description w.description
            then pure w
            else write

  -- `_membership_and_mount`
  unfoldable pub membership_and_mount :
      Text → Text → Text → Exec ControlState (Membership × WorkspaceMount)
  membership_and_mount workspace_id user_id mount_id = do
    membership ← require_membership casefold sha has_user workspace_id user_id
    found ← gets (λ s. MountTable.get s mount_id)
    mount ← lift (check_mount workspace_id found)
    pure (membership, mount)

  unfoldable pub rename_mount :
      Text → Text → Text → Text → Datetime → Text → Exec ControlState MountMutationPlan
  rename_mount risk_workspace_id actor_user_id mount_id new_alias clock audit_event_id = do
    found ← membership_and_mount risk_workspace_id actor_user_id mount_id
    plan ← lift (plan_mount_rename actor_user_id found.0 found.1 new_alias clock audit_event_id)
    MountTable.save casefold plan.mount
    AuditTable.append plan.audit_event
    pure plan

  -- The n-th event of the risks that are excluded has the id `event_ids n`.
  unfoldable pub disable_mount :
      Text → Text → Text → Datetime → Text → (ℕ → Text) → Exec ControlState MountMutationPlan
  disable_mount risk_workspace_id actor_user_id mount_id clock audit_event_id event_ids = do
    found ← membership_and_mount risk_workspace_id actor_user_id mount_id
    plan ← lift (plan_mount_disable actor_user_id found.0 found.1 clock audit_event_id)
    MountTable.save casefold plan.mount
    AuditTable.append plan.audit_event
    occurred_at ← lift (normalize_utc clock "mount_disable.occurred_at")
    exclude_mount_risks occurred_at (codes "mount was disabled") event_ids risk_workspace_id
        mount_id
    pure plan

  unfoldable pub remove_mount :
      Text → Text → Text → Datetime → Text → (ℕ → Text) → Exec ControlState MountRemovalPlan
  remove_mount risk_workspace_id actor_user_id mount_id clock audit_event_id event_ids = do
    found ← membership_and_mount risk_workspace_id actor_user_id mount_id
    plan ← lift (plan_mount_removal actor_user_id found.0 found.1 clock audit_event_id)
    occurred_at ← lift (normalize_utc clock "mount_removal.occurred_at")
    exclude_mount_risks occurred_at (codes "mount was removed") event_ids risk_workspace_id mount_id
    MountTable.remove casefold plan.mount_id
    AuditTable.append plan.audit_event
    pure plan
