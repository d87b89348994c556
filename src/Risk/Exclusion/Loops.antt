-- ===== src/Risk/Exclusion/Loops.antt =====
-- application/risk_exclusion.py: the loops over the risks of a file, a mount or a list. The n-th event
-- that a loop appends has the id `ids n`.
use ip_risk_agent_v.Base.{
  ℕ, ◌+◌, any, Option, none, some, List, [], ◌∷◌, map, keep, Text, text_eq, Instant,
}
use ip_risk_agent_v.Exec.{Exec, pure, lift, gets, ◌>>=◌, ◌>>◌}
use ip_risk_agent_v.Risk.{Risk}
use ip_risk_agent_v.Risk.Events.{RiskEvent, post_init}
use ip_risk_agent_v.Risk.Exclusion.{exclude_risk, revive_risk}
use ip_risk_agent_v.Repositories.{ControlState}
use ip_risk_agent_v.Repositories.Risks.{save, append_event, list_events, list_for_workspace}
use ip_risk_agent_v.Repositories.Artifacts as Artifacts

-- The rest of a loop, after a risk that was left alone or that is saved with its event.
unfoldable pub record_change :
    Option (Risk × RiskEvent)
    → Exec ControlState (List Text)
    → Exec ControlState (List Text)
    → Exec ControlState (List Text)
record_change none left_alone changed = left_alone
record_change (some (updated, e)) left_alone changed = do
  save updated
  event ← lift (post_init e)
  append_event event
  others ← changed
  pure (updated.id ∷ others)

module _ (occurred_at : Instant) (reason_safe : Text) (ids : ℕ → Text) where
  unfoldable pub exclude_risks : ℕ → List Risk → Exec ControlState (List Text)
  unfolding record_change
  exclude_risks n [] = pure []
  exclude_risks n (risk ∷ risks) =
      let same = exclude_risks n risks in
      let next = exclude_risks (n + 1) risks in
      do
        step ← lift (exclude_risk risk occurred_at reason_safe (ids n))
        record_change step same next

  unfoldable pub exclude_artifact_risks : Text → Text → Exec ControlState (List Text)
  unfolding exclude_risks
  exclude_artifact_risks risk_workspace_id artifact_id = do
    risks ← gets (λ s. list_for_workspace s risk_workspace_id)
    exclude_risks 0 (keep (λ r. text_eq r.artifact_id artifact_id) risks)

  -- The risks of the files of a mount, if it has any.
  abbrev pub exclude_of_files : Text → List Text → Exec ControlState (List Text)
  exclude_of_files risk_workspace_id [] = pure []
  exclude_of_files risk_workspace_id (id ∷ artifact_ids) = do
    risks ← gets (λ s. list_for_workspace s risk_workspace_id)
    exclude_risks 0 (keep (λ r. any (text_eq r.artifact_id) (id ∷ artifact_ids)) risks)

  unfoldable pub exclude_mount_risks : Text → Text → Exec ControlState (List Text)
  unfolding exclude_risks
  exclude_mount_risks risk_workspace_id mount_id = do
    artifacts ← gets (λ s. Artifacts.list_for_workspace s risk_workspace_id)
    exclude_of_files risk_workspace_id
        (map (λ a. a.id) (keep (λ a. text_eq a.mount_id mount_id) artifacts))

  unfoldable pub revive_risks : Text → Option Text → ℕ → List Risk → Exec ControlState (List Text)
  unfolding record_change
  revive_risks artifact_id revision n [] = pure []
  revive_risks artifact_id revision n (risk ∷ risks) =
      let same = revive_risks artifact_id revision n risks in
      let next = revive_risks artifact_id revision (n + 1) risks in
      do
        events ← gets (λ s. list_events s risk.id)
        step ← lift (revive_risk events risk artifact_id revision occurred_at reason_safe (ids n))
        record_change step same next

  unfoldable pub revive_artifact_risks : Text → Text → Option Text → Exec ControlState (List Text)
  unfolding revive_risks
  revive_artifact_risks risk_workspace_id artifact_id revision = do
    risks ← gets (λ s. list_for_workspace s risk_workspace_id)
    revive_risks artifact_id revision 0 risks
