-- ===== src/Repositories/ChangeEvents.antt =====
-- `InMemoryChangeEventRepository` of application/repositories/in_memory.py.
use ip_risk_agent_v.Base.{
  same_text, List, text_leb, sorted, keep, values, Bool, false, not, is_some, Option, none, some,
  Text, text_eq, get_item, set_item, not_found, unique_violation,
}
use ip_risk_agent_v.Exec.{Exec, raise, gets, modify, refuse_if, ◌>>=◌, ◌>>◌}
use ip_risk_agent_v.Execution.ChangeEvents.{ChangeEvent}
use ip_risk_agent_v.Repositories.{ControlState}

abbrev owned_elsewhere : Option Text → Text → Bool
owned_elsewhere none id = false
owned_elsewhere (some owner) id = not (text_eq owner id)

unfoldable pub get : ControlState → Text → Option ChangeEvent
get s change_event_id = get_item s.change_events change_event_id

abbrev event_of : ControlState → Option Text → Option ChangeEvent
event_of s none = none
event_of s (some event_id) = get_item s.change_events event_id

unfoldable pub get_by_fingerprint : ControlState → Text → Option ChangeEvent
get_by_fingerprint s fingerprint = event_of s (get_item s.change_events_by_fingerprint fingerprint)

abbrev write : ChangeEvent → ControlState → ControlState
write e s = record s {
  change_events = set_item e.id e s.change_events;
  change_events_by_fingerprint = set_item e.event_fingerprint e.id s.change_events_by_fingerprint;
}

unfoldable pub add : ChangeEvent → Exec ControlState (Unit {0})
add e = do
  known ← gets (λ s. get_item s.change_events e.id)
  refuse_if (is_some known) (unique_violation "change event already exists")
  owner ← gets (λ s. get_item s.change_events_by_fingerprint e.event_fingerprint)
  refuse_if (is_some owner) (unique_violation "change-event fingerprint already exists")
  modify (write e)

unfoldable pub save_over : Option ChangeEvent → ChangeEvent → Exec ControlState (Unit {0})
save_over none e = raise not_found
save_over (some previous) e = do
  refuse_if (not (text_eq previous.event_fingerprint e.event_fingerprint))
      (unique_violation "change-event fingerprint is immutable")
  owner ← gets (λ s. get_item s.change_events_by_fingerprint e.event_fingerprint)
  refuse_if (owned_elsewhere owner e.id)
      (unique_violation "change-event fingerprint already exists")
  modify (write e)

unfoldable pub save : ChangeEvent → Exec ControlState (Unit {0})
unfolding save_over
save e = do previous ← gets (λ s. get_item s.change_events e.id); save_over previous e

unfoldable pub list_for_artifact : ControlState → Text → List ChangeEvent
list_for_artifact s artifact_id =
    sorted (λ a b. text_leb a.id b.id)
      (keep (λ e. same_text e.artifact_id (some artifact_id)) (values s.change_events))

unfoldable pub list_for_workspace : ControlState → Text → List ChangeEvent
list_for_workspace s risk_workspace_id =
    sorted (λ a b. text_leb a.id b.id)
      (keep (λ e. text_eq e.risk_workspace_id risk_workspace_id) (values s.change_events))
