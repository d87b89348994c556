-- ===== src/Repositories/Notifications.antt =====
-- `InMemoryNotificationRepository` of application/repositories/in_memory.py.
use ip_risk_agent_v.Base.{
  is_some, Option, List, keep, Text, text_eq, stamped_leb, sorted, get_item, set_item, values,
  unique_violation,
}
use ip_risk_agent_v.Exec.{Exec, gets, modify, refuse_if, ◌>>=◌, ◌>>◌}
use ip_risk_agent_v.Notifications.{Notification}
use ip_risk_agent_v.Repositories.{ControlState}

unfoldable pub get : ControlState → Text → Option Notification
get s notification_id = get_item s.notifications notification_id

abbrev write : Notification → ControlState → ControlState
write n s = record s { notifications = set_item n.id n s.notifications }

unfoldable pub add : Notification → Exec ControlState (Unit {0})
add n = do
  known ← gets (λ s. get_item s.notifications n.id)
  refuse_if (is_some known) (unique_violation "notification already exists")
  modify (write n)

unfoldable pub list_for_user : ControlState → Text → List Notification
list_for_user s user_id =
    sorted (λ a b. stamped_leb a.created_at a.id b.created_at b.id)
      (keep (λ n. text_eq n.user_id user_id) (values s.notifications))
