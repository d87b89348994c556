-- ===== src/Risk/Events.antt =====
-- The append-only history of a risk: `RiskEvent` of core/risk/models.py, with its safe mappings. The
-- fields that its callers here leave at their defaults are left out.
use ip_risk_agent_v.Base.{
  Bool, Option, none, some, List, [], ◌∷◌, Text, codes, text_eq, Instant, if◌then◌else◌, ℕ,
}
use ip_risk_agent_v.Base.{
  true, false, not, ◌&&◌, any, require_non_empty, Outcome, ok, ◌>>=◌, ◌>>◌, raise_if, Error,
  invariant,
}
use ip_risk_agent_v.Risk.{RiskLifecycleState, ReviewDisposition, RiskEventType}

pub data ActorType : Type 0 where
  system user : ActorType

-- A JSON value, as the mappings here hold it.
pub data SafeValue : Type 0 where
  null : SafeValue
  text : Text → SafeValue
  flag : Bool → SafeValue
  number : ℕ → SafeValue
  texts : List Text → SafeValue

abbrev pub SafeMapping : Type 0
SafeMapping = List (Text × SafeValue)

-- `mapping.get(key)`, where `none` is a missing key. Keys of a mapping are distinct.
unfoldable pub get : Text → SafeMapping → Option SafeValue
get key [] = none
get key ((k, v) ∷ m) = if text_eq k key then some v else get key m

-- An optional string as a JSON value.
abbrev pub nullable : Option Text → SafeValue
nullable none = SafeValue.null
nullable (some s) = SafeValue.text s

pub record RiskEvent : Type 0 where
  pub id : Text
  pub risk_id : Text
  pub event_type : RiskEventType
  pub actor_type : ActorType
  pub occurred_at : Instant
  pub actor_user_id : Option Text
  pub previous_state_safe : SafeMapping
  pub new_state_safe : SafeMapping
  pub analysis_job_id : Option Text
  pub evidence_refs : List Text
  pub reason_safe : Option Text

abbrev by_user : ActorType → Bool
by_user ActorType.user = true
by_user ActorType.system = false

-- `not actor_user_id`
abbrev no_user : Option Text → Bool
no_user none = true
no_user (some []) = true
no_user (some (c ∷ s)) = false

unfoldable pub name_references : List Text → Outcome Error (List Text)
name_references [] = ok []
name_references (reference ∷ references) = do
  r ← require_non_empty reference "risk_event.evidence_refs item"
  rs ← name_references references
  ok (r ∷ rs)

-- `len(references) == len(set(references))`
abbrev pub distinct : List Text → Bool
distinct [] = true
distinct (r ∷ rs) = not (any (text_eq r) rs) && distinct rs

-- `RiskEvent.__post_init__`, on an instant.
unfoldable pub post_init : RiskEvent → Outcome Error RiskEvent
unfolding name_references
post_init e = do
  id ← require_non_empty e.id "risk_event.id"
  risk_id ← require_non_empty e.risk_id "risk_event.risk_id"
  raise_if (by_user e.actor_type && no_user e.actor_user_id)
      (invariant "user-authored RiskEvent requires actor_user_id")
  evidence_refs ← name_references e.evidence_refs
  raise_if (not (distinct evidence_refs)) (invariant "risk_event.evidence_refs must be unique")
  ok record e { id = id; risk_id = risk_id; evidence_refs = evidence_refs }

-- The members' `.value`.
abbrev pub state_value : RiskLifecycleState → Text
state_value RiskLifecycleState.new = codes "NEW"
state_value RiskLifecycleState.existing = codes "EXISTING"
state_value RiskLifecycleState.resolved = codes "RESOLVED"

abbrev pub disposition_value : ReviewDisposition → Text
disposition_value ReviewDisposition.unreviewed = codes "UNREVIEWED"
disposition_value ReviewDisposition.monitoring = codes "MONITORING"
disposition_value ReviewDisposition.accepted_risk = codes "ACCEPTED_RISK"
disposition_value ReviewDisposition.excluded = codes "EXCLUDED"

-- `ReviewDisposition(found)`, with `none` for its ValueError.
unfoldable pub disposition_of : Text → Option ReviewDisposition
disposition_of s =
    if text_eq s (codes "UNREVIEWED")
    then some ReviewDisposition.unreviewed
    else if text_eq s (codes "MONITORING")
    then some ReviewDisposition.monitoring
    else if text_eq s (codes "ACCEPTED_RISK")
    then some ReviewDisposition.accepted_risk
    else if text_eq s (codes "EXCLUDED")
    then some ReviewDisposition.excluded
    else none

abbrev pub event_type_value : RiskEventType → Text
event_type_value RiskEventType.detected = codes "DETECTED"
event_type_value RiskEventType.confirmed = codes "CONFIRMED"
event_type_value RiskEventType.resolved = codes "RESOLVED"
event_type_value RiskEventType.reopened = codes "REOPENED"
event_type_value RiskEventType.evidence_updated = codes "EVIDENCE_UPDATED"
event_type_value RiskEventType.priority_changed = codes "PRIORITY_CHANGED"
event_type_value RiskEventType.review_disposition_changed = codes "REVIEW_DISPOSITION_CHANGED"
