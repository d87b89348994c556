-- ===== src/Risk/Exclusion.antt =====
-- application/risk_exclusion.py: closing the risks of a file that is no longer tracked, and bringing
-- them back with the reviewer's disposition. A step on one risk gives the risk and the event; the
-- constructor of the event, the saving and the appending are in Loops.
pub mod Restoring
pub mod Updates
pub mod Loops
use ip_risk_agent_v.Base.{
  Bool, true, false, ◌&&◌, not, Option, none, some, List, [], ◌∷◌, Text, codes, text_eq, Instant,
  max, ◌+◌, if◌then◌else◌, reverse, is_none, Outcome, ok, raised, ◌>>=◌, Error, ℕ,
}
use ip_risk_agent_v.Risk.{
  Risk, RiskLifecycleState, ReviewDisposition, RiskEventType, is_excluded, post_init,
}
use ip_risk_agent_v.Risk.Transitions.{
  ExclusionDecision, decide_exclusion, exclusion_changed, should_revive,
}
use ip_risk_agent_v.Base.{same_text}
use ip_risk_agent_v.Risk.Events.{
  RiskEvent, ActorType, SafeValue, SafeMapping, get, nullable, state_value, disposition_value,
  disposition_of,
}

-- `_exclusion_event`
unfoldable pub exclusion_event :
    Risk → RiskLifecycleState → ReviewDisposition → Instant → Text → Text → RiskEvent
exclusion_event risk previous_state previous_disposition occurred_at reason_safe event_id = record {
  id = event_id;
  risk_id = risk.id;
  event_type = RiskEventType.review_disposition_changed;
  actor_type = ActorType.system;
  actor_user_id = none;
  occurred_at = occurred_at;
  previous_state_safe =
      (codes "lifecycle_state", SafeValue.text (state_value previous_state))
      ∷ (codes "review_disposition", SafeValue.text (disposition_value previous_disposition))
      ∷ (codes "latest_evidence_revision", nullable risk.latest_evidence_revision)
      ∷ [];
  new_state_safe =
      (codes "lifecycle_state", SafeValue.text (state_value risk.lifecycle_state))
      ∷ (codes "review_disposition", SafeValue.text (disposition_value risk.review_disposition))
      ∷ [];
  analysis_job_id = none;
  evidence_refs = [];
  reason_safe = some reason_safe;
}

-- The risk as `exclude_risks` replaces it, with a resolution time that the constructor accepts.
unfoldable pub excluded_risk : Risk → ExclusionDecision → Instant → Risk
excluded_risk risk decision occurred_at =
    let resolved_at = max (max occurred_at risk.first_seen_at) risk.last_seen_at in
    record risk {
      lifecycle_state = decision.next_state;
      review_disposition = decision.next_disposition;
      review_version = risk.review_version + 1;
      resolved_at = some resolved_at;
      updated_at = resolved_at;
    }

-- A step of the loop in `exclude_risks`: nothing to do, or the risk to save and the event to append.
unfoldable pub exclude_risk :
    Risk → Instant → Text → Text → Outcome Error (Option (Risk × RiskEvent))
unfolding decide_exclusion exclusion_changed excluded_risk
exclude_risk risk occurred_at reason_safe event_id =
    let decision = decide_exclusion risk.lifecycle_state risk.review_disposition in
    if is_excluded risk.review_disposition
    then ok none
    else if not (exclusion_changed decision)
    then ok none
    else do
      updated ← post_init (excluded_risk risk decision occurred_at)
      ok (
          some (
            updated,
            exclusion_event updated decision.previous_state decision.previous_disposition
                updated.updated_at reason_safe event_id,
          ))

-- `mapping.get(key) != text`
abbrev is_text : Option SafeValue → Text → Bool
is_text (some (SafeValue.text s)) t = text_eq s t
is_text _ t = false

abbrev is_disposition_change : RiskEventType → Bool
is_disposition_change RiskEventType.review_disposition_changed = true
is_disposition_change _ = false

-- An event that `_disposition_before_exclusion` stops at.
unfoldable pub is_exclusion_event : RiskEvent → Bool
is_exclusion_event event =
    is_disposition_change event.event_type
    && is_text (get (codes "review_disposition") event.new_state_safe)
        (disposition_value ReviewDisposition.excluded)

abbrev unless_excluded : Option ReviewDisposition → Option ReviewDisposition
unless_excluded (some ReviewDisposition.excluded) = none
unless_excluded restored = restored

abbrev restored_value : Option SafeValue → Option ReviewDisposition
restored_value (some (SafeValue.text found)) = unless_excluded (disposition_of found)
restored_value _ = none

-- The answer at that event: the disposition it kept, if it was at the same revision.
unfoldable pub restore_from : RiskEvent → Text → Option ReviewDisposition
unfolding disposition_of
restore_from event revision =
    if is_text (get (codes "latest_evidence_revision") event.previous_state_safe) revision
    then restored_value (get (codes "review_disposition") event.previous_state_safe)
    else none

-- The loop over the events, the latest first.
unfoldable pub last_exclusion : List RiskEvent → Text → Option ReviewDisposition
last_exclusion [] revision = none
last_exclusion (event ∷ events) revision =
    if is_exclusion_event event then restore_from event revision else last_exclusion events revision

-- `_disposition_before_exclusion`, given `uow.risks.list_events(risk.id)` in its order.
unfoldable pub disposition_before_exclusion :
    List RiskEvent → Risk → Option Text → Option ReviewDisposition
unfolding last_exclusion
disposition_before_exclusion events risk none = none
disposition_before_exclusion events risk (some revision) =
    if not (same_text risk.latest_evidence_revision (some revision))
    then none
    else last_exclusion (reverse events) revision

abbrev pub or_unreviewed : Option ReviewDisposition → ReviewDisposition
or_unreviewed none = ReviewDisposition.unreviewed
or_unreviewed (some d) = d

unfoldable pub revived_risk : Risk → Option ReviewDisposition → Instant → Risk
revived_risk risk previous occurred_at =
    let moment = max (max occurred_at risk.last_seen_at) risk.updated_at in
    record risk {
      lifecycle_state = RiskLifecycleState.existing;
      review_disposition = or_unreviewed previous;
      review_version = risk.review_version + 1;
      resolved_at = none;
      last_seen_at = moment;
      updated_at = moment;
    }

unfoldable pub revival_event : Risk → Risk → Option ReviewDisposition → Text → Text → RiskEvent
revival_event risk updated previous reason_safe event_id = record {
  id = event_id;
  risk_id = updated.id;
  event_type = RiskEventType.reopened;
  actor_type = ActorType.system;
  actor_user_id = none;
  occurred_at = updated.updated_at;
  previous_state_safe =
      (codes "lifecycle_state", SafeValue.text (state_value risk.lifecycle_state))
      ∷ (codes "review_disposition", SafeValue.text (disposition_value risk.review_disposition))
      ∷ [];
  new_state_safe =
      (codes "lifecycle_state", SafeValue.text (state_value updated.lifecycle_state))
      ∷ (codes "review_disposition", SafeValue.text (disposition_value updated.review_disposition))
      ∷ (codes "disposition_restored", SafeValue.flag (not (is_none previous)))
      ∷ [];
  analysis_job_id = none;
  evidence_refs = [];
  reason_safe = some reason_safe;
}

-- A step of the loop in `revive_artifact_risks`, for one risk and the list of its events.
unfoldable pub revive_risk :
    List RiskEvent
    → Risk
    → Text
    → Option Text
    → Instant
    → Text
    → Text
    → Outcome Error (Option (Risk × RiskEvent))
unfolding should_revive revived_risk
revive_risk events risk artifact_id revision occurred_at reason_safe event_id =
    let previous = disposition_before_exclusion events risk revision in
    if not (text_eq risk.artifact_id artifact_id)
    then ok none
    else if not (should_revive risk.review_disposition)
    then ok none
    else do
      updated ← post_init (revived_risk risk previous occurred_at)
      ok (some (updated, revival_event risk updated previous reason_safe event_id))
