-- ===== src/Execution/ChangeEvents.antt =====
-- application/process_change/models.py and transitions.py: the change event of an execution. Left out
-- are `safe_metadata` and the check that it matches the source change's.
pub mod Validity
pub mod Results
pub mod Returns
use ip_risk_agent_v.Base.{
  ℕ, suc, ◌+◌, ◌≤◌, Bool, true, false, ◌&&◌, ◌||◌, not, leb, ltb, is_none, is_some, if◌then◌else◌,
  Option, none, some, Text, String, text_eq, same_text, ◌==◌, Instant, Datetime, normalize_utc,
  require_non_empty, require_chronological, Outcome, ok, raised, ◌>>=◌, ◌>>◌, raise_if, Error,
  invariant,
}
use ip_risk_agent_v.Contracts.{SourceType, ChangeType, same_source, same_change}

pub data ChangeEventStatus : Type 0 where
  pending processing done failed : ChangeEventStatus

-- Where the change came from: the fields that the event has in common with its `SourceChange`.
pub record SourceIdentity : Type 0 where
  pub event_fingerprint : Text
  pub risk_workspace_id : Text
  pub mount_id : Text
  pub source_workspace_id : Text
  pub source_artifact_id : Text
  pub source_type : SourceType
  pub change_type : ChangeType
  pub revision : Option Text
  pub previous_revision : Option Text
  pub observed_at : Instant
  pub provider_event_id : Option Text

pub record ChangeEvent : Type 0 where
  pub id : Text
  pub event_fingerprint : Text
  pub risk_workspace_id : Text
  pub mount_id : Text
  pub source_workspace_id : Text
  pub source_artifact_id : Text
  pub source_type : SourceType
  pub change_type : ChangeType
  pub revision : Option Text
  pub previous_revision : Option Text
  pub observed_at : Instant
  pub status : ChangeEventStatus
  pub attempts : ℕ
  pub created_at : Instant
  pub updated_at : Instant
  pub source_change : SourceIdentity
  pub artifact_id : Option Text
  pub provider_event_id : Option Text
  pub last_error_safe : Option Text
  pub lease_expires_at : Option Instant

abbrev pub is_pending : ChangeEventStatus → Bool
is_pending ChangeEventStatus.pending = true
is_pending _ = false

abbrev pub is_processing : ChangeEventStatus → Bool
is_processing ChangeEventStatus.processing = true
is_processing _ = false

abbrev pub is_failed : ChangeEventStatus → Bool
is_failed ChangeEventStatus.failed = true
is_failed _ = false

-- `actual_source_identity == expected_source_identity`
unfoldable pub same_identity : ChangeEvent → SourceIdentity → Bool
same_identity c s =
    text_eq s.event_fingerprint c.event_fingerprint
    && text_eq s.risk_workspace_id c.risk_workspace_id
    && text_eq s.mount_id c.mount_id
    && text_eq s.source_workspace_id c.source_workspace_id
    && text_eq s.source_artifact_id c.source_artifact_id
    && same_source s.source_type c.source_type
    && same_change s.change_type c.change_type
    && same_text s.revision c.revision
    && same_text s.previous_revision c.previous_revision
    && s.observed_at == c.observed_at
    && same_text s.provider_event_id c.provider_event_id

-- A field of optional text in `__post_init__`.
abbrev pub optional_non_empty : Option Text → String → Outcome Error (Option Text)
optional_non_empty none name = ok none
optional_non_empty (some s) name = do t ← require_non_empty s name; ok (some t)

-- The checks on the status that end `__post_init__`.
unfoldable pub check_status :
    ChangeEvent → ChangeEventStatus → ℕ → Option Text → Option Instant → Outcome Error ChangeEvent
check_status e ChangeEventStatus.pending attempts last_error lease = do
  raise_if (is_some last_error || is_some lease)
      (invariant "PENDING change event cannot have failure or lease state")
  ok e
check_status e ChangeEventStatus.processing attempts last_error lease = do
  raise_if (ltb attempts 1 || is_some last_error || is_none lease)
      (invariant "PROCESSING change event requires an attempt and lease")
  ok e
check_status e ChangeEventStatus.failed attempts last_error lease = do
  raise_if (ltb attempts 1 || is_none last_error || is_some lease)
      (invariant "FAILED change event requires an attempt, failure, and no lease")
  ok e
check_status e ChangeEventStatus.done attempts last_error lease = do
  raise_if (is_some last_error || is_some lease)
      (invariant "DONE change event cannot have failure or lease state")
  ok e

-- `ChangeEvent.__post_init__`: the fields that may not be empty, and the rest.
unfoldable pub name_fields : ChangeEvent → Outcome Error ChangeEvent
name_fields c = do
  id ← require_non_empty c.id "change_event.id"
  event_fingerprint ← require_non_empty c.event_fingerprint "change_event.event_fingerprint"
  risk_workspace_id ← require_non_empty c.risk_workspace_id "change_event.risk_workspace_id"
  mount_id ← require_non_empty c.mount_id "change_event.mount_id"
  source_workspace_id ← require_non_empty c.source_workspace_id "change_event.source_workspace_id"
  source_artifact_id ← require_non_empty c.source_artifact_id "change_event.source_artifact_id"
  ok record c {
    id = id;
    event_fingerprint = event_fingerprint;
    risk_workspace_id = risk_workspace_id;
    mount_id = mount_id;
    source_workspace_id = source_workspace_id;
    source_artifact_id = source_artifact_id;
  }

unfoldable pub check_fields : ChangeEvent → Outcome Error ChangeEvent
check_fields c = do
  require_chronological c.created_at c.updated_at "change_event.created_at"
      "change_event.updated_at"
  raise_if (not (same_identity c c.source_change))
      (invariant "change_event.source_change must match canonical event identity")
  last_error_safe ← optional_non_empty c.last_error_safe "change_event.last_error_safe"
  check_status record c { last_error_safe = last_error_safe } c.status c.attempts last_error_safe
      c.lease_expires_at

-- What the constructor and `dataclasses.replace` return.
unfoldable pub post_init : ChangeEvent → Outcome Error ChangeEvent
unfolding name_fields check_fields
post_init c = do named ← name_fields c; check_fields named

unfoldable pub claim_change_event : ChangeEvent → Datetime → Datetime → Outcome Error ChangeEvent
claim_change_event event occurred_at lease_expires_at = do
  raise_if (not (is_pending event.status)) (invariant "only a PENDING change event may be claimed")
  occurred_at ← normalize_utc occurred_at "change_event_claim.occurred_at"
  lease_expires_at ← normalize_utc lease_expires_at "change_event_claim.lease_expires_at"
  raise_if (leb lease_expires_at occurred_at)
      (invariant "change event lease must expire after claim time")
  post_init record event {
    status = ChangeEventStatus.processing;
    attempts = event.attempts + 1;
    updated_at = occurred_at;
    lease_expires_at = some lease_expires_at;
  }

-- `lease_expires_at is None or lease_expires_at > occurred_at`
abbrev pub lease_open : Option Instant → Instant → Bool
lease_open none now = true
lease_open (some expiry) now = ltb now expiry

unfoldable pub reclaim_change_event : ChangeEvent → Datetime → Datetime → Outcome Error ChangeEvent
reclaim_change_event event occurred_at lease_expires_at = do
  raise_if (not (is_processing event.status || is_failed event.status))
      (invariant "only a PROCESSING or FAILED change event may be reclaimed")
  occurred_at ← normalize_utc occurred_at "change_event_reclaim.occurred_at"
  lease_expires_at ← normalize_utc lease_expires_at "change_event_reclaim.lease_expires_at"
  raise_if (is_processing event.status && lease_open event.lease_expires_at occurred_at)
      (invariant "an active change event lease cannot be reclaimed")
  raise_if (leb lease_expires_at occurred_at)
      (invariant "reclaimed change event lease must be bounded")
  post_init record event {
    status = ChangeEventStatus.processing;
    attempts = event.attempts + 1;
    updated_at = occurred_at;
    last_error_safe = none;
    lease_expires_at = some lease_expires_at;
  }

unfoldable pub complete_change_event : ChangeEvent → Datetime → Outcome Error ChangeEvent
complete_change_event event occurred_at = do
  raise_if (not (is_processing event.status))
      (invariant "only a PROCESSING change event may complete")
  occurred_at ← normalize_utc occurred_at "change_event_completion.occurred_at"
  post_init record event {
    status = ChangeEventStatus.done;
    updated_at = occurred_at;
    lease_expires_at = none;
  }

unfoldable pub fail_change_event : ChangeEvent → Datetime → Text → Outcome Error ChangeEvent
fail_change_event event occurred_at failure_safe = do
  raise_if (not (is_processing event.status)) (invariant "only a PROCESSING change event may fail")
  failure_safe ← require_non_empty failure_safe "change_event.failure_safe"
  occurred_at ← normalize_utc occurred_at "change_event_failure.occurred_at"
  post_init record event {
    status = ChangeEventStatus.failed;
    last_error_safe = some failure_safe;
    updated_at = occurred_at;
    lease_expires_at = none;
  }

-- Is this execution really running? The time is read only where the lease is known.
unfoldable pub analysis_lease_is_live : ChangeEvent → Datetime → Outcome Error Bool
analysis_lease_is_live event occurred_at =
    if not (is_processing event.status)
    then ok false
    else if is_none event.lease_expires_at
    then ok true
    else do
      now ← normalize_utc occurred_at "change_event_lease.occurred_at"
      ok (lease_open event.lease_expires_at now)

-- `event.status is PENDING or analysis_lease_is_live(...)`
abbrev in_flight : ChangeEvent → Datetime → Outcome Error Bool
in_flight event occurred_at =
    if is_pending event.status then ok true else analysis_lease_is_live event occurred_at

unfoldable pub reanalyze_change_event : ChangeEvent → Datetime → Outcome Error ChangeEvent
unfolding analysis_lease_is_live
reanalyze_change_event event occurred_at = do
  busy ← in_flight event occurred_at
  raise_if busy (invariant "analysis is already in flight")
  occurred_at ← normalize_utc occurred_at "change_event_reanalyze.occurred_at"
  post_init record event {
    status = ChangeEventStatus.pending;
    last_error_safe = none;
    updated_at = occurred_at;
    lease_expires_at = none;
  }

unfoldable pub requeue_change_event : ChangeEvent → Datetime → Outcome Error ChangeEvent
requeue_change_event event occurred_at = do
  raise_if (not (is_failed event.status)) (invariant "only a FAILED change event may be requeued")
  occurred_at ← normalize_utc occurred_at "change_event_requeue.occurred_at"
  post_init record event {
    status = ChangeEventStatus.pending;
    last_error_safe = none;
    updated_at = occurred_at;
    lease_expires_at = none;
  }
