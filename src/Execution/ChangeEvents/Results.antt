-- ===== src/Execution/ChangeEvents/Results.antt =====
-- What each transition of a valid change event returns, and that the result is valid again.
use ip_risk_agent_v.Base.{
  ◌≡◌, ◌≢◌, ◌⊎◌, String, arith, ◌≤◌, ◌<◌, ◌+◌, false, none, some, Text, Instant, aware,
  require_non_empty, require_non_empty-IsNormal, Outcome, ok, Error,
}
use ip_risk_agent_v.Execution.ChangeEvents.{
  ChangeEvent, ChangeEventStatus, same_identity, claim_change_event, reclaim_change_event,
  complete_change_event, fail_change_event, reanalyze_change_event, requeue_change_event,
  lease_open,
}
use ip_risk_agent_v.Execution.ChangeEvents.Validity.{IsValid, post_init-accepts}

-- The call succeeds with this event, which is valid.
abbrev pub Gives : Outcome Error ChangeEvent → ChangeEvent → Type 0
Gives call e = (call ≡ ok e) × IsValid e

abbrev pub claimed : ChangeEvent → Instant → Instant → ChangeEvent
claimed e t l = record e {
  status = ChangeEventStatus.processing;
  attempts = e.attempts + 1;
  updated_at = t;
  last_error_safe = none;
  lease_expires_at = some l;
}

abbrev pub completed : ChangeEvent → Instant → ChangeEvent
completed e t = record e {
  status = ChangeEventStatus.done;
  updated_at = t;
  lease_expires_at = none;
}

abbrev pub failed_with : ChangeEvent → Instant → Text → ChangeEvent
failed_with e t failure = record e {
  status = ChangeEventStatus.failed;
  last_error_safe = some failure;
  updated_at = t;
  lease_expires_at = none;
}

abbrev pub waiting : ChangeEvent → Instant → ChangeEvent
waiting e t = record e {
  status = ChangeEventStatus.pending;
  last_error_safe = none;
  updated_at = t;
  lease_expires_at = none;
}

module _ (e : ChangeEvent) (v : IsValid e) (t : Instant) (later : e.created_at ≤ t) where
  claimed-IsValid : (l : Instant) → IsValid (claimed e t l)
  unfolding same_identity
  claimed-IsValid l = ground arith

  pub claim_change_event_lem :
      (l : Instant)
      → e.status ≡ ChangeEventStatus.pending
      → t < l
      → Gives (claim_change_event e (aware t) (aware l)) (claimed e t l)
  unfolding claim_change_event
  claim_change_event_lem l p h =
      (ground (arith, post_init-accepts (claimed e t l) (claimed-IsValid l)), claimed-IsValid l)

  -- Failed, or processing under a lease that is over.
  pub reclaim_change_event_lem :
      (l : Instant)
      → (e.status ≡ ChangeEventStatus.failed)
        ⊎ ((e.status ≡ ChangeEventStatus.processing) × (lease_open e.lease_expires_at t ≡ false))
      → t < l
      → Gives (reclaim_change_event e (aware t) (aware l)) (claimed e t l)
  unfolding reclaim_change_event
  reclaim_change_event_lem l p h =
      (ground (arith, post_init-accepts (claimed e t l) (claimed-IsValid l)), claimed-IsValid l)

  completed-IsValid : e.status ≡ ChangeEventStatus.processing → IsValid (completed e t)
  unfolding same_identity
  completed-IsValid p = ground arith

  pub complete_change_event_lem :
      e.status ≡ ChangeEventStatus.processing
      → Gives (complete_change_event e (aware t)) (completed e t)
  unfolding complete_change_event
  complete_change_event_lem p =
      (ground (arith, post_init-accepts (completed e t) (completed-IsValid p)), completed-IsValid p)

  failed_with-IsValid :
      (failure name : Text) (field : String)
      → require_non_empty failure field ≡ ok name
      → e.status ≡ ChangeEventStatus.processing
      → IsValid (failed_with e t name)
  unfolding same_identity
  failed_with-IsValid failure name field n p =
      ground (arith, require_non_empty-IsNormal failure field "change_event.last_error_safe" n)

  pub fail_change_event_lem :
      (failure name : Text)
      → require_non_empty failure "change_event.failure_safe" ≡ ok name
      → e.status ≡ ChangeEventStatus.processing
      → Gives (fail_change_event e (aware t) failure) (failed_with e t name)
  unfolding fail_change_event
  fail_change_event_lem failure name n p =
      let fv = failed_with-IsValid failure name "change_event.failure_safe" n p in
      (ground (arith, post_init-accepts (failed_with e t name) fv), fv)

  waiting-IsValid : IsValid (waiting e t)
  unfolding same_identity
  waiting-IsValid = ground arith

  pub requeue_change_event_lem :
      e.status ≡ ChangeEventStatus.failed → Gives (requeue_change_event e (aware t)) (waiting e t)
  unfolding requeue_change_event
  requeue_change_event_lem p =
      (ground (arith, post_init-accepts (waiting e t) waiting-IsValid), waiting-IsValid)

  -- Done, failed, or processing under a lease that is over.
  pub reanalyze_change_event_lem :
      e.status ≢ ChangeEventStatus.pending
      → lease_open e.lease_expires_at t ≡ false ⊎ (e.status ≢ ChangeEventStatus.processing)
      → Gives (reanalyze_change_event e (aware t)) (waiting e t)
  unfolding reanalyze_change_event
  reanalyze_change_event_lem p q =
      (ground (arith, post_init-accepts (waiting e t) waiting-IsValid), waiting-IsValid)

-- While the lease of a processing event runs, no other worker takes it and no user resets it.
pub live_lease_refuses :
    (e : ChangeEvent) (t l l' : Instant)
    → e.status ≡ ChangeEventStatus.processing
    → e.lease_expires_at ≡ some l
    → t < l
    → (e' : ChangeEvent)
    → (claim_change_event e (aware t) (aware l') ≢ ok e')
      × (reclaim_change_event e (aware t) (aware l') ≢ ok e')
      × (reanalyze_change_event e (aware t) ≢ ok e')
      × (requeue_change_event e (aware t) ≢ ok e')
unfolding claim_change_event reclaim_change_event reanalyze_change_event requeue_change_event
live_lease_refuses e t l l' p q h e' =
    (λ k. ground arith, λ k. ground arith, λ k. ground arith, λ k. ground arith)
