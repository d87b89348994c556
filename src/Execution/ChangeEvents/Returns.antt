-- ===== src/Execution/ChangeEvents/Returns.antt =====
-- Whatever event and clock a transition is given, what it returns is valid.
use ip_risk_agent_v.Base.{
  ◌>>=◌, ◌≡◌, arith, ◌+◌, ℕ, some, Text, Instant, Datetime, aware, naive, Outcome, ok, raised,
  Error, require_non_empty,
}
use ip_risk_agent_v.Execution.ChangeEvents.{
  ChangeEvent, ChangeEventStatus, post_init, claim_change_event, reclaim_change_event,
  complete_change_event, fail_change_event, reanalyze_change_event, requeue_change_event,
}
use ip_risk_agent_v.Execution.ChangeEvents.Validity.{IsValid, post_init-IsValid}
use ip_risk_agent_v.Execution.ChangeEvents.Results.{claimed, completed, failed_with, waiting}

-- A valid event with this status and this many attempts.
pub record EndsIn (s : ChangeEventStatus) (n : ℕ) (e : ChangeEvent) : Type 0 where
  pub valid : IsValid e
  pub status : e.status ≡ s
  pub attempts : e.attempts ≡ n

post_init-EndsIn : (c e : ChangeEvent) → post_init c ≡ ok e → EndsIn c.status c.attempts e
post_init-EndsIn c e h =
    let (v, (s, a)) = post_init-IsValid c e h in record { valid = v; status = s; attempts = a }

module _ (e e' : ChangeEvent) where
  pub claim_change_event-EndsIn :
      (t l : Datetime)
      → claim_change_event e t l ≡ ok e'
      → EndsIn ChangeEventStatus.processing (e.attempts + 1) e'
  unfolding claim_change_event
  claim_change_event-EndsIn (aware t) (aware l) h = ground (
    arith,
    post_init-EndsIn
        (record e {
          status = ChangeEventStatus.processing;
          attempts = e.attempts + 1;
          updated_at = t;
          lease_expires_at = some l;
        })
        e',
  )
  claim_change_event-EndsIn (aware t) (naive l) h = absurd (ground arith)
  claim_change_event-EndsIn (naive t) l h = absurd (ground arith)

  pub reclaim_change_event-EndsIn :
      (t l : Datetime)
      → reclaim_change_event e t l ≡ ok e'
      → EndsIn ChangeEventStatus.processing (e.attempts + 1) e'
  unfolding reclaim_change_event
  reclaim_change_event-EndsIn (aware t) (aware l) h =
      ground (arith, post_init-EndsIn (claimed e t l) e')
  reclaim_change_event-EndsIn (aware t) (naive l) h = absurd (ground arith)
  reclaim_change_event-EndsIn (naive t) l h = absurd (ground arith)

  pub complete_change_event-EndsIn :
      (t : Datetime)
      → complete_change_event e t ≡ ok e'
      → EndsIn ChangeEventStatus.done e.attempts e'
  unfolding complete_change_event
  complete_change_event-EndsIn (aware t) h = ground (arith, post_init-EndsIn (completed e t) e')
  complete_change_event-EndsIn (naive t) h = absurd (ground arith)

  failed_after-EndsIn :
      (t : Instant) (call : Outcome Error Text)
      → (call >>= λ name. post_init (failed_with e t name)) ≡ ok e'
      → EndsIn ChangeEventStatus.failed e.attempts e'
  failed_after-EndsIn t (ok name) h = post_init-EndsIn (failed_with e t name) e' h
  failed_after-EndsIn t (raised x) h = absurd (ground arith)

  pub fail_change_event-EndsIn :
      (t : Datetime) (failure : Text)
      → fail_change_event e t failure ≡ ok e'
      → EndsIn ChangeEventStatus.failed e.attempts e'
  unfolding fail_change_event
  fail_change_event-EndsIn (aware t) failure h =
      ground (arith, failed_after-EndsIn t (require_non_empty failure "change_event.failure_safe"))
  fail_change_event-EndsIn (naive t) failure h = absurd (ground arith)

  pub reanalyze_change_event-EndsIn :
      (t : Datetime)
      → reanalyze_change_event e t ≡ ok e'
      → EndsIn ChangeEventStatus.pending e.attempts e'
  unfolding reanalyze_change_event
  reanalyze_change_event-EndsIn (aware t) h = ground (arith, post_init-EndsIn (waiting e t) e')
  reanalyze_change_event-EndsIn (naive t) h = absurd (ground arith)

  pub requeue_change_event-EndsIn :
      (t : Datetime)
      → requeue_change_event e t ≡ ok e'
      → EndsIn ChangeEventStatus.pending e.attempts e'
  unfolding requeue_change_event
  requeue_change_event-EndsIn (aware t) h = ground (arith, post_init-EndsIn (waiting e t) e')
  requeue_change_event-EndsIn (naive t) h = absurd (ground arith)
