-- ===== src/Reconcile/Frame.antt =====
-- What the writing of evidence, events and notifications leaves alone.
use ip_risk_agent_v.Base.{◌≡◌, ap, Option, none, some, List, [], ◌∷◌, Text, Instant}
use ip_risk_agent_v.Exec.{pure, ◌>>=◌}
use ip_risk_agent_v.Exec.Rules.{Keeps, Keeps-bind, Keeps-modify, Keeps-pure, keeps_rules}
use ip_risk_agent_v.Contracts.{ReviewPriority}
use ip_risk_agent_v.Risk.{Risk, RiskEventType}
use ip_risk_agent_v.Risk.Events.{RiskEvent}
use ip_risk_agent_v.Risk.Evidence.{RiskEvidence}
use ip_risk_agent_v.Risk.Attribution.{CauseAttribution}
use ip_risk_agent_v.Notifications.{Notification}
use ip_risk_agent_v.Repositories.{ControlState}
use ip_risk_agent_v.Repositories.Risks.{get_by_key, add_evidence, clear_evidence, append_event}
use ip_risk_agent_v.Repositories.Risks.Consistency.{IsConsistent}
use ip_risk_agent_v.Reconcile.{Library, AnalysisResult}
use ip_risk_agent_v.Reconcile.Retention.{EvidenceRetentionPolicy}
use ip_risk_agent_v.Reconcile.Projections.{CandidateProjection}
use ip_risk_agent_v.Reconcile.Recording.{Recorded}
use ip_risk_agent_v.Reconcile.EvidenceWrites.{write_one, write_evidence, replace_evidence}
use ip_risk_agent_v.Reconcile.Loop.{
  append_event_once, add_notification_once, append_history, appended_priority, notify_reopened,
  after_recorded, notify_attention, append_closed,
}

-- The state without the records that only grow.
abbrev pub core : ControlState → ControlState
core s = record s { risk_evidence = []; risk_events = []; audit_events = []; notifications = [] }

abbrev pub HasCore : ControlState → ControlState → Type 0
HasCore t s = core s ≡ t

-- What the writing of evidence keeps, if each of its two steps keeps it.
module _ {P : ControlState → Type 0} (added : (e : RiskEvidence) → Keeps P (add_evidence e))
    (cleared : (r j : Text) → Keeps P (clear_evidence r j)) (lib : Library)
    (policy : EvidenceRetentionPolicy) (result : AnalysisResult) where
  write_one-Keeps :
      (r : Risk) (at : Instant) (p : CandidateProjection) (i : Text)
      → Keeps P (write_one lib policy result r at p i)
  unfolding write_one
  write_one-Keeps r at p i = search (keeps_rules, added) depth 16

  write_evidence-Keeps :
      (r : Risk) (at : Instant) (p : CandidateProjection) (ids : List Text)
      → Keeps P (write_evidence lib policy result r at p ids)
  unfolding write_evidence
  write_evidence-Keeps r at p [] = search keeps_rules
  write_evidence-Keeps r at p (i ∷ ids) =
      Keeps-bind (write_one lib policy result r at p i)
        (λ one. write_evidence lib policy result r at p ids >>= λ refs. pure (one ∷ refs))
        (write_one-Keeps r at p i)
        (λ one.
          Keeps-bind (write_evidence lib policy result r at p ids) (λ refs. pure (one ∷ refs))
            (write_evidence-Keeps r at p ids) (λ refs. Keeps-pure (one ∷ refs)))

  pub Keeps-replace_evidence :
      (r : Risk) (at : Instant) (p : CandidateProjection)
      → Keeps P (replace_evidence lib policy result r at p)
  unfolding replace_evidence
  Keeps-replace_evidence r at p = search (keeps_rules, cleared, write_evidence-Keeps)

module _ (t : ControlState) where
  add_evidence-Keeps : (e : RiskEvidence) → Keeps (HasCore t) (add_evidence e)
  unfolding add_evidence
  add_evidence-Keeps e = search (keeps_rules, Keeps-modify)

  clear_evidence-Keeps : (r j : Text) → Keeps (HasCore t) (clear_evidence r j)
  unfolding clear_evidence
  clear_evidence-Keeps r j = search (keeps_rules, Keeps-modify)

  pub append_event-Keeps : (e : RiskEvent) → Keeps (HasCore t) (append_event e)
  unfolding append_event
  append_event-Keeps e = search (keeps_rules, Keeps-modify)

  append_event_once-Keeps :
      (ids : List Text) (e : RiskEvent) → Keeps (HasCore t) (append_event_once ids e)
  unfolding append_event_once
  append_event_once-Keeps ids e = search (keeps_rules, append_event-Keeps)

  add_notification_once-Keeps : (n : Notification) → Keeps (HasCore t) (add_notification_once n)
  unfolding add_notification_once ip_risk_agent_v.Repositories.Notifications.add
  add_notification_once-Keeps n = search (keeps_rules, Keeps-modify)

  replace_evidence-Keeps :
      (lib : Library) (policy : EvidenceRetentionPolicy) (result : AnalysisResult) (r : Risk)
      (at : Instant) (p : CandidateProjection)
      → Keeps (HasCore t) (replace_evidence lib policy result r at p)
  replace_evidence-Keeps = Keeps-replace_evidence add_evidence-Keeps clear_evidence-Keeps

  module _ (lib : Library) (policy : EvidenceRetentionPolicy) (result : AnalysisResult)
      (fingerprint workspace : Text) (at : Instant) (owner : Text) where
    appended_priority-Keeps :
        (r : Recorded) (q : Option ReviewPriority) (a : CauseAttribution) (ids : List Text)
        → Keeps
            (HasCore t)
            (appended_priority lib policy result fingerprint workspace at owner r q a ids)
    appended_priority-Keeps r none a ids = search keeps_rules
    appended_priority-Keeps r (some q) a ids =
        search (keeps_rules, append_event_once-Keeps) depth 16

    append_history-Keeps :
        (r : Recorded) (e : RiskEventType) (refs : List Text)
        → Keeps
            (HasCore t)
            (append_history lib policy result fingerprint workspace at owner r e refs)
    unfolding append_history
    append_history-Keeps r e refs =
        search (keeps_rules, append_event_once-Keeps, appended_priority-Keeps) depth 16

    notify_reopened-Keeps :
        (r : Recorded) (e : RiskEventType)
        → Keeps (HasCore t) (notify_reopened lib policy result fingerprint workspace at owner r e)
    unfolding notify_reopened
    notify_reopened-Keeps r e = search (keeps_rules, add_notification_once-Keeps) depth 16

    pub after_recorded-Keeps :
        (p : CandidateProjection) (r : Recorded)
        → Keeps (HasCore t) (after_recorded lib policy result fingerprint workspace at owner p r)
    unfolding after_recorded
    after_recorded-Keeps p r =
        search (keeps_rules, replace_evidence-Keeps, append_history-Keeps, notify_reopened-Keeps)
          depth 16

    pub notify_attention-Keeps :
        (rs : List Risk)
        → Keeps (HasCore t) (notify_attention lib policy result fingerprint workspace at owner rs)
    unfolding notify_attention
    notify_attention-Keeps [] = search keeps_rules
    notify_attention-Keeps (r ∷ rs) = search (keeps_rules, add_notification_once-Keeps) depth 16

    pub append_closed-Keeps :
        (r u : Risk) (m : Instant) (a : CauseAttribution)
        → Keeps (HasCore t) (append_closed lib policy result fingerprint workspace at owner r u m a)
    unfolding append_closed
    append_closed-Keeps r u m a = search (keeps_rules, append_event-Keeps)

-- The risks, and with them their consistency, are read from the core.
pub IsConsistent-core : (s s' : ControlState) → core s' ≡ core s → IsConsistent s → IsConsistent s'
IsConsistent-core s s' e c =
    let risks : s'.risks ≡ s.risks = ap (λ x. x.risks) e in
    let keys : s'.risks_by_key ≡ s.risks_by_key = ap (λ x. x.risks_by_key) e in
    record {
      by_key = λ k i. rw (risks, keys) (c.by_key k i);
      by_id = λ i r. rw (risks, keys) (c.by_id i r);
      dict = rw risks c.dict;
    }

pub get_by_key-core :
    (s s' : ControlState) (k : Text) → core s' ≡ core s → get_by_key s' k ≡ get_by_key s k
unfolding get_by_key
get_by_key-core s s' k e = ap (λ x. get_by_key x k) e
