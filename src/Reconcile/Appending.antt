-- ===== src/Reconcile/Appending.antt =====
-- The event that a candidate appends to the history of its risk: application/risk_reconcile/service.py,
-- `_reconcile` and `_append_event_once`.
use ip_risk_agent_v.Base.{
  ◌≡◌, ◌⊎◌, inl, inr, sym, subst, arith, ◌∙◌, true, any, map, Bool-cases, Option, none, some, List,
  Text, text_eq, Instant, Dict, get_item, set_item, get_item-set_item_same, get_item-set_item_other,
  IsNormal, require_non_empty-cases, require_non_empty_renamed, Outcome-cases, ok,
}
use ip_risk_agent_v.Exec.{◌>>=◌, >>=-eq-ok, gets_then, lift-eq-ok}
use ip_risk_agent_v.Exec.Rules.{Keeps, Keeps-modify, keeps_rules}
use ip_risk_agent_v.Contracts.{ReviewPriority}
use ip_risk_agent_v.Identity.{risk_event_id_for}
use ip_risk_agent_v.Notifications.{Notification}
use ip_risk_agent_v.Risk.{Risk, RiskLifecycleState, RiskEventType}
use ip_risk_agent_v.Risk.Events.{RiskEvent, event_type_value}
use ip_risk_agent_v.Risk.Events
use ip_risk_agent_v.Risk.Evidence.{RiskEvidence}
use ip_risk_agent_v.Risk.Attribution.{CauseAttribution}
use ip_risk_agent_v.Repositories.{ControlState}
use ip_risk_agent_v.Repositories.Risks.{add_evidence, clear_evidence, append_event, list_events}
use ip_risk_agent_v.Reconcile.{Library, AnalysisResult}
use ip_risk_agent_v.Reconcile.Retention.{EvidenceRetentionPolicy}
use ip_risk_agent_v.Reconcile.Projections.{CandidateProjection}
use ip_risk_agent_v.Reconcile.Recording.{Recorded}
use ip_risk_agent_v.Reconcile.History.{attribute, risk_event}
use ip_risk_agent_v.Reconcile.EvidenceWrites.{replace_evidence}
use ip_risk_agent_v.Reconcile.Frame.{Keeps-replace_evidence}
use ip_risk_agent_v.Reconcile.Loop.{
  append_event_once, add_notification_once, append_history, appended_priority, notify_reopened,
}

-- The table of the events.
abbrev pub HasEvents : Dict RiskEvent → ControlState → Type 0
HasEvents events s = s.risk_events ≡ events

module _ {events : Dict RiskEvent} where
  add_evidence-Keeps : (e : RiskEvidence) → Keeps (HasEvents events) (add_evidence e)
  unfolding add_evidence
  add_evidence-Keeps e = search (keeps_rules, Keeps-modify)

  clear_evidence-Keeps : (r j : Text) → Keeps (HasEvents events) (clear_evidence r j)
  unfolding clear_evidence
  clear_evidence-Keeps r j = search (keeps_rules, Keeps-modify)

  pub replace_evidence-Keeps :
      (lib : Library) (policy : EvidenceRetentionPolicy) (result : AnalysisResult) (r : Risk)
      (at : Instant) (p : CandidateProjection)
      → Keeps (HasEvents events) (replace_evidence lib policy result r at p)
  replace_evidence-Keeps = Keeps-replace_evidence add_evidence-Keeps clear_evidence-Keeps

-- An event stands in the history.
abbrev pub Stands : RiskEvent → ControlState → Type 0
Stands e s = get_item s.risk_events e.id ≡ some e

append_event-ok :
    (e : RiskEvent) (s s' : ControlState)
    → append_event e s ≡ ok (tt, s')
    → (get_item s.risk_events e.id ≡ none) × (s'.risk_events ≡ set_item e.id e s.risk_events)
unfolding append_event ◌>>=◌
append_event-ok e s s' h = ground (arith, h)

module _ (e : RiskEvent) where
  append_event-Stands : (f : RiskEvent) → Keeps (Stands e) (append_event f)
  append_event-Stands f = record {
    at = λ s a s' there h.
        let (fresh, q) = append_event-ok f s s' h in
        rw q (
          get_item-set_item_other f.id e.id f s.risk_events (λ same.
            let b = subst (λ z. get_item s.risk_events z ≡ some e) (sym same) there in
            ground (arith, fresh, b))
          ∙ there);
  }

  append_event_once-Stands :
      (ids : List Text) (f : RiskEvent) → Keeps (Stands e) (append_event_once ids f)
  unfolding append_event_once
  append_event_once-Stands ids f = search (keeps_rules, append_event-Stands)

  add_notification_once-Stands : (n : Notification) → Keeps (Stands e) (add_notification_once n)
  unfolding add_notification_once ip_risk_agent_v.Repositories.Notifications.add
  add_notification_once-Stands n = search (keeps_rules, Keeps-modify)

  module _ (lib : Library) (policy : EvidenceRetentionPolicy) (result : AnalysisResult)
      (fingerprint workspace : Text) (at : Instant) (owner : Text) where
    pub appended_priority-Stands :
        (r : Recorded) (q : Option ReviewPriority) (a : CauseAttribution) (ids : List Text)
        → Keeps
            (Stands e)
            (appended_priority lib policy result fingerprint workspace at owner r q a ids)
    appended_priority-Stands r none a ids = search keeps_rules
    appended_priority-Stands r (some q) a ids =
        search (keeps_rules, append_event_once-Stands) depth 16

    pub notify_reopened-Stands :
        (r : Recorded) (t : RiskEventType)
        → Keeps (Stands e) (notify_reopened lib policy result fingerprint workspace at owner r t)
    unfolding notify_reopened
    notify_reopened-Stands r t = search (keeps_rules, add_notification_once-Stands) depth 16

-- The history of the risk names the event already.
abbrev pub IsRecorded : RiskEvent → Text → ControlState → Type 0
IsRecorded e risk_id s = any (text_eq e.id) (map (λ x. x.id) (list_events s risk_id)) ≡ true

append_event_once-ok :
    (ids : List Text) (e : RiskEvent) (s s' : ControlState) (x : List Text)
    → append_event_once ids e s ≡ ok (x, s')
    → (any (text_eq e.id) ids ≡ true) ⊎ ((get_item s.risk_events e.id ≡ none) × Stands e s')
unfolding append_event_once
append_event_once-ok ids e s s' x h = elim (Bool-cases (any (text_eq e.id) ids)) [
  | inl t ↦ inl t
  | inr f ↦
      let (_, s1, k, p) = >>=-eq-ok (append_event e) _ s x s' (rw f at h) in
      let (fresh, q) = append_event-ok e s s1 k in
      let same : s1 ≡ s' = ground (arith, p) in
      inr (fresh, subst (λ z. Stands e z) same (rw q (get_item-set_item_same e.id e s.risk_events)))
]

risk_event-parts :
    (lib : Library) (fingerprint job : Text) (r : Risk) (t : RiskEventType) (at : Instant)
    (before : Option RiskLifecycleState) (refs : List Text) (a : CauseAttribution) (e : RiskEvent)
    → IsNormal r.id "risk.id"
    → risk_event lib fingerprint job r t at before refs a ≡ ok e
    → (e.event_type ≡ t) × (e.risk_id ≡ r.id)
unfolding risk_event Events.post_init
risk_event-parts lib fingerprint job r t at before refs a e n h =
    let m = require_non_empty_renamed r.id "risk.id" "risk_event.risk_id" n in
    elim (Outcome-cases (risk_event_id_for lib.sha r.id fingerprint (event_type_value t))) [
      | inl (id, q) ↦ ground (arith, h, q, m, require_non_empty-cases id "risk_event.id")
      | inr (x, q) ↦ absurd (ground (arith, h, q))
    ]

-- An event of the type, of the risk, that is new in the history, unless it is named there.
pub record IsAppended (s : ControlState) (risk_id : Text) (t : RiskEventType) (s' : ControlState)
    : Type 0 where
  pub event : RiskEvent
  pub type : event.event_type ≡ t
  pub of_risk : event.risk_id ≡ risk_id
  pub there :
      IsRecorded event risk_id s ⊎ ((get_item s.risk_events event.id ≡ none) × Stands event s')

IsRecorded-events :
    (e : RiskEvent) (id : Text) (s t : ControlState)
    → s.risk_events ≡ t.risk_events
    → IsRecorded e id s
    → IsRecorded e id t
unfolding list_events
IsRecorded-events e id s t q h = rw (← q) h

-- From a state with the same events, to one in which what stood still stands.
pub IsAppended-between :
    (s t s' t' : ControlState) (id : Text) (type : RiskEventType)
    → s.risk_events ≡ t.risk_events
    → ((e : RiskEvent) → Stands e s' → Stands e t')
    → IsAppended s id type s'
    → IsAppended t id type t'
IsAppended-between s t s' t' id type q k a = record {
  event = a.event;
  type = a.type;
  of_risk = a.of_risk;
  there = elim a.there [
    | inl named ↦ inl (IsRecorded-events a.event id s t q named)
    | inr (fresh, stands) ↦ inr (rw (← q) fresh, k a.event stands)
  ];
}

module _ (lib : Library) (policy : EvidenceRetentionPolicy) (result : AnalysisResult)
    (fingerprint workspace : Text) (at : Instant) (owner : Text) where
  pub append_history-IsAppended :
      (r : Recorded) (t : RiskEventType) (refs : List Text) (s s' : ControlState)
      → IsNormal r.risk.id "risk.id"
      → append_history lib policy result fingerprint workspace at owner r t refs s ≡ ok (tt, s')
      → IsAppended s r.risk.id t s'
  unfolding append_history
  append_history-IsAppended r t refs s s' n h =
      let a = attribute s r.previous_job_id result in
      let ids = map (λ x. x.id) (list_events s r.risk.id) in
      let h0 = gets_then _ _ s tt s' (gets_then _ _ s tt s' h) in
      let (e, s1, h1, k1) = >>=-eq-ok _ _ s tt s' h0 in
      let (made, same) = lift-eq-ok _ s s1 e h1 in
      let (known, s2, h2, k2) = >>=-eq-ok _ _ s1 tt s' k1 in
      let (t', of_risk) =
        risk_event-parts lib fingerprint result.analysis_job_id r.risk t r.risk_time
          r.previous_state refs a e n made in
      record {
        event = e;
        type = t';
        of_risk = of_risk;
        there = elim (append_event_once-ok ids e s1 s2 known h2) [
          | inl named ↦ inl named
          | inr (fresh, stands) ↦ inr (
            subst (λ z. get_item z.risk_events e.id ≡ none) same fresh,
            (appended_priority-Stands e lib policy result fingerprint workspace at owner r
                  r.previous_priority a known).at
                s2 tt s' stands k2,
          )
        ];
      }
