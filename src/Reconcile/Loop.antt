-- ===== src/Reconcile/Loop.antt =====
-- application/risk_reconcile/service.py: `_reconcile`, which sets the risks of a file against the
-- candidates of one result.
use ip_risk_agent_v.Base.{
  ℕ, ◌==◌, max, Bool, true, false, not, ◌&&◌, is_some, if◌then◌else◌, Option, none, some, List, [],
  ◌∷◌, map, keep, any, length, Text, text_eq, Instant, Dict, get_item, set_item, without, values,
  Outcome, ok, raised, Error, assertion, intake,
}
use ip_risk_agent_v.Exec.{Exec, pure, lift, gets, refuse_if, ◌>>=◌, ◌>>◌}
use ip_risk_agent_v.Contracts.{ReviewPriority}
use ip_risk_agent_v.Risk.{Risk, RiskLifecycleState, RiskEventType, post_init}
use ip_risk_agent_v.Risk.Events.{RiskEvent}
use ip_risk_agent_v.Risk.Transitions.{decide_lifecycle, absence_can_resolve, same_state}
use ip_risk_agent_v.Risk.Attribution.{CauseAttribution}
use ip_risk_agent_v.Notifications.{Notification, NotificationType}
use ip_risk_agent_v.Repositories.{ControlState}
use ip_risk_agent_v.Repositories.Risks.{list_for_artifact, list_events, append_event, save}
use ip_risk_agent_v.Repositories.Artifacts.{get}
use ip_risk_agent_v.Reconcile.{Library, AnalysisResult}
use ip_risk_agent_v.Reconcile.Retention.{EvidenceRetentionPolicy}
use ip_risk_agent_v.Reconcile.Projections.{CandidateProjection, candidate_projections}
use ip_risk_agent_v.Reconcile.Recording.{Recorded, record_risk, closed_risk}
use ip_risk_agent_v.Reconcile.EvidenceWrites.{replace_evidence}
use ip_risk_agent_v.Reconcile.History.{attribute, risk_event, priority_event}
use ip_risk_agent_v.Reconcile.Notices.{risk_notification, attention_notification}

abbrev pub same_priority : ReviewPriority → ReviewPriority → Bool
same_priority ReviewPriority.low ReviewPriority.low = true
same_priority ReviewPriority.medium ReviewPriority.medium = true
same_priority ReviewPriority.high ReviewPriority.high = true
same_priority ReviewPriority.indeterminate ReviewPriority.indeterminate = true
same_priority _ _ = false

abbrev pub is_reopened : RiskEventType → Bool
is_reopened RiskEventType.reopened = true
is_reopened _ = false

-- `previous_priority is not risk.review_priority`
abbrev pub priority_differs : Option ReviewPriority → ReviewPriority → Bool
priority_differs none priority = true
priority_differs (some previous) priority = not (same_priority previous priority)

-- `risk.review_priority in {HIGH, INDETERMINATE}`
abbrev pub asks_for_review : ReviewPriority → Bool
asks_for_review ReviewPriority.high = true
asks_for_review ReviewPriority.indeterminate = true
asks_for_review _ = false

abbrev pub decided : Option RiskEventType → Outcome Error RiskEventType
decided none = raised assertion
decided (some event_type) = ok event_type

-- `_append_event_once`: the ids that are recorded after it.
unfoldable pub append_event_once : List Text → RiskEvent → Exec ControlState (List Text)
append_event_once recorded_ids event =
    let append = append_event event >> pure (event.id ∷ recorded_ids) in
    if any (text_eq event.id) recorded_ids then pure recorded_ids else append

-- `_add_notification_once`
unfoldable pub add_notification_once : Notification → Exec ControlState (Unit {0})
add_notification_once notification = do
  known ← gets (λ s. ip_risk_agent_v.Repositories.Notifications.get s notification.id)
  if is_some known then pure tt else ip_risk_agent_v.Repositories.Notifications.add notification

-- `max(risk.updated_at for risk in risks)`
abbrev pub latest : Risk → List Risk → Instant
latest r [] = r.updated_at
latest r (q ∷ qs) = max r.updated_at (latest q qs)

abbrev is_next_resolved : Option RiskLifecycleState → Bool
is_next_resolved none = false
is_next_resolved (some state) = same_state state RiskLifecycleState.resolved

-- The risks of the file by their key; a later one of a key replaces an earlier one.
unfoldable pub by_key : List Risk → Dict Risk → Dict Risk
by_key [] d = d
by_key (risk ∷ risks) d = by_key risks (set_item risk.risk_key risk d)

-- What one candidate left for the rest of the reconciliation.
pub record Observed : Type 0 where
  pub risk : Risk
  pub attention : Bool
  pub evidence_count : ℕ

module _ (lib : Library) (policy : EvidenceRetentionPolicy) (result : AnalysisResult)
    (result_fingerprint : Text) (risk_workspace_id : Text) (occurred_at : Instant)
    (workspace_owner : Text) where
  abbrev pub appended_priority :
      Recorded → Option ReviewPriority → CauseAttribution → List Text → Exec ControlState (Unit {0})
  appended_priority r none attribution recorded_ids = pure tt
  appended_priority r (some previous_priority) attribution recorded_ids =
      let append = (do
        event ← lift (
            priority_event lib result_fingerprint result.analysis_job_id r.risk previous_priority
              r.risk_time attribution)
        _ ← append_event_once recorded_ids event
        pure tt) in
      if same_priority previous_priority r.risk.review_priority then pure tt else append

  -- The events of a candidate whose evidence was written.
  unfoldable pub append_history :
      Recorded → RiskEventType → List Text → Exec ControlState (Unit {0})
  unfolding append_event_once
  append_history r event_type evidence_refs = do
    recorded_event_ids ← gets (λ s. map (λ e. e.id) (list_events s r.risk.id))
    attribution ← gets (λ s. attribute s r.previous_job_id result)
    event ← lift (
        risk_event lib result_fingerprint result.analysis_job_id r.risk event_type r.risk_time
          r.previous_state evidence_refs attribution)
    recorded_ids ← append_event_once recorded_event_ids event
    appended_priority r r.previous_priority attribution recorded_ids

  unfoldable pub notify_reopened : Recorded → RiskEventType → Exec ControlState (Unit {0})
  unfolding add_notification_once
  notify_reopened r event_type =
      let tell = (do
        notification ← lift (
            risk_notification lib result_fingerprint workspace_owner r.risk
              NotificationType.risk_reopened r.risk_time)
        add_notification_once notification) in
      if is_reopened event_type then tell else pure tt

  -- What follows the writing of the risk.
  unfoldable pub after_recorded : CandidateProjection → Recorded → Exec ControlState Observed
  unfolding append_history notify_reopened
  after_recorded p r = do
    evidence_refs ← replace_evidence lib policy result r.risk r.risk_time p
    event_type ←
        lift (
          decided (decide_lifecycle r.previous_state true result.status result.coverage).event_type)
    append_history r event_type evidence_refs
    notify_reopened r event_type
    pure record {
      risk = r.risk;
      attention =
          not (is_reopened event_type)
          && asks_for_review r.risk.review_priority
          && priority_differs r.previous_priority r.risk.review_priority;
      evidence_count = length evidence_refs;
    }

  -- One pass of the loop over the projections, with the risk that was taken out of `existing_by_key`.
  unfoldable pub observe : CandidateProjection → Option Risk → Exec ControlState Observed
  unfolding after_recorded
  observe p existing = do
    r ← record_risk lib result risk_workspace_id occurred_at p existing
    after_recorded p r

  -- The loop: what it saw, and the risks that no candidate took.
  unfoldable pub observe_all :
      List CandidateProjection → Dict Risk → Exec ControlState (List Observed × Dict Risk)
  unfolding observe
  observe_all [] existing_by_key = pure ([], existing_by_key)
  observe_all (p ∷ ps) existing_by_key = do
    one ← observe p (get_item existing_by_key p.risk_key)
    rest ← observe_all ps (without p.risk_key existing_by_key)
    pure (one ∷ rest.0, rest.1)

  -- One notification for the file.
  unfoldable pub notify_attention : List Risk → Exec ControlState (Unit {0})
  unfolding add_notification_once
  notify_attention [] = pure tt
  notify_attention (first ∷ others) = do
    artifact ← gets (λ s. get s result.artifact_id)
    notification ← lift (
        attention_notification lib result_fingerprint workspace_owner first others
          result.artifact_id (latest first others) artifact)
    add_notification_once notification

  -- `decision.next_state is RESOLVED and decision.changed`
  abbrev pub closes : Risk → Bool
  closes risk =
      is_next_resolved
        (decide_lifecycle (some risk.lifecycle_state) false result.status
          result.coverage).next_state
      && not (same_state risk.lifecycle_state RiskLifecycleState.resolved)

  unfoldable pub append_closed :
      Risk → Risk → Instant → CauseAttribution → Exec ControlState (Unit {0})
  append_closed risk updated risk_time attribution = do
    event ← lift (
        risk_event lib result_fingerprint result.analysis_job_id updated RiskEventType.resolved
          risk_time (some risk.lifecycle_state) [] attribution)
    append_event event

  abbrev pub close_time : Risk → Instant
  close_time risk = max (max occurred_at risk.last_seen_at) risk.updated_at

  unfoldable pub close : Risk → Exec ControlState Risk
  close risk = do
    attribution ← gets (λ s. attribute s (some risk.latest_analysis_job_id) result)
    updated ← lift (post_init (closed_risk result (close_time risk) risk))
    save updated
    append_closed risk updated (close_time risk) attribution
    pure updated

  -- The loop over the risks that no candidate took: those that it closed.
  unfoldable pub close_all : List Risk → Exec ControlState (List Risk)
  unfolding close
  close_all [] = pure []
  close_all (risk ∷ risks) =
      let rest = close_all risks in
      let closing = (do updated ← close risk; others ← rest; pure (updated ∷ others)) in
      if closes risk then closing else rest

  -- The risks that may be closed for want of a candidate.
  abbrev pub may_close : Dict Risk → List Risk
  may_close remaining =
      if absence_can_resolve result.analysis_type (length result.candidates) result.coverage
      then values remaining
      else []

  -- The risks in question after they were read: what the candidates left of them, and those that closed.
  unfoldable pub reconcile_risks :
      List CandidateProjection → List Risk → Exec ControlState (List Observed × List Risk)
  unfolding observe_all close_all by_key notify_attention
  reconcile_risks projections existing_risks = do
    let existing_by_key = by_key existing_risks []
    refuse_if (not (length existing_by_key == length existing_risks))
        (intake "duplicate canonical risk key in artifact scope")
    seen ← observe_all projections existing_by_key
    notify_attention (map (λ o. o.risk) (keep (λ o. o.attention) seen.0))
    closed ← close_all (may_close seen.1)
    pure (seen.0, closed)

  unfoldable pub reconcile : Exec ControlState (List Observed × List Risk)
  unfolding reconcile_risks
  reconcile = do
    projections ← lift (candidate_projections lib policy result)
    existing_risks ← gets (λ s. list_for_artifact s result.artifact_id result.analysis_type none)
    reconcile_risks projections existing_risks
