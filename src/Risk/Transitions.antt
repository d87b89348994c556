-- ===== src/Risk/Transitions.antt =====
-- core/risk/transitions.py: what an analysis, a reviewer or an exclusion does to a risk.
use ip_risk_agent_v.Base.{
  Bool, true, false, ◌&&◌, ◌||◌, not, ltb, if◌then◌else◌, Option, none, some, ℕ, Outcome, ok,
  raised, Error, invariant,
}
use ip_risk_agent_v.Contracts.{AnalysisType, AnalysisStatus, AnalysisCoverage}
use ip_risk_agent_v.Risk.{RiskLifecycleState, ReviewDisposition, RiskEventType, is_excluded}

pub record LifecycleDecision : Type 0 where
  pub previous_state : Option RiskLifecycleState
  pub next_state : Option RiskLifecycleState
  pub event_type : Option RiskEventType
  pub authoritative : Bool

pub record ReviewDecision : Type 0 where
  pub previous_disposition : ReviewDisposition
  pub next_disposition : ReviewDisposition
  pub event_type : Option RiskEventType

pub record ExclusionDecision : Type 0 where
  pub previous_state : RiskLifecycleState
  pub next_state : RiskLifecycleState
  pub previous_disposition : ReviewDisposition
  pub next_disposition : ReviewDisposition

abbrev pub is_succeeded : AnalysisStatus → Bool
is_succeeded AnalysisStatus.succeeded = true
is_succeeded _ = false

abbrev pub is_complete : AnalysisCoverage → Bool
is_complete AnalysisCoverage.complete = true
is_complete _ = false

abbrev pub is_uncovered : AnalysisCoverage → Bool
is_uncovered AnalysisCoverage.none = true
is_uncovered _ = false

-- Identity of enumeration members (`is`).
abbrev pub same_state : RiskLifecycleState → RiskLifecycleState → Bool
same_state RiskLifecycleState.new RiskLifecycleState.new = true
same_state RiskLifecycleState.existing RiskLifecycleState.existing = true
same_state RiskLifecycleState.resolved RiskLifecycleState.resolved = true
same_state _ _ = false

abbrev pub same_disposition : ReviewDisposition → ReviewDisposition → Bool
same_disposition ReviewDisposition.unreviewed ReviewDisposition.unreviewed = true
same_disposition ReviewDisposition.monitoring ReviewDisposition.monitoring = true
same_disposition ReviewDisposition.accepted_risk ReviewDisposition.accepted_risk = true
same_disposition ReviewDisposition.excluded ReviewDisposition.excluded = true
same_disposition _ _ = false

unfoldable pub analysis_is_authoritative : AnalysisStatus → AnalysisCoverage → Bool
analysis_is_authoritative status coverage = is_succeeded status && is_complete coverage

unfoldable pub analysis_can_record : AnalysisStatus → AnalysisCoverage → Bool
analysis_can_record status coverage = is_succeeded status && not (is_uncovered coverage)

-- May the lack of candidates alone close a risk?
unfoldable pub absence_can_resolve : AnalysisType → ℕ → AnalysisCoverage → Bool
absence_can_resolve AnalysisType.patent candidate_count coverage = true
absence_can_resolve AnalysisType.license candidate_count coverage =
    if ltb 0 candidate_count then true else is_complete coverage

-- The state after a candidate was seen, with the event that says so.
abbrev record_candidate : Option RiskLifecycleState → LifecycleDecision
record_candidate none = record {
  previous_state = none;
  next_state = some RiskLifecycleState.new;
  event_type = some RiskEventType.detected;
  authoritative = true;
}
record_candidate (some RiskLifecycleState.resolved) = record {
  previous_state = some RiskLifecycleState.resolved;
  next_state = some RiskLifecycleState.existing;
  event_type = some RiskEventType.reopened;
  authoritative = true;
}
record_candidate previous_state = record {
  previous_state = previous_state;
  next_state = some RiskLifecycleState.existing;
  event_type = some RiskEventType.confirmed;
  authoritative = true;
}

-- The state after no candidate was seen: an active risk closes, any other stays.
abbrev record_absence : Option RiskLifecycleState → LifecycleDecision
record_absence (some RiskLifecycleState.new) = record {
  previous_state = some RiskLifecycleState.new;
  next_state = some RiskLifecycleState.resolved;
  event_type = some RiskEventType.resolved;
  authoritative = true;
}
record_absence (some RiskLifecycleState.existing) = record {
  previous_state = some RiskLifecycleState.existing;
  next_state = some RiskLifecycleState.resolved;
  event_type = some RiskEventType.resolved;
  authoritative = true;
}
record_absence previous_state = record {
  previous_state = previous_state;
  next_state = previous_state;
  event_type = none;
  authoritative = true;
}

unfoldable pub decide_lifecycle :
    Option RiskLifecycleState → Bool → AnalysisStatus → AnalysisCoverage → LifecycleDecision
unfolding analysis_can_record analysis_is_authoritative
decide_lifecycle previous_state candidate_present status coverage =
    let authoritative =
      if candidate_present
      then analysis_can_record status coverage
      else analysis_is_authoritative status coverage in
    if not authoritative
    then record {
      previous_state = previous_state;
      next_state = previous_state;
      event_type = none;
      authoritative = false;
    }
    else if candidate_present
    then record_candidate previous_state
    else record_absence previous_state

unfoldable pub decide_review : ReviewDisposition → ReviewDisposition → ReviewDecision
decide_review previous_disposition next_disposition = record {
  previous_disposition = previous_disposition;
  next_disposition = next_disposition;
  event_type =
      if not (same_disposition previous_disposition next_disposition)
      then some RiskEventType.review_disposition_changed
      else none;
}

-- `USER_SELECTABLE_DISPOSITIONS`
abbrev pub user_selectable : ReviewDisposition → Bool
user_selectable ReviewDisposition.unreviewed = true
user_selectable ReviewDisposition.monitoring = true
user_selectable ReviewDisposition.accepted_risk = true
user_selectable ReviewDisposition.excluded = false

unfoldable pub decide_user_review :
    ReviewDisposition → ReviewDisposition → Outcome Error ReviewDecision
unfolding decide_review
decide_user_review previous_disposition next_disposition =
    if not (user_selectable next_disposition)
    then raised (invariant "review disposition cannot be chosen by a reviewer")
    else if is_excluded previous_disposition
    then raised (invariant "an excluded risk is reviewable only after tracking resumes")
    else ok (decide_review previous_disposition next_disposition)

unfoldable pub decide_exclusion : RiskLifecycleState → ReviewDisposition → ExclusionDecision
decide_exclusion previous_state previous_disposition = record {
  previous_state = previous_state;
  next_state = RiskLifecycleState.resolved;
  previous_disposition = previous_disposition;
  next_disposition = ReviewDisposition.excluded;
}

-- `ExclusionDecision.changed`
unfoldable pub exclusion_changed : ExclusionDecision → Bool
exclusion_changed d =
    not (same_state d.previous_state d.next_state)
    || not (same_disposition d.previous_disposition d.next_disposition)

unfoldable pub should_revive : ReviewDisposition → Bool
should_revive previous_disposition = is_excluded previous_disposition
