-- ===== src/Review.antt =====
-- application/risk_review/service.py: a reviewer gives a risk a disposition. A call reads what the
-- unit of work holds and returns what it saves. The id of the event is given; the comment
-- of the reviewer, the checks of the event's constructor, the saving of the risk and of the event, and
-- the commit are left out.
pub mod Versions
pub mod Applies
mod Tests
use ip_risk_agent_v.Base.{
  ℕ, ◌+◌, max, Bool, true, false, not, ◌==◌, if◌then◌else◌, Option, none, some, List, [], ◌∷◌, Text,
  codes, text_eq, Instant, Datetime, normalize_utc, Outcome, ok, raised, ◌>>=◌, ◌>>◌, raise_if,
  Error, not_found, denied, review_conflict,
}
use ip_risk_agent_v.Memberships.{Membership}
use ip_risk_agent_v.Memberships.Authorization.{
  VwsAction, AuthorizationDecision, authorize_vws_action, require_authorized,
}
use ip_risk_agent_v.Risk.{Risk, ReviewDisposition, RiskEventType, post_init}
use ip_risk_agent_v.Risk.Transitions.{ReviewDecision, decide_user_review, same_disposition}
use ip_risk_agent_v.Risk.Events.{RiskEvent, ActorType, SafeValue, disposition_value}

-- What the unit of work finds: the workspace, the membership of the actor in it, and the risk.
pub record Found : Type 0 where
  pub workspace : Bool
  pub membership : Option Membership
  pub risk : Option Risk

pub data RiskReviewDisposition : Type 0 where
  applied : RiskReviewDisposition
  unchanged : RiskReviewDisposition

pub record RiskReviewResult : Type 0 where
  pub disposition : RiskReviewDisposition
  pub risk : Risk
  pub event : Option RiskEvent

-- `ReviewDecision.changed`
abbrev pub review_changed : ReviewDecision → Bool
review_changed d = not (same_disposition d.previous_disposition d.next_disposition)

abbrev pub find_risk : Option Risk → Text → Outcome Error Risk
find_risk none risk_workspace_id = raised not_found
find_risk (some risk) risk_workspace_id =
    if text_eq risk.risk_workspace_id risk_workspace_id then ok risk else raised not_found

abbrev pub reviewed_risk : Risk → ReviewDisposition → Instant → Risk
reviewed_risk risk new_disposition now = record risk {
  review_disposition = new_disposition;
  review_version = risk.review_version + 1;
  updated_at = max now risk.updated_at;
}

abbrev pub review_event : Risk → Risk → Text → Text → RiskEvent
review_event risk updated actor_user_id event_id = record {
  id = event_id;
  risk_id = risk.id;
  event_type = RiskEventType.review_disposition_changed;
  actor_type = ActorType.user;
  actor_user_id = some actor_user_id;
  occurred_at = updated.updated_at;
  previous_state_safe =
      (codes "review_disposition", SafeValue.text (disposition_value risk.review_disposition))
      ∷ (codes "review_version", SafeValue.number risk.review_version)
      ∷ [];
  new_state_safe =
      (codes "review_disposition", SafeValue.text (disposition_value updated.review_disposition))
      ∷ (codes "review_version", SafeValue.number updated.review_version)
      ∷ [];
  analysis_job_id = none;
  evidence_refs = [];
  reason_safe = none;
}

-- The change, where the decision calls for one.
abbrev pub apply_review :
    Risk
    → ReviewDecision
    → ReviewDisposition
    → Datetime
    → Text
    → Text
    → Outcome Error RiskReviewResult
apply_review risk decision new_disposition clock actor_user_id event_id =
    if not (review_changed decision)
    then ok record { disposition = RiskReviewDisposition.unchanged; risk = risk; event = none }
    else do
      now ← normalize_utc clock "risk_review.clock"
      updated ← post_init (reviewed_risk risk new_disposition now)
      ok record {
        disposition = RiskReviewDisposition.applied;
        risk = updated;
        event = some (review_event risk updated actor_user_id event_id);
      }

-- What follows the authorization.
unfoldable pub review_found :
    Risk → ℕ → ReviewDisposition → Datetime → Text → Text → Outcome Error RiskReviewResult
unfolding decide_user_review
review_found risk expected_review_version new_disposition clock actor_user_id event_id = do
  raise_if (not (risk.review_version == expected_review_version))
      (review_conflict expected_review_version risk.review_version)
  decision ← decide_user_review risk.review_disposition new_disposition
  apply_review risk decision new_disposition clock actor_user_id event_id

unfoldable pub change_disposition :
    Found → Text → Text → ℕ → ReviewDisposition → Datetime → Text → Outcome Error RiskReviewResult
unfolding require_authorized
change_disposition found risk_workspace_id actor_user_id expected_review_version new_disposition
      clock event_id =
    do
      raise_if (not found.workspace) not_found
      decision ←
          authorize_vws_action actor_user_id risk_workspace_id found.membership
            VwsAction.risk_review none none
      require_authorized decision
      risk ← find_risk found.risk risk_workspace_id
      review_found risk expected_review_version new_disposition clock actor_user_id event_id
