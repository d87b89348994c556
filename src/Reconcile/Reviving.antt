-- ===== src/Reconcile/Reviving.antt =====
-- An excluded risk that is seen again: application/risk_reconcile/service.py, `_reconcile`.
use ip_risk_agent_v.Base.{◌≡◌, ◌≢◌, none, some, Option}
use ip_risk_agent_v.Risk.{Risk, RiskLifecycleState, ReviewDisposition, RiskEventType}
use ip_risk_agent_v.Repositories.{ControlState}
use ip_risk_agent_v.Reconcile.Appending.{IsAppended}

-- The event that goes with the state before a candidate was seen, where there was a risk.
abbrev pub told : Option RiskLifecycleState → RiskEventType
told none = RiskEventType.detected
told (some RiskLifecycleState.new) = RiskEventType.confirmed
told (some RiskLifecycleState.existing) = RiskEventType.confirmed
told (some RiskLifecycleState.resolved) = RiskEventType.reopened

-- The risk is new and unreviewed, but its history has the event of one that was never excluded.
pub record IsDiscordant (before : RiskLifecycleState) (s : ControlState) (r : Risk)
    (s' : ControlState) : Type 0 where
  pub state : r.lifecycle_state ≡ RiskLifecycleState.new
  pub disposition : r.review_disposition ≡ ReviewDisposition.unreviewed
  pub history : IsAppended s r.id (told (some before)) s'

-- There was no risk, or one that was not excluded.
abbrev pub IsCounted : Option Risk → Type 0
IsCounted none = Unit
IsCounted (some risk) = risk.review_disposition ≢ ReviewDisposition.excluded

abbrev pub state_of : Option Risk → Option RiskLifecycleState
state_of none = none
state_of (some risk) = some risk.lifecycle_state

abbrev pub seen_as : Option Risk → RiskLifecycleState
seen_as none = RiskLifecycleState.new
seen_as (some risk) = RiskLifecycleState.existing
