-- ===== src/Risk/Validity.antt =====
-- What `Risk.__post_init__` establishes: core/risk/models.py.
use ip_risk_agent_v.Base.{
  ◌↔◌, require_non_empty-cases, ◌≡◌, refl, arith, ◌≤◌, Option, none, some, Instant, IsNormal, ok,
}
use ip_risk_agent_v.Risk.{Risk, RiskLifecycleState, post_init, check_resolution}

-- A resolved risk has a time of resolution, no earlier than it was last seen and no later than its
-- last update; an active risk has none.
abbrev pub ResolvedInOrder : Risk → RiskLifecycleState → Option Instant → Type 0
ResolvedInOrder r RiskLifecycleState.resolved none = ⊥
ResolvedInOrder r RiskLifecycleState.resolved (some t) =
    (r.first_seen_at ≤ t) × (r.last_seen_at ≤ t) × (t ≤ r.updated_at)
ResolvedInOrder r _ (some t) = ⊥
ResolvedInOrder r _ none = Unit {0}

pub record IsValid (r : Risk) : Type 0 where
  pub id : IsNormal r.id "risk.id"
  pub risk_workspace_id : IsNormal r.risk_workspace_id "risk.risk_workspace_id"
  pub artifact_id : IsNormal r.artifact_id "risk.artifact_id"
  pub risk_key : IsNormal r.risk_key "risk.risk_key"
  pub summary : IsNormal r.summary "risk.summary"
  pub latest_analysis_job_id : IsNormal r.latest_analysis_job_id "risk.latest_analysis_job_id"
  pub seen : r.first_seen_at ≤ r.last_seen_at
  pub updated : r.first_seen_at ≤ r.updated_at
  pub resolution : ResolvedInOrder r r.lifecycle_state r.resolved_at

check_resolution-accepts :
    (r : Risk) (s : RiskLifecycleState) (t : Option Instant)
    → ResolvedInOrder r s t
    → check_resolution r s t ≡ ok r
unfolding check_resolution
check_resolution-accepts r RiskLifecycleState.resolved none h = absurd h
check_resolution-accepts r RiskLifecycleState.resolved (some t) h = ground arith
check_resolution-accepts r RiskLifecycleState.new none h = refl
check_resolution-accepts r RiskLifecycleState.new (some t) h = absurd h
check_resolution-accepts r RiskLifecycleState.existing none h = refl
check_resolution-accepts r RiskLifecycleState.existing (some t) h = absurd h

-- A valid risk passes the constructor's checks unchanged.
pub post_init-accepts : (r : Risk) → IsValid r → post_init r ≡ ok r
unfolding post_init
post_init-accepts r v =
    ground (arith, check_resolution-accepts r r.lifecycle_state r.resolved_at v.resolution)

-- What the constructor returns is valid, whatever it is given.
pub post_init-IsValid : (r s : Risk) → post_init r ≡ ok s → IsValid s
unfolding post_init
post_init-IsValid r s h = ground (
  arith,
  require_non_empty-cases r.id "risk.id",
  require_non_empty-cases r.risk_workspace_id "risk.risk_workspace_id",
  require_non_empty-cases r.artifact_id "risk.artifact_id",
  require_non_empty-cases r.risk_key "risk.risk_key",
  require_non_empty-cases r.summary "risk.summary",
  require_non_empty-cases r.latest_analysis_job_id "risk.latest_analysis_job_id",
)

-- The constructor lets a risk through as it is exactly when the risk is valid.
pub risk_fixed_iff : (c : Risk) → (post_init c ≡ ok c) ↔ IsValid c
risk_fixed_iff c = (λ h. post_init-IsValid c c h, post_init-accepts c)
