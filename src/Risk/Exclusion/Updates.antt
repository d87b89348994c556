-- ===== src/Risk/Exclusion/Updates.antt =====
-- The risks that an exclusion and a revival store: application/risk_exclusion.py.
use ip_risk_agent_v.Base.{
  ℕ, Error, ◌≡◌, ◌≢◌, refl, arith, ◌+◌, Option, some, List, Text, Instant, Outcome, ok,
  text_eq_refl,
}
use ip_risk_agent_v.Risk.{Risk, RiskLifecycleState, ReviewDisposition}
use ip_risk_agent_v.Risk.Validity.{IsValid, post_init-accepts}
use ip_risk_agent_v.Risk.Transitions.{decide_exclusion}
use ip_risk_agent_v.Risk.Events.{RiskEvent}
use ip_risk_agent_v.Risk.Exclusion.{
  exclude_risk, excluded_risk, exclusion_event, revive_risk, revived_risk, revival_event,
  disposition_before_exclusion, or_unreviewed,
}

pub excluded_risk-IsValid :
    (r : Risk) (d : ReviewDisposition) (t : Instant)
    → IsValid r
    → IsValid (excluded_risk r (decide_exclusion r.lifecycle_state d) t)
unfolding excluded_risk decide_exclusion
excluded_risk-IsValid r d t v = record {
  id = v.id;
  risk_workspace_id = v.risk_workspace_id;
  artifact_id = v.artifact_id;
  risk_key = v.risk_key;
  summary = v.summary;
  latest_analysis_job_id = v.latest_analysis_job_id;
  seen = v.seen;
  updated = omega arith;
  resolution = (omega arith, omega arith, omega arith);
}

pub revived_risk-IsValid :
    (r : Risk) (p : Option ReviewDisposition) (t : Instant)
    → IsValid r
    → IsValid (revived_risk r p t)
unfolding revived_risk
revived_risk-IsValid r p t v = record {
  id = v.id;
  risk_workspace_id = v.risk_workspace_id;
  artifact_id = v.artifact_id;
  risk_key = v.risk_key;
  summary = v.summary;
  latest_analysis_job_id = v.latest_analysis_job_id;
  seen = omega (arith, v.seen);
  updated = omega (arith, v.seen);
  resolution = tt;
}

-- The risk and the event that an exclusion stores.
abbrev pub excluded_pair : Risk → Instant → Text → Text → Risk × RiskEvent
excluded_pair r t reason id =
    let s = excluded_risk r (decide_exclusion r.lifecycle_state r.review_disposition) t in
    (s, exclusion_event s r.lifecycle_state r.review_disposition s.updated_at reason id)

pub exclude_risk_lem :
    (r : Risk) (t : Instant) (reason id : Text)
    → IsValid r
    → r.review_disposition ≢ ReviewDisposition.excluded
    → exclude_risk r t reason id ≡ ok (some (excluded_pair r t reason id))
unfolding exclude_risk
exclude_risk_lem r t reason id v live = ground (
  arith,
  post_init-accepts (excluded_risk r (decide_exclusion r.lifecycle_state r.review_disposition) t)
      (excluded_risk-IsValid r r.review_disposition t v),
)

abbrev pub revived_pair :
    List RiskEvent → Risk → Option Text → Instant → Text → Text → Risk × RiskEvent
revived_pair events r revision t reason id =
    let previous = disposition_before_exclusion events r revision in
    let s = revived_risk r previous t in (s, revival_event r s previous reason id)

pub revive_risk_lem :
    (events : List RiskEvent) (r : Risk) (revision : Option Text) (t : Instant) (reason id : Text)
    → IsValid r
    → r.review_disposition ≡ ReviewDisposition.excluded
    → revive_risk events r r.artifact_id revision t reason id
      ≡ ok (some (revived_pair events r revision t reason id))
unfolding revive_risk
revive_risk_lem events r revision t reason id v gone = ground (
  arith,
  text_eq_refl r.artifact_id,
  post_init-accepts (revived_risk r (disposition_before_exclusion events r revision) t)
      (revived_risk-IsValid r (disposition_before_exclusion events r revision) t v),
)

-- What a revival of the risk has done.
pub record Revived (call : Outcome Error (Option (Risk × RiskEvent))) (d : ReviewDisposition)
    (version : ℕ) : Type 0 where
  pub risk : Risk
  pub event : RiskEvent
  pub stored : call ≡ ok (some (risk, event))
  pub valid : IsValid risk
  pub state : risk.lifecycle_state ≡ RiskLifecycleState.existing
  pub disposition : risk.review_disposition ≡ d
  pub review_version : risk.review_version ≡ version

pub Revived-after_exclusion :
    (events : List RiskEvent) (r : Risk)
    → IsValid r
    → (t t' : Instant) (revision : Option Text) (reason id : Text) {d : ReviewDisposition}
    → let s = excluded_risk r (decide_exclusion r.lifecycle_state r.review_disposition) t in
      or_unreviewed (disposition_before_exclusion events s revision) ≡ d
      → Revived (revive_risk events s s.artifact_id revision t' reason id) d (r.review_version + 2)
Revived-after_exclusion events r v t t' revision reason id e =
    let s = excluded_risk r (decide_exclusion r.lifecycle_state r.review_disposition) t in
    let sv = excluded_risk-IsValid r r.review_disposition t v in
    let p = disposition_before_exclusion events s revision in
    let (u, y) = revived_pair events s revision t' reason id in
    record {
      risk = u;
      event = y;
      stored =
          revive_risk_lem events s revision t' reason id sv
            (unfold excluded_risk decide_exclusion in refl);
      valid = revived_risk-IsValid s p t' sv;
      state = unfold revived_risk in refl;
      disposition = unfold revived_risk in e;
      review_version = unfold revived_risk excluded_risk in omega arith;
    }
