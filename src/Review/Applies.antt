-- ===== src/Review/Applies.antt =====
-- When a review gets through: application/risk_review/service.py.
use ip_risk_agent_v.Base.{
  ◌≡◌, ◌≢◌, ◌+◌, max, refl, arith, true, is_some, Option, none, some, Text, text_eq_iff, Instant,
  aware, ok, IsNormal,
}
use ip_risk_agent_v.Memberships.{Membership}
use ip_risk_agent_v.Memberships.Authorization.{VwsAction}
use ip_risk_agent_v.Memberships.Authorization.Allowed.{MayAct, authorize_member}
use ip_risk_agent_v.Risk.{Risk, RiskLifecycleState, ReviewDisposition}
use ip_risk_agent_v.Risk.Validity.{IsValid, ResolvedInOrder, post_init-accepts}
use ip_risk_agent_v.Risk.Transitions.{decide_review}
use ip_risk_agent_v.Review.{
  RiskReviewResult, reviewed_risk, review_event, RiskReviewDisposition, review_found,
  change_disposition,
}

reviewed_risk-resolution :
    (r : Risk) (d : ReviewDisposition) (now : Instant) (s : RiskLifecycleState) (t : Option Instant)
    → ResolvedInOrder r s t
    → ResolvedInOrder (reviewed_risk r d now) s t
reviewed_risk-resolution r d now s t h = ground arith

reviewed_risk-IsValid :
    (r : Risk) (d : ReviewDisposition) (now : Instant) → IsValid r → IsValid (reviewed_risk r d now)
reviewed_risk-IsValid r d now v = record {
  id = v.id;
  risk_workspace_id = v.risk_workspace_id;
  artifact_id = v.artifact_id;
  risk_key = v.risk_key;
  summary = v.summary;
  latest_analysis_job_id = v.latest_analysis_job_id;
  seen = v.seen;
  updated = omega (arith, v.updated);
  resolution = reviewed_risk-resolution r d now r.lifecycle_state r.resolved_at v.resolution;
}

module _ (r : Risk) (valid : IsValid r) (d : ReviewDisposition)
    (live : r.review_disposition ≢ ReviewDisposition.excluded)
    (chosen : d ≢ ReviewDisposition.excluded) (other : r.review_disposition ≢ d) (now : Instant)
    (actor id : Text) where
  review_found-applies :
      (x : RiskReviewResult) × (review_found r r.review_version d (aware now) actor id ≡ ok x)
      × (x.risk ≡ reviewed_risk r d now)
      × (is_some x.event ≡ true)
  unfolding review_found decide_review
  review_found-applies = (
    record {
      disposition = RiskReviewDisposition.applied;
      risk = reviewed_risk r d now;
      event = some (review_event r (reviewed_risk r d now) actor id);
    },
    ground (arith, post_init-accepts (reviewed_risk r d now) (reviewed_risk-IsValid r d now valid)),
    refl,
    refl,
  )

  -- A member who may review, under ids of the actor and the workspace that are normal, and who has seen
  -- the current version of a valid and live risk of the workspace, gives it another of the
  -- dispositions for people: the review is applied, and the risk that comes out is as before in every
  -- field but the disposition, which is the new one, the version, which is the next, and the time of
  -- the update, which is the later of now and the one before. There is an event of it.
  pub review_applies :
      (m : Membership) (workspace : Text)
      → IsNormal actor "actor_user_id"
      → IsNormal workspace "risk_workspace_id"
      → MayAct actor workspace m VwsAction.risk_review none none
      → r.risk_workspace_id ≡ workspace
      → (x : RiskReviewResult) × (change_disposition
            (record { workspace = true; membership = some m; risk = some r })
            workspace
            actor
            r.review_version
            d
            (aware now)
            id
          ≡ ok x)
        × (x.risk ≡ record {
          id = r.id;
          risk_workspace_id = r.risk_workspace_id;
          artifact_id = r.artifact_id;
          analysis_type = r.analysis_type;
          risk_key = r.risk_key;
          lifecycle_state = r.lifecycle_state;
          review_disposition = d;
          review_priority = r.review_priority;
          summary = r.summary;
          latest_analysis_job_id = r.latest_analysis_job_id;
          first_seen_at = r.first_seen_at;
          last_seen_at = r.last_seen_at;
          updated_at = max now r.updated_at;
          resolved_at = r.resolved_at;
          latest_evidence_revision = r.latest_evidence_revision;
          review_version = r.review_version + 1;
          explanation_safe = r.explanation_safe;
          recommendation_safe = r.recommendation_safe;
        })
        × (is_some x.event ≡ true)
  unfolding change_disposition
  review_applies m workspace ha hw may e =
      let (x, q, s, t) = review_found-applies in
      let (dec, a, allowed) =
        authorize_member actor workspace m VwsAction.risk_review none none ha hw in
      (x, ground (arith, a, allowed.1 may, text_eq_iff r.risk_workspace_id workspace, q), s, t)
