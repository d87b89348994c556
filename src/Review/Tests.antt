-- ===== src/Review/Tests.antt =====
-- Runs of the review of a risk, and the properties at a concrete risk and member.
use ip_risk_agent_v.Base.{
  ◌≡◌, ◌≢◌, refl, arith, ℕ, true, none, some, codes, text_eq, aware, Outcome, ok, raised, Error,
  review_conflict, denied, is_some, IsNormal, require_non_empty, strip, strip_of, lstrip, rstrip,
  same_text,
}
use ip_risk_agent_v.Contracts.{AnalysisType, ReviewPriority}
use ip_risk_agent_v.Memberships.{Membership, MembershipRole, MembershipStatus}
use ip_risk_agent_v.Memberships.Authorization.{
  VwsAction, authorize_vws_action, decide_member, require_authorized,
}
use ip_risk_agent_v.Memberships.Authorization.Allowed.{MayAct}
use ip_risk_agent_v.Risk.{Risk, RiskLifecycleState, ReviewDisposition, post_init, check_resolution}
use ip_risk_agent_v.Risk.Validity.{IsValid, risk_fixed_iff}
use ip_risk_agent_v.Review.{
  Found, RiskReviewDisposition, RiskReviewResult, reviewed_risk, review_event, review_found,
  change_disposition,
}
use ip_risk_agent_v.Review.Versions.{Reviewed, change_disposition-Reviewed, second_review_conflicts}
use ip_risk_agent_v.Review.Applies.{review_applies}

abbrev gpl_risk : Risk
gpl_risk = record {
  id = codes "risk-1";
  risk_workspace_id = codes "rws";
  artifact_id = codes "art";
  analysis_type = AnalysisType.license;
  risk_key = codes "license:1";
  lifecycle_state = RiskLifecycleState.new;
  review_disposition = ReviewDisposition.unreviewed;
  review_priority = ReviewPriority.high;
  summary = codes "GPL";
  latest_analysis_job_id = codes "job-1";
  first_seen_at = 10;
  last_seen_at = 20;
  updated_at = 20;
  resolved_at = none;
  latest_evidence_revision = none;
  review_version = 2;
  explanation_safe = none;
  recommendation_safe = none;
}

abbrev reviewer : MembershipRole → Membership
reviewer role = record {
  id = codes "m1";
  risk_workspace_id = codes "rws";
  user_id = codes "ann";
  role = role;
  status = MembershipStatus.active;
  invited_by = codes "bob";
  created_at = 1;
  updated_at = 2;
}

abbrev found_by : MembershipRole → Found
found_by role = record { workspace = true; membership = some (reviewer role); risk = some gpl_risk }

abbrev accept : MembershipRole → ℕ → Outcome Error RiskReviewResult
accept role version =
    change_disposition (found_by role) (codes "rws") (codes "ann") version
      ReviewDisposition.accepted_risk (aware 15) (codes "e1")

abbrev accepted : RiskReviewResult
accepted = record {
  disposition = RiskReviewDisposition.applied;
  risk = reviewed_risk gpl_risk ReviewDisposition.accepted_risk 15;
  event = some (
      review_event gpl_risk (reviewed_risk gpl_risk ReviewDisposition.accepted_risk 15)
        (codes "ann") (codes "e1"));
}

-- The time of a review is at least that of the risk.
clock_behind : accepted.risk.updated_at ≡ 20
clock_behind = refl

owner_accepts : accept MembershipRole.owner 2 ≡ ok accepted
unfolding change_disposition review_found authorize_vws_action decide_member text_eq same_text
    post_init check_resolution require_non_empty strip strip_of lstrip rstrip
owner_accepts = refl

stale_version : accept MembershipRole.owner 1 ≡ raised (review_conflict 1 2)
unfolding change_disposition review_found authorize_vws_action decide_member text_eq same_text
    require_non_empty strip strip_of lstrip rstrip
stale_version = refl

viewer_denied : accept MembershipRole.viewer 2 ≡ raised denied
unfolding change_disposition authorize_vws_action decide_member require_authorized text_eq same_text
    require_non_empty strip strip_of lstrip rstrip
viewer_denied = refl

change_disposition-Reviewed_example :
    (risk : Risk) × ((found_by MembershipRole.owner).risk ≡ some risk)
    × Reviewed risk 2 ReviewDisposition.accepted_risk accepted.risk
change_disposition-Reviewed_example =
    change_disposition-Reviewed (found_by MembershipRole.owner) (codes "rws") (codes "ann") 2
      ReviewDisposition.accepted_risk (aware 15) (codes "e1") accepted owner_accepts refl

second_review_conflicts_example :
    change_disposition
      (record {
        workspace = true;
        membership = some (reviewer MembershipRole.owner);
        risk = some accepted.risk;
      })
      (codes "rws")
      (codes "ann")
      2
      ReviewDisposition.monitoring
      (aware 30)
      (codes "e2")
    ≢ ok accepted
second_review_conflicts_example =
    second_review_conflicts (found_by MembershipRole.owner) (codes "rws") (codes "ann") 2
      ReviewDisposition.accepted_risk (aware 15) (codes "e1") accepted owner_accepts refl
      (some (reviewer MembershipRole.owner)) (codes "ann") ReviewDisposition.monitoring (aware 30)
      (codes "e2") accepted

gpl_risk-IsValid : IsValid gpl_risk
unfolding post_init check_resolution require_non_empty strip strip_of lstrip rstrip
gpl_risk-IsValid = (risk_fixed_iff gpl_risk).0 refl

ann-IsNormal : IsNormal (codes "ann") "actor_user_id"
unfolding require_non_empty strip strip_of lstrip rstrip
ann-IsNormal = refl

workspace-IsNormal : IsNormal (codes "rws") "risk_workspace_id"
unfolding require_non_empty strip strip_of lstrip rstrip
workspace-IsNormal = refl

owner_may :
    MayAct
      (codes "ann")
      (codes "rws")
      (reviewer MembershipRole.owner)
      VwsAction.risk_review
      none
      none
owner_may = record {
  member = refl;
  of_workspace = refl;
  active = refl;
  rank = omega arith;
  of_mount = tt;
  credential = tt;
}

unreviewed-live : ReviewDisposition.unreviewed ≢ ReviewDisposition.excluded
unreviewed-live e = ground (arith, e)

accepted-chosen : ReviewDisposition.accepted_risk ≢ ReviewDisposition.excluded
accepted-chosen e = ground (arith, e)

accepted-other : ReviewDisposition.unreviewed ≢ ReviewDisposition.accepted_risk
accepted-other e = ground (arith, e)

review_applies_example :
    (x : RiskReviewResult) × (accept MembershipRole.owner 2 ≡ ok x)
    × (x.risk ≡ reviewed_risk gpl_risk ReviewDisposition.accepted_risk 15)
    × (is_some x.event ≡ true)
review_applies_example =
    review_applies gpl_risk gpl_risk-IsValid ReviewDisposition.accepted_risk unreviewed-live
      accepted-chosen accepted-other 15 (codes "ann") (codes "e1") (reviewer MembershipRole.owner)
      (codes "rws") ann-IsNormal workspace-IsNormal owner_may refl
