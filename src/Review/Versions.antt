-- ===== src/Review/Versions.antt =====
-- What a review does, and that no two reviewers overwrite each other: application/risk_review/service.py.
use ip_risk_agent_v.Base.{
  ◌≡◌, ◌≢◌, arith, ℕ, ◌+◌, true, is_some, Option, some, Text, Datetime, naive, aware, ok,
}
use ip_risk_agent_v.Memberships.{Membership}
use ip_risk_agent_v.Risk.{Risk, ReviewDisposition, post_init, check_resolution}
use ip_risk_agent_v.Risk.Validity.{IsValid, post_init-IsValid}
use ip_risk_agent_v.Review.{
  Found, RiskReviewResult, reviewed_risk, review_found, change_disposition,
}

-- What the constructor leaves as it is.
post_init-same :
    (r s : Risk)
    → post_init r ≡ ok s
    → (s.lifecycle_state ≡ r.lifecycle_state)
      × (s.review_disposition ≡ r.review_disposition)
      × (s.review_version ≡ r.review_version)
unfolding post_init check_resolution
post_init-same r s h = ground arith

-- A review of a risk at a version that was applied.
pub record Reviewed (risk : Risk) (version : ℕ) (d : ReviewDisposition) (updated : Risk)
    : Type 0 where
  pub valid : IsValid updated
  pub lifecycle : updated.lifecycle_state ≡ risk.lifecycle_state
  pub disposition : updated.review_disposition ≡ d
  pub chosen : d ≢ ReviewDisposition.excluded
  pub reviewable : risk.review_disposition ≢ ReviewDisposition.excluded
  pub expected : risk.review_version ≡ version
  pub next_version : updated.review_version ≡ version + 1

review_found-Reviewed :
    (risk : Risk) (v : ℕ) (d : ReviewDisposition) (clock : Datetime) (a id : Text)
    (r : RiskReviewResult)
    → review_found risk v d clock a id ≡ ok r
    → is_some r.event ≡ true
    → Reviewed risk v d r.risk
unfolding review_found
review_found-Reviewed risk v d (naive t) a id r h e = absurd (ground arith)
review_found-Reviewed risk v d (aware t) a id r h e = ground (
  arith,
  post_init-same (reviewed_risk risk d t) r.risk,
  post_init-IsValid (reviewed_risk risk d t) r.risk,
)

-- A call that succeeds found a risk of the workspace.
change_disposition-found :
    (f : Found) (w a : Text) (v : ℕ) (d : ReviewDisposition) (clock : Datetime) (id : Text)
    (r : RiskReviewResult)
    → change_disposition f w a v d clock id ≡ ok r
    → (risk : Risk) × (f.risk ≡ some risk) × (review_found risk v d clock a id ≡ ok r)
unfolding change_disposition
change_disposition-found f w a v d clock id r h = ground arith

-- A review that is applied keeps the risk valid and its lifecycle as it is, gives it the disposition
-- that was chosen, and the next version. It was made at the version that the reviewer had seen; the
-- system's own disposition, EXCLUDED, is neither given nor taken away.
pub change_disposition-Reviewed :
    (f : Found) (w a : Text) (v : ℕ) (d : ReviewDisposition) (clock : Datetime) (id : Text)
    (r : RiskReviewResult)
    → change_disposition f w a v d clock id ≡ ok r
    → is_some r.event ≡ true
    → (risk : Risk) × (f.risk ≡ some risk) × Reviewed risk v d r.risk
change_disposition-Reviewed f w a v d clock id r h e =
    let (risk, q, k) = change_disposition-found f w a v d clock id r h in
    (risk, q, review_found-Reviewed risk v d clock a id r k e)

-- Only the first of two reviewers who saw the same version gets through: after a review was applied,
-- no review by anybody that expects the version before it succeeds.
pub second_review_conflicts :
    (f : Found) (w a : Text) (v : ℕ) (d : ReviewDisposition) (clock : Datetime) (id : Text)
    (r : RiskReviewResult)
    → change_disposition f w a v d clock id ≡ ok r
    → is_some r.event ≡ true
    → (m : Option Membership) (a' : Text) (d' : ReviewDisposition) (later : Datetime) (id' : Text)
      (r' : RiskReviewResult)
    → change_disposition (record f { membership = m; risk = some r.risk }) w a' v d' later id'
      ≢ ok r'
unfolding review_found
second_review_conflicts f w a v d clock id r h e m a' d' later id' r' k =
    let (risk, q, n) = change_disposition-Reviewed f w a v d clock id r h e in
    let (risk', q', k') =
      change_disposition-found (record f { membership = m; risk = some r.risk }) w a' v d' later id'
        r' k in
    ground (arith, n.next_version)
