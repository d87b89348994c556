-- ===== src/Risk/Tests.antt =====
-- Runs of the risk transitions, and the properties at concrete risks.
use ip_risk_agent_v.Base.{
  require_non_empty, strip, strip_of, lstrip, rstrip, ◌≡◌, ◌≢◌, ◌↔◌, refl, arith, inl, true, false,
  none, some, [], ◌∷◌, Text, codes, ok,
}
use ip_risk_agent_v.Contracts.{AnalysisType, AnalysisStatus, AnalysisCoverage, ReviewPriority}
use ip_risk_agent_v.Risk.{check_resolution, Risk, RiskLifecycleState, ReviewDisposition, post_init}
use ip_risk_agent_v.Risk.Validity.{IsValid, risk_fixed_iff}
use ip_risk_agent_v.Risk.Transitions.{decide_lifecycle, analysis_is_authoritative}
use ip_risk_agent_v.Risk.Lifecycle.{
  Observation, run, IsActive, IsPartial, run_partial_IsActive, seen_IsActive,
}
use ip_risk_agent_v.Risk.Exclusion.{exclude_risk, revive_risk}
use ip_risk_agent_v.Risk.Exclusion.Updates.{Revived, excluded_pair}
use ip_risk_agent_v.Risk.Exclusion.Restoring.{revive-exclude, revive-exclude_changed}
use ip_risk_agent_v.Risk.Attribution.{VerdictFingerprint, ChangeCause, attribute_change}
use ip_risk_agent_v.Risk.Causes.{IsUnmoved, external_fact_iff}

abbrev seen_fully : Observation
seen_fully = record {
  candidate_present = true;
  status = AnalysisStatus.succeeded;
  coverage = AnalysisCoverage.complete;
}

abbrev gone_fully : Observation
gone_fully = record {
  candidate_present = false;
  status = AnalysisStatus.succeeded;
  coverage = AnalysisCoverage.complete;
}

abbrev gone_partly : Observation
gone_partly = record {
  candidate_present = false;
  status = AnalysisStatus.succeeded;
  coverage = AnalysisCoverage.partial;
}

gone_partly-IsPartial : IsPartial gone_partly
unfolding analysis_is_authoritative
gone_partly-IsPartial = refl

partial_ne_none : AnalysisCoverage.partial ≢ AnalysisCoverage.none
partial_ne_none e = ground (arith, e)

run_partial_IsActive_example :
    IsActive (run (some RiskLifecycleState.new) (gone_partly ∷ gone_partly ∷ []))
run_partial_IsActive_example =
    run_partial_IsActive (some RiskLifecycleState.new) (gone_partly ∷ gone_partly ∷ []) (inl refl)
      (gone_partly-IsPartial, (gone_partly-IsPartial, tt))

new_risk_again :
    IsActive
      (decide_lifecycle
        (some RiskLifecycleState.resolved)
        true
        AnalysisStatus.succeeded
        AnalysisCoverage.partial).next_state
new_risk_again =
    seen_IsActive (some RiskLifecycleState.resolved) AnalysisCoverage.partial partial_ne_none

abbrev sample : Risk
sample = record {
  id = codes "risk-1";
  risk_workspace_id = codes "rws";
  artifact_id = codes "art";
  analysis_type = AnalysisType.license;
  risk_key = codes "license:1";
  lifecycle_state = RiskLifecycleState.existing;
  review_disposition = ReviewDisposition.accepted_risk;
  review_priority = ReviewPriority.high;
  summary = codes "GPL";
  latest_analysis_job_id = codes "job-1";
  first_seen_at = 10;
  last_seen_at = 20;
  updated_at = 20;
  resolved_at = none;
  latest_evidence_revision = some (codes "r1");
  review_version = 3;
  explanation_safe = none;
  recommendation_safe = none;
}

sample-IsValid : IsValid sample
unfolding post_init check_resolution require_non_empty strip strip_of lstrip rstrip
sample-IsValid = (risk_fixed_iff sample).0 refl

risk_fixed_iff_example : (post_init sample ≡ ok sample) ↔ IsValid sample
risk_fixed_iff_example = risk_fixed_iff sample

sample_live : sample.review_disposition ≢ ReviewDisposition.excluded
sample_live e = ground (arith, e)

other_revision : sample.latest_evidence_revision ≢ some (codes "r2")
other_revision e = ground (arith, e)

revive-exclude_example :
    let (s, x) = excluded_pair sample 30 (codes "ARTIFACT_REMOVED") (codes "e1") in
    (exclude_risk sample 30 (codes "ARTIFACT_REMOVED") (codes "e1") ≡ ok (some (s, x)))
    × Revived
        (revive_risk (x ∷ []) s s.artifact_id (some (codes "r1")) 40 (codes "BACK") (codes "e2"))
        ReviewDisposition.accepted_risk
        5
revive-exclude_example =
    revive-exclude sample sample-IsValid sample_live 30 40 (codes "ARTIFACT_REMOVED") (codes "e1")
      (codes "BACK") (codes "e2") [] [] (codes "r1") refl tt

revive-exclude_changed_example :
    let (s, x) = excluded_pair sample 30 (codes "ARTIFACT_REMOVED") (codes "e1") in
    (exclude_risk sample 30 (codes "ARTIFACT_REMOVED") (codes "e1") ≡ ok (some (s, x)))
    × Revived
        (revive_risk (x ∷ []) s s.artifact_id (some (codes "r2")) 40 (codes "BACK") (codes "e2"))
        ReviewDisposition.unreviewed
        5
revive-exclude_changed_example =
    revive-exclude_changed sample sample-IsValid sample_live 30 40 (codes "ARTIFACT_REMOVED")
      (codes "e1") (codes "BACK") (codes "e2") [] [] (some (codes "r2")) other_revision

abbrev verdict_with : Text → VerdictFingerprint
verdict_with policy = record {
  analysis_input_checksum = some (codes "c1");
  policy_version = some policy;
  rag_corpus_version = none;
  model_id = none;
  prompt_version = none;
  result_fingerprint = none;
}

external_fact_iff_example :
    ((attribute_change
        (some (verdict_with (codes "w:t:a")))
        (some (verdict_with (codes "w:t:a")))).cause
      ≡ ChangeCause.external_fact)
    ↔ IsUnmoved (verdict_with (codes "w:t:a")) (verdict_with (codes "w:t:a"))
external_fact_iff_example =
    external_fact_iff (verdict_with (codes "w:t:a")) (verdict_with (codes "w:t:a"))
