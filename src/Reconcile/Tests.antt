-- ===== src/Reconcile/Tests.antt =====
-- A result for one file: a license that conflicts, beside a risk whose package is gone.
use ip_risk_agent_v.Base.{
  false, ◌≡◌, inl, inr, refl, arith, true, Bool-cases, none, some, List, [], ◌∷◌, codes, text_eq,
  get_item, set_item, sorted, insert, lower, upper, require_non_empty, strip, strip_of, lstrip,
  rstrip, Outcome, Error, subst,
}
use ip_risk_agent_v.Exec.{◌>>=◌}
use ip_risk_agent_v.Contracts.{
  AnalysisType, AnalysisStatus, AnalysisCoverage, ReviewPriority, LicensePolicyOutcome,
}
use ip_risk_agent_v.Risk.{Risk, RiskLifecycleState, ReviewDisposition, post_init, check_resolution}
use ip_risk_agent_v.Risk.Validity.{IsValid, risk_fixed_iff}
use ip_risk_agent_v.Risk.Transitions.{analysis_can_record}
use ip_risk_agent_v.Risk.Metadata.{JsonMap}
use ip_risk_agent_v.Repositories.{ControlState}
use ip_risk_agent_v.Repositories.Risks.{put, get_by_key}
use ip_risk_agent_v.Repositories.Risks.Consistency.{
  IsConsistent, IsFree, put-IsConsistent, get_by_key-put,
}
use ip_risk_agent_v.Reconcile.{Evidence, Candidate, AnalysisResult}
use ip_risk_agent_v.Reconcile.Examples.{library, nothing, spell, value_or, is_ok, is_ok-value_or}
use ip_risk_agent_v.Reconcile.Retention.{default_policy}
use ip_risk_agent_v.Reconcile.Projections.{CandidateProjection, candidate_projections}
use ip_risk_agent_v.Reconcile.Loop.{Observed, observe, reconcile}
use ip_risk_agent_v.Reconcile.Recording.{Recorded, record_risk}
use ip_risk_agent_v.Reconcile.Refinement.{Reconciled, reconcile_refines}
use ip_risk_agent_v.Reconcile.Closable.{AllValid}

abbrev gone : Risk
gone = record {
  id = codes "r1";
  risk_workspace_id = codes "w";
  artifact_id = codes "f";
  analysis_type = AnalysisType.license;
  risk_key = codes "k1";
  lifecycle_state = RiskLifecycleState.new;
  review_disposition = ReviewDisposition.unreviewed;
  review_priority = ReviewPriority.medium;
  summary = codes "old";
  first_seen_at = 1;
  last_seen_at = 2;
  latest_analysis_job_id = codes "j0";
  updated_at = 2;
  resolved_at = none;
  latest_evidence_revision = none;
  review_version = 0;
  explanation_safe = none;
  recommendation_safe = none;
}

abbrev before : ControlState
before = put gone nothing

abbrev conflict : AnalysisResult
conflict = record {
  analysis_job_id = codes "j1";
  artifact_id = codes "f";
  revision = codes "v2";
  analysis_type = AnalysisType.license;
  status = AnalysisStatus.succeeded;
  coverage = AnalysisCoverage.complete;
  candidates =
      Candidate.license record {
        ecosystem = codes "npm";
        normalized_package_name = codes "left-pad";
        resolved_version = some (codes "1");
        normalized_license_expression = codes "agpl-3.0";
        policy_outcome = LicensePolicyOutcome.policy_conflict;
        evidence_ids = codes "e" ∷ [];
      }
      ∷ [];
  evidence =
      record {
        evidence_id = codes "e";
        evidence_type = codes "LICENSE_TEXT";
        excerpt = codes "text";
        reference = codes "package.json";
        metadata_safe = JsonMap.empty;
      }
      ∷ [];
  provider_failures = [];
  versions = record {
    analyzer_version = codes "1";
    model_id = none;
    prompt_version = none;
    policy_version = none;
    rag_corpus_version = none;
  };
  started_at = 3;
  completed_at = 4;
}

abbrev projected : List CandidateProjection
projected = value_or [] (candidate_projections library default_policy conflict)

abbrev run : Outcome Error ((List Observed × List Risk) × ControlState)
run = reconcile library default_policy conflict (codes "fp") (codes "w") 5 (codes "ann") before

abbrev returned : (List Observed × List Risk) × ControlState
returned = value_or (([], []), before) run

projected-is_ok : is_ok (candidate_projections library default_policy conflict) ≡ true
unfolding candidate_projections ip_risk_agent_v.Reconcile.Projections.project_all
    ip_risk_agent_v.Reconcile.Projections.project
    ip_risk_agent_v.Reconcile.Projections.normalized_token lower strip upper
    ip_risk_agent_v.Reconcile.Projections.split_words ip_risk_agent_v.Identity.license_risk_key
    ip_risk_agent_v.Identity.stable_key require_non_empty
    ip_risk_agent_v.Reconcile.Retention.sanitize_summary
projected-is_ok = refl

run-is_ok : is_ok run ≡ true
unfolding reconcile ◌>>=◌ candidate_projections ip_risk_agent_v.Reconcile.Projections.project_all
    ip_risk_agent_v.Reconcile.Projections.project
    ip_risk_agent_v.Reconcile.Projections.normalized_token lower strip upper
    ip_risk_agent_v.Reconcile.Projections.split_words ip_risk_agent_v.Identity.license_risk_key
    ip_risk_agent_v.Identity.stable_key require_non_empty
    ip_risk_agent_v.Reconcile.Retention.sanitize_summary
    ip_risk_agent_v.Repositories.Risks.list_for_artifact sorted set_item get_item get_by_key text_eq
    ip_risk_agent_v.Repositories.Risks.add ip_risk_agent_v.Repositories.Risks.save
    ip_risk_agent_v.Reconcile.Loop.observe ip_risk_agent_v.Reconcile.Recording.record_risk
    ip_risk_agent_v.Identity.risk_id_for ip_risk_agent_v.Risk.post_init insert spell
    ip_risk_agent_v.Identity.Json.dumps ip_risk_agent_v.Identity.Json.write_string
    ip_risk_agent_v.Identity.Json.write_char ip_risk_agent_v.Identity.Json.write_strings
    ip_risk_agent_v.Reconcile.EvidenceWrites.replace_evidence
    ip_risk_agent_v.Repositories.Risks.clear_evidence
    ip_risk_agent_v.Reconcile.EvidenceWrites.write_evidence
    ip_risk_agent_v.Reconcile.Projections.without_repeats
    ip_risk_agent_v.Reconcile.EvidenceWrites.write_one
    ip_risk_agent_v.Reconcile.EvidenceWrites.evidence_by_id
    ip_risk_agent_v.Identity.risk_evidence_id_for
    ip_risk_agent_v.Reconcile.Retention.sanitize_reference
    ip_risk_agent_v.Reconcile.Retention.Metadata.sanitize_metadata
    ip_risk_agent_v.Reconcile.EvidenceWrites.with_quote_span
    ip_risk_agent_v.Risk.Metadata.from_entries ip_risk_agent_v.Risk.Evidence.post_init
    ip_risk_agent_v.Repositories.Risks.add_evidence
    ip_risk_agent_v.Risk.Transitions.decide_lifecycle ip_risk_agent_v.Reconcile.History.risk_event
    ip_risk_agent_v.Identity.risk_event_id_for ip_risk_agent_v.Risk.Events.post_init
    ip_risk_agent_v.Repositories.Risks.list_events ip_risk_agent_v.Repositories.Risks.append_event
    ip_risk_agent_v.Reconcile.Notices.attention_notification ip_risk_agent_v.Notifications.post_init
    ip_risk_agent_v.Repositories.Notifications.get ip_risk_agent_v.Repositories.Notifications.add
    ip_risk_agent_v.Risk.Transitions.absence_can_resolve
    ip_risk_agent_v.Reconcile.Loop.append_closed
run-is_ok = refl

nothing-IsConsistent : IsConsistent nothing
unfolding get_item
nothing-IsConsistent = record {
  by_key = λ k i h. absurd (ground (arith, h));
  by_id = λ i r h. absurd (ground (arith, h));
  dict = tt;
}

gone-IsFree : IsFree gone nothing
unfolding get_item
gone-IsFree = record {
  owner = λ i h. absurd (ground (arith, h));
  same = λ r h. absurd (ground (arith, h));
}

before-IsConsistent : IsConsistent before
before-IsConsistent = put-IsConsistent gone nothing nothing-IsConsistent gone-IsFree

gone-IsValid : IsValid gone
unfolding post_init check_resolution require_non_empty strip strip_of lstrip rstrip
gone-IsValid = (risk_fixed_iff gone).0 refl

before-AllValid : AllValid before
unfolding get_by_key get_item
before-AllValid k r h = elim (Bool-cases (text_eq gone.risk_key k)) [
  | inl t ↦
      subst IsValid
        (ground (arith, h, t, get_by_key-put gone nothing nothing-IsConsistent gone-IsFree k))
        gone-IsValid
  | inr n ↦
      absurd (ground (arith, h, n, get_by_key-put gone nothing nothing-IsConsistent gone-IsFree k))
]

records : analysis_can_record conflict.status conflict.coverage ≡ true
unfolding analysis_can_record
records = refl

reconcile_refines_example : Reconciled conflict projected before returned.1
reconcile_refines_example =
    reconcile_refines library default_policy conflict (codes "fp") (codes "w") 5 (codes "ann")
      before returned.1 projected returned.0 before-IsConsistent before-AllValid records
      (is_ok-value_or [] (candidate_projections library default_policy conflict) projected-is_ok)
      (is_ok-value_or (([], []), before) run run-is_ok)

abbrev excluded : Risk
excluded = record gone {
  lifecycle_state = RiskLifecycleState.resolved;
  review_disposition = ReviewDisposition.excluded;
  resolved_at = some 2;
}

abbrev seen_candidate : CandidateProjection
seen_candidate = record {
  risk_key = codes "k1";
  priority = ReviewPriority.high;
  summary = codes "npm:left-pad";
  evidence_ids = [];
  quote_spans = [];
}

abbrev again : Outcome Error (Observed × ControlState)
again =
    observe library default_policy conflict (codes "fp") (codes "w") 5 (codes "ann") seen_candidate
      (some excluded) (put excluded nothing)

abbrev unseen : Observed × ControlState
unseen = (record { risk = gone; attention = false; evidence_count = 0 }, nothing)

abbrev counted : Risk
counted = record gone { lifecycle_state = RiskLifecycleState.resolved; resolved_at = some 2 }

abbrev reopening : Outcome Error (Observed × ControlState)
reopening =
    observe library default_policy conflict (codes "fp") (codes "w") 5 (codes "ann") seen_candidate
      (some counted) (put counted nothing)
