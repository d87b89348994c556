-- ===== src/Reconcile/Outcomes.antt =====
-- application/risk_reconcile/service.py and application/analysis_jobs/models.py: the outcome that a job
-- keeps of a result.
use ip_risk_agent_v.Base.{
  not, ◌&&◌, Option, none, some, List, [], ◌∷◌, ◌++◌, Text, codes, require_non_empty,
  require_chronological, Outcome, ok, ◌>>=◌, ◌>>◌, raise_if, Error, invariant,
}
use ip_risk_agent_v.Risk.Transitions.{is_succeeded, is_complete}
use ip_risk_agent_v.Execution.ChangeEvents.{optional_non_empty}
use ip_risk_agent_v.Execution.AnalysisJobs.{AnalysisOutcome, ProviderFailureSummary}
use ip_risk_agent_v.Reconcile.{Library, AnalysisResult, ProviderFailure}
use ip_risk_agent_v.Reconcile.Retention.{EvidenceRetentionPolicy, sanitize_failure_message}

-- `AnalysisOutcome.__post_init__`, on instants and summaries.
unfoldable pub outcome_post_init : AnalysisOutcome → Outcome Error AnalysisOutcome
outcome_post_init o = do
  result_fingerprint ← require_non_empty o.result_fingerprint "analysis_outcome.result_fingerprint"
  analyzer_version ← require_non_empty o.analyzer_version "analysis_outcome.analyzer_version"
  require_chronological o.started_at o.completed_at "analysis_outcome.started_at"
      "analysis_outcome.completed_at"
  raise_if (not (is_succeeded o.status) && is_complete o.coverage)
      (invariant "only a SUCCEEDED analysis outcome may have COMPLETE coverage")
  model_id ← optional_non_empty o.model_id "analysis_outcome.model_id"
  prompt_version ← optional_non_empty o.prompt_version "analysis_outcome.prompt_version"
  policy_version ← optional_non_empty o.policy_version "analysis_outcome.policy_version"
  rag_corpus_version ← optional_non_empty o.rag_corpus_version "analysis_outcome.rag_corpus_version"
  ok record o {
    result_fingerprint = result_fingerprint;
    analyzer_version = analyzer_version;
    model_id = model_id;
    prompt_version = prompt_version;
    policy_version = policy_version;
    rag_corpus_version = rag_corpus_version;
  }

-- `_result_fingerprint`, where `payload` is `json.dumps(result.model_dump(mode="json"), ...)`.
unfoldable pub result_fingerprint : Library → (AnalysisResult → Text) → AnalysisResult → Text
result_fingerprint lib payload result = codes "sha256:" ++ lib.sha.hexdigest (payload result)

module _ (lib : Library) (policy : EvidenceRetentionPolicy) where
  -- `_safe_optional`
  unfoldable pub safe_optional : Option Text → Outcome Error (Option Text)
  safe_optional none = ok none
  safe_optional (some value) = do v ← sanitize_failure_message lib policy value; ok (some v)

  unfoldable pub summarise : List ProviderFailure → Outcome Error (List ProviderFailureSummary)
  summarise [] = ok []
  summarise (f ∷ fs) = do
    provider ← sanitize_failure_message lib policy f.provider
    category ← sanitize_failure_message lib policy f.category
    safe_message ← sanitize_failure_message lib policy f.safe_message
    rest ← summarise fs
    ok (
        record {
          provider = provider;
          category = category;
          retryable = f.retryable;
          safe_message = safe_message;
        }
        ∷ rest)

  -- The sanitized categories of the failures.
  unfoldable pub categories_of : List ProviderFailure → Outcome Error (List Text)
  categories_of [] = ok []
  categories_of (f ∷ fs) = do
    c ← sanitize_failure_message lib policy f.category
    cs ← categories_of fs
    ok (c ∷ cs)

  -- `_outcome_from_result`; the provider's failures are read after the analyzer's version.
  unfoldable pub outcome_from_result : AnalysisResult → Text → Outcome Error AnalysisOutcome
  unfolding outcome_post_init safe_optional summarise
  outcome_from_result result fingerprint = do
    analyzer_version ← sanitize_failure_message lib policy result.versions.analyzer_version
    provider_failures ← summarise result.provider_failures
    model_id ← safe_optional result.versions.model_id
    prompt_version ← safe_optional result.versions.prompt_version
    policy_version ← safe_optional result.versions.policy_version
    rag_corpus_version ← safe_optional result.versions.rag_corpus_version
    outcome_post_init record {
      analysis_type = result.analysis_type;
      result_fingerprint = fingerprint;
      status = result.status;
      coverage = result.coverage;
      analyzer_version = analyzer_version;
      started_at = result.started_at;
      completed_at = result.completed_at;
      provider_failures = provider_failures;
      model_id = model_id;
      prompt_version = prompt_version;
      policy_version = policy_version;
      rag_corpus_version = rag_corpus_version;
    }
