-- ===== src/Reconcile/History.antt =====
-- application/risk_reconcile/service.py: the events that go with a risk, and the cause they name.
use ip_risk_agent_v.Base.{
  if◌then◌else◌, Option, none, some, List, [], ◌∷◌, map, Text, codes, text_eq, Instant, Outcome,
  ◌>>=◌, Error,
}
use ip_risk_agent_v.Contracts.{AnalysisType, ReviewPriority}
use ip_risk_agent_v.Identity.{risk_event_id_for}
use ip_risk_agent_v.Risk.{Risk, RiskLifecycleState, RiskEventType}
use ip_risk_agent_v.Risk.Events.{
  SafeValue, SafeMapping, RiskEvent, ActorType, state_value, event_type_value, post_init,
}
use ip_risk_agent_v.Risk.Attribution.{
  CauseAttribution, ChangeCause, Fingerprint, VerdictFingerprint, attribute_change,
}
use ip_risk_agent_v.Execution.AnalysisJobs.{AnalysisJob, AnalysisOutcome}
use ip_risk_agent_v.Repositories.{ControlState}
use ip_risk_agent_v.Repositories.AnalysisJobs.{outcome_for, get}
use ip_risk_agent_v.Reconcile.{Library, AnalysisResult}

abbrev unknown : CauseAttribution
unknown = record { cause = ChangeCause.unknown; moved = [] }

abbrev fingerprint_of : AnalysisJob → Option AnalysisOutcome → Option VerdictFingerprint
fingerprint_of job none = none
fingerprint_of job (some outcome) = some record {
  analysis_input_checksum = job.analysis_input_checksum;
  policy_version = outcome.policy_version;
  rag_corpus_version = outcome.rag_corpus_version;
  model_id = outcome.model_id;
  prompt_version = outcome.prompt_version;
  result_fingerprint = some outcome.result_fingerprint;
}

-- `_stored_fingerprint`
unfoldable pub stored_fingerprint : AnalysisJob → AnalysisType → Option VerdictFingerprint
stored_fingerprint job analysis_type =
    fingerprint_of job (outcome_for job.analysis_outcomes analysis_type)

abbrev pub current_fingerprint : AnalysisJob → AnalysisResult → VerdictFingerprint
current_fingerprint job result = record {
  analysis_input_checksum = job.analysis_input_checksum;
  policy_version = result.versions.policy_version;
  rag_corpus_version = result.versions.rag_corpus_version;
  model_id = result.versions.model_id;
  prompt_version = result.versions.prompt_version;
  result_fingerprint = none;
}

abbrev attribute_jobs : Option AnalysisJob → Option AnalysisJob → AnalysisResult → CauseAttribution
attribute_jobs (some previous_job) (some current_job) result =
    attribute_change (stored_fingerprint previous_job result.analysis_type)
      (some (current_fingerprint current_job result))
attribute_jobs _ _ result = unknown

-- `_attribute`
unfoldable pub attribute : ControlState → Option Text → AnalysisResult → CauseAttribution
unfolding stored_fingerprint
attribute s none result = unknown
attribute s (some previous_job_id) result =
    if text_eq previous_job_id result.analysis_job_id
    then unknown
    else attribute_jobs (get s previous_job_id) (get s result.analysis_job_id) result

abbrev pub cause_value : ChangeCause → Text
cause_value ChangeCause.input = codes "INPUT"
cause_value ChangeCause.our_knowledge = codes "OUR_KNOWLEDGE"
cause_value ChangeCause.user_policy = codes "USER_POLICY"
cause_value ChangeCause.model = codes "MODEL"
cause_value ChangeCause.external_fact = codes "EXTERNAL_FACT"
cause_value ChangeCause.unknown = codes "UNKNOWN"

abbrev pub fingerprint_name : Fingerprint → Text
fingerprint_name Fingerprint.input_checksum = codes "analysis_input_checksum"
fingerprint_name Fingerprint.axes = codes "deployment_axes"
fingerprint_name Fingerprint.table = codes "policy_table_version"
fingerprint_name Fingerprint.corpus = codes "rag_corpus_version"
fingerprint_name Fingerprint.model_name = codes "model_id"
fingerprint_name Fingerprint.prompt = codes "prompt_version"

abbrev moved_state : List Fingerprint → SafeMapping
moved_state [] = []
moved_state (f ∷ fs) =
    (codes "moved_fingerprints", SafeValue.texts (map (λ x. fingerprint_name x) (f ∷ fs))) ∷ []

-- `_cause_state`
abbrev pub cause_state : CauseAttribution → SafeMapping
cause_state a = (codes "change_cause", SafeValue.text (cause_value a.cause)) ∷ moved_state a.moved

abbrev pub priority_value : ReviewPriority → Text
priority_value ReviewPriority.low = codes "LOW"
priority_value ReviewPriority.medium = codes "MEDIUM"
priority_value ReviewPriority.high = codes "HIGH"
priority_value ReviewPriority.indeterminate = codes "INDETERMINATE"

abbrev pub nullable_state : Option RiskLifecycleState → SafeValue
nullable_state none = SafeValue.null
nullable_state (some state) = SafeValue.text (state_value state)

module _ (lib : Library) (result_fingerprint : Text) (analysis_job_id : Text) where
  -- `_risk_event`
  unfoldable pub risk_event :
      Risk
      → RiskEventType
      → Instant
      → Option RiskLifecycleState
      → List Text
      → CauseAttribution
      → Outcome Error RiskEvent
  risk_event risk event_type occurred_at previous_state evidence_refs attribution = do
    id ← risk_event_id_for lib.sha risk.id result_fingerprint (event_type_value event_type)
    post_init record {
      id = id;
      risk_id = risk.id;
      event_type = event_type;
      actor_type = ActorType.system;
      occurred_at = occurred_at;
      actor_user_id = none;
      previous_state_safe = (codes "lifecycle_state", nullable_state previous_state) ∷ [];
      new_state_safe =
          (codes "lifecycle_state", SafeValue.text (state_value risk.lifecycle_state))
          ∷ (codes "review_priority", SafeValue.text (priority_value risk.review_priority))
          ∷ cause_state attribution;
      analysis_job_id = some analysis_job_id;
      evidence_refs = evidence_refs;
      reason_safe = none;
    }

  -- `_priority_event`
  unfoldable pub priority_event :
      Risk → ReviewPriority → Instant → CauseAttribution → Outcome Error RiskEvent
  priority_event risk previous_priority occurred_at attribution = do
    id ←
        risk_event_id_for lib.sha risk.id result_fingerprint
          (event_type_value RiskEventType.priority_changed)
    post_init record {
      id = id;
      risk_id = risk.id;
      event_type = RiskEventType.priority_changed;
      actor_type = ActorType.system;
      occurred_at = occurred_at;
      actor_user_id = none;
      previous_state_safe =
          (codes "review_priority", SafeValue.text (priority_value previous_priority)) ∷ [];
      new_state_safe =
          (codes "review_priority", SafeValue.text (priority_value risk.review_priority))
          ∷ cause_state attribution;
      analysis_job_id = some analysis_job_id;
      evidence_refs = [];
      reason_safe = none;
    }
