-- ===== src/Reconcile/Intake/Kept.antt =====
-- What the steps after an outcome was taken leave of a job: application/risk_reconcile/service.py.
use ip_risk_agent_v.Base.{
  ◌≡◌, refl, ◌∙◌, subst, arith, Bool-cases, inl, inr, Option, none, some, List, [], ◌∷◌, ◌++◌, map,
  Text, text_eq_iff, IsNormal, require_non_empty-cases, get_item, set_item, get_item-set_item,
  Instant, aware, ok, Outcome-cases,
}
use ip_risk_agent_v.Exec.{◌>>=◌}
use ip_risk_agent_v.Contracts.{AnalysisType}
use ip_risk_agent_v.Execution.AnalysisJobs.{
  AnalysisJob, AnalysisJobStatus, AnalysisOutcome, post_init, name_fields, check_fields,
  check_status, complete_analysis_job, completion_failure, covers_requested,
}
use ip_risk_agent_v.Execution.AnalysisJobs.Validity.{check_fields-IsChecked}
use ip_risk_agent_v.Execution.ChangeEvents.Validity.{optional_non_empty-cases}
use ip_risk_agent_v.Execution.ChangeEvents.{ChangeEvent}
use ip_risk_agent_v.Repositories.{ControlState}
use ip_risk_agent_v.Repositories.AnalysisJobs as Jobs
use ip_risk_agent_v.Repositories.ChangeEvents as Events
use ip_risk_agent_v.Reconcile.{Library, AnalysisResult}
use ip_risk_agent_v.Reconcile.Retention.{EvidenceRetentionPolicy, sanitize_failure_message}
use ip_risk_agent_v.Reconcile.Outcomes.{
  outcome_post_init, outcome_from_result, safe_optional, summarise,
}
use ip_risk_agent_v.Reconcile.Aggregation.{aggregate_job, ending_of}

-- The job is still known by its id and has the same outcomes.
pub record IsKept (c j : AnalysisJob) : Type 0 where
  pub id : j.id ≡ c.id
  pub outcomes : j.analysis_outcomes ≡ c.analysis_outcomes

abbrev Named : AnalysisJob → Type 0
Named j = IsNormal j.id "analysis_job.id"

name_fields-IsKept : (c j : AnalysisJob) → Named c → name_fields c ≡ ok j → IsKept c j
unfolding name_fields
name_fields-IsKept c j n h = record { id = ground (arith, h, n); outcomes = ground (arith, h, n) }

check_status-IsKept :
    (c j : AnalysisJob) (status : AnalysisJobStatus) → check_status c status ≡ ok j → IsKept c j
unfolding check_status
check_status-IsKept c j status h = record { id = ground (arith, h); outcomes = ground (arith, h) }

check_fields-IsKept : (c j : AnalysisJob) → check_fields c ≡ ok j → IsKept c j
check_fields-IsKept c j h =
    let (f, k) = check_fields-IsChecked c j h in
    let kept = check_status-IsKept (record c { failure_safe = f }) j c.status k.status in
    record { id = kept.id; outcomes = kept.outcomes }

pub post_init-IsKept : (c j : AnalysisJob) → Named c → post_init c ≡ ok j → IsKept c j
unfolding post_init
post_init-IsKept c j n h = elim (Outcome-cases (name_fields c)) [
  | inl (d, e) ↦
      let named = name_fields-IsKept c d n e in
      let kept = check_fields-IsKept d j (rw e at h) in
      record { id = kept.id ∙ named.id; outcomes = kept.outcomes ∙ named.outcomes }
  | inr (x, e) ↦ absurd (ground (arith, h, e))
]

complete-parts :
    (c j : AnalysisJob) (status : AnalysisJobStatus) (t : Instant) (failure : Option Text)
    → complete_analysis_job c status (aware t) failure ≡ ok j
    → (f : Option Text) × (post_init
          (record c { status = status; completed_at = some t; failure_safe = f })
        ≡ ok j)
unfolding complete_analysis_job
complete-parts c j status t failure h = elim (Outcome-cases (completion_failure status failure)) [
  | inl (f, e) ↦ (f, ground (arith, h, e))
  | inr (x, e) ↦ absurd (ground (arith, h, e))
]

complete-IsKept :
    (c j : AnalysisJob) (status : AnalysisJobStatus) (t : Instant) (failure : Option Text)
    → Named c
    → complete_analysis_job c status (aware t) failure ≡ ok j
    → IsKept c j
complete-IsKept c j status t failure n h =
    let (f, e) = complete-parts c j status t failure h in
    let ended = record c { status = status; completed_at = some t; failure_safe = f } in
    let kept = post_init-IsKept ended j n e in record { id = kept.id; outcomes = kept.outcomes }

pub outcome_for-snoc :
    (os : List (AnalysisType × AnalysisOutcome)) (t : AnalysisType) (o : AnalysisOutcome)
    → Jobs.outcome_for os t ≡ none
    → Jobs.outcome_for (os ++ (t, o) ∷ []) t ≡ some o
unfolding Jobs.outcome_for
outcome_for-snoc [] t o h = ground (arith, h)
outcome_for-snoc ((u, p) ∷ os) t o h = ground (arith, h, outcome_for-snoc os t o)

pub aggregate-IsKept :
    (c j : AnalysisJob) (e d : ChangeEvent) (at : Instant)
    → Named c
    → aggregate_job c e at ≡ ok (j, d)
    → IsKept c j
unfolding aggregate_job
aggregate-IsKept c j e d at n h =
    let os = map (λ item. item.1) c.analysis_outcomes in
    let ending = ending_of os in
    elim (Bool-cases (covers_requested c.analysis_outcomes c.requested_analysis_types)) [
      | inl t ↦
          elim (Outcome-cases
            (complete_analysis_job c ending.status (aware at) ending.failure_safe)) [
              | inl (k, q) ↦
                  let same : k ≡ j = ground (arith, h, t, q) in
                  subst (IsKept c) same
                    (complete-IsKept c k ending.status at ending.failure_safe n q)
              | inr (x, q) ↦ absurd (ground (arith, h, t, q))
            ]
      | inr f ↦
          let same : c ≡ j = ground (arith, h, f) in
          subst (IsKept c) same (record { id = refl; outcomes = refl })
    ]

save_over-writes :
    (p : Option AnalysisJob) (j : AnalysisJob) (s s' : ControlState) (u : Unit {0})
    → Jobs.save_over p j s ≡ ok (u, s')
    → s'.analysis_jobs ≡ set_item j.id j s.analysis_jobs
unfolding Jobs.save_over ◌>>=◌
save_over-writes none j s s' u h = absurd (ground (arith, h))
save_over-writes (some p) j s s' u h = ground (arith, h)

-- What a save that returned has stored.
pub save-get :
    (j : AnalysisJob) (s s' : ControlState) (u : Unit {0})
    → Jobs.save j s ≡ ok (u, s')
    → get_item s'.analysis_jobs j.id ≡ some j
unfolding Jobs.save ◌>>=◌
save-get j s s' u h =
    rw (save_over-writes (get_item s.analysis_jobs j.id) j s s' u h)
      (ground (arith, get_item-set_item j.id j.id j s.analysis_jobs, text_eq_iff j.id j.id))

event_save_over-jobs :
    (p : Option ChangeEvent) (e : ChangeEvent) (s s' : ControlState) (u : Unit {0})
    → Events.save_over p e s ≡ ok (u, s')
    → s'.analysis_jobs ≡ s.analysis_jobs
unfolding Events.save_over ◌>>=◌
event_save_over-jobs none e s s' u h = absurd (ground (arith, h))
event_save_over-jobs (some p) e s s' u h = ground (arith, h)

pub event_save-jobs :
    (e : ChangeEvent) (s s' : ControlState) (u : Unit {0})
    → Events.save e s ≡ ok (u, s')
    → s'.analysis_jobs ≡ s.analysis_jobs
unfolding Events.save ◌>>=◌
event_save-jobs e s s' u h = event_save_over-jobs (get_item s.change_events e.id) e s s' u h

outcome_post_init-fingerprint :
    (c o : AnalysisOutcome)
    → IsNormal c.result_fingerprint "analysis_outcome.result_fingerprint"
    → outcome_post_init c ≡ ok o
    → o.result_fingerprint ≡ c.result_fingerprint
unfolding outcome_post_init
outcome_post_init-fingerprint c o n h = ground (
  arith,
  n,
  require_non_empty-cases c.analyzer_version "analysis_outcome.analyzer_version",
  optional_non_empty-cases c.model_id "analysis_outcome.model_id",
  optional_non_empty-cases c.prompt_version "analysis_outcome.prompt_version",
  optional_non_empty-cases c.policy_version "analysis_outcome.policy_version",
  optional_non_empty-cases c.rag_corpus_version "analysis_outcome.rag_corpus_version",
)

-- The outcome of a result is marked with the fingerprint of the result.
pub outcome_from_result-fingerprint :
    (lib : Library) (policy : EvidenceRetentionPolicy) (result : AnalysisResult)
    (fingerprint : Text) (o : AnalysisOutcome)
    → IsNormal fingerprint "analysis_outcome.result_fingerprint"
    → outcome_from_result lib policy result fingerprint ≡ ok o
    → o.result_fingerprint ≡ fingerprint
unfolding outcome_from_result
outcome_from_result-fingerprint lib policy result fingerprint o n h =
    let v = result.versions in
    elim (Outcome-cases (sanitize_failure_message lib policy v.analyzer_version)) [
      | inr (x, e) ↦ absurd (ground (arith, h, e))
      | inl (a, ea) ↦ elim (Outcome-cases (summarise lib policy result.provider_failures)) [
        | inr (x, e) ↦ absurd (ground (arith, h, ea, e))
        | inl (fs, ef) ↦ elim (Outcome-cases (safe_optional lib policy v.model_id)) [
          | inr (x, e) ↦ absurd (ground (arith, h, ea, ef, e))
          | inl (m, em) ↦ elim (Outcome-cases (safe_optional lib policy v.prompt_version)) [
            | inr (x, e) ↦ absurd (ground (arith, h, ea, ef, em, e))
            | inl (q, eq) ↦ elim (Outcome-cases (safe_optional lib policy v.policy_version)) [
              | inr (x, e) ↦ absurd (ground (arith, h, ea, ef, em, eq, e))
              | inl (w, ew) ↦ elim (Outcome-cases (safe_optional lib policy v.rag_corpus_version)) [
                | inr (x, e) ↦ absurd (ground (arith, h, ea, ef, em, eq, ew, e))
                | inl (z, ez) ↦
                    outcome_post_init-fingerprint _ o n
                      (rw ez at (rw ew at (rw eq at (rw em at (rw ef at (rw ea at h))))))
              ]
            ]
          ]
        ]
      ]
    ]
