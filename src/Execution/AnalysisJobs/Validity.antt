-- ===== src/Execution/AnalysisJobs/Validity.antt =====
-- What `AnalysisJob.__post_init__` asks for.
use ip_risk_agent_v.Base.{
  ◌↔◌, subst, ◌∙◌, require_non_empty-cases, Outcome-cases, inl, inr, ◌≡◌, refl, arith, ◌≤◌, true,
  false, not, ◌||◌, any, Option, none, some, Text, Instant, IsNormal, ok,
}
use ip_risk_agent_v.Execution.ChangeEvents.Validity.{
  NormalOrAbsent, optional_non_empty-cases, optional_non_empty-accepts,
}
use ip_risk_agent_v.Execution.AnalysisJobs.{
  AnalysisJob, AnalysisJobStatus, check_outcomes, check_status, name_fields, check_fields,
  post_init, is_empty, unique, covers_requested, is_authoritative,
}

-- The attempt's times in order: created, started, completed.
abbrev pub TimesInOrder : Instant → Option Instant → Option Instant → Type 0
TimesInOrder created none none = Unit
TimesInOrder created none (some completed) = created ≤ completed
TimesInOrder created (some started) none = created ≤ started
TimesInOrder created (some started) (some completed) = (created ≤ started) × (started ≤ completed)

-- Outcomes are none at all, or one for each requested type.
abbrev pub Accounted : AnalysisJob → Type 0
Accounted j =
    is_empty j.analysis_outcomes || covers_requested j.analysis_outcomes j.requested_analysis_types
    ≡ true

abbrev pub StatusFits :
    AnalysisJob → AnalysisJobStatus → Option Instant → Option Instant → Option Text → Type 0
StatusFits j AnalysisJobStatus.queued none none none = is_empty j.analysis_outcomes ≡ true
StatusFits j AnalysisJobStatus.running (some s) none none = Unit
StatusFits j AnalysisJobStatus.failed (some s) (some c) (some f) = Accounted j
StatusFits j AnalysisJobStatus.succeeded (some s) (some c) none =
    Accounted j × (any (λ o. not (is_authoritative o.1)) j.analysis_outcomes ≡ false)
StatusFits j AnalysisJobStatus.inconclusive (some s) (some c) f = Accounted j
StatusFits j _ _ _ _ = ⊥

pub record IsValid (j : AnalysisJob) : Type 0 where
  pub id : IsNormal j.id "analysis_job.id"
  pub change_event_id : IsNormal j.change_event_id "analysis_job.change_event_id"
  pub artifact_id : IsNormal j.artifact_id "analysis_job.artifact_id"
  pub revision : IsNormal j.revision "analysis_job.revision"
  pub some_type : is_empty j.requested_analysis_types ≡ false
  pub unique_types : unique j.requested_analysis_types ≡ true
  pub times : TimesInOrder j.created_at j.started_at j.completed_at
  pub failure : NormalOrAbsent j.failure_safe "analysis_job.failure_safe"
  pub outcomes : check_outcomes j.analysis_outcomes j.requested_analysis_types ≡ ok tt
  pub fits : StatusFits j j.status j.started_at j.completed_at j.failure_safe

check_status-accepts :
    (j : AnalysisJob) (s : AnalysisJobStatus)
    → j.status ≡ s
    → StatusFits j s j.started_at j.completed_at j.failure_safe
    → check_status j s ≡ ok j
unfolding check_status
check_status-accepts j AnalysisJobStatus.queued e h = ground arith
check_status-accepts j AnalysisJobStatus.running e h = ground arith
check_status-accepts j AnalysisJobStatus.succeeded e h = ground arith
check_status-accepts j AnalysisJobStatus.failed e h = ground arith
check_status-accepts j AnalysisJobStatus.inconclusive e h = ground arith

-- A valid job passes the constructor's checks unchanged.
pub post_init-accepts : (j : AnalysisJob) → IsValid j → post_init j ≡ ok j
unfolding post_init
post_init-accepts j v = ground (
  arith,
  optional_non_empty-accepts j.failure_safe "analysis_job.failure_safe" v.failure,
  check_status-accepts j j.status refl v.fits,
)

check_status-fits :
    (j j' : AnalysisJob) (s : AnalysisJobStatus)
    → j.status ≡ s
    → check_status j s ≡ ok j'
    → (j ≡ j') × StatusFits j s j.started_at j.completed_at j.failure_safe
unfolding check_status
check_status-fits j j' AnalysisJobStatus.queued e h = ground arith
check_status-fits j j' AnalysisJobStatus.running e h = ground arith
check_status-fits j j' AnalysisJobStatus.succeeded e h = ground arith
check_status-fits j j' AnalysisJobStatus.failed e h = ground arith
check_status-fits j j' AnalysisJobStatus.inconclusive e h = ground arith

pub record IsNamed (j : AnalysisJob) : Type 0 where
  pub id : IsNormal j.id "analysis_job.id"
  pub change_event_id : IsNormal j.change_event_id "analysis_job.change_event_id"
  pub artifact_id : IsNormal j.artifact_id "analysis_job.artifact_id"
  pub revision : IsNormal j.revision "analysis_job.revision"

name_fields-status : (c j : AnalysisJob) → name_fields c ≡ ok j → j.status ≡ c.status
unfolding name_fields
name_fields-status c j h = ground arith

name_fields-IsNamed : (c j : AnalysisJob) → name_fields c ≡ ok j → IsNamed j
unfolding name_fields
name_fields-IsNamed c j h = ground (
  arith,
  require_non_empty-cases c.id "analysis_job.id",
  require_non_empty-cases c.change_event_id "analysis_job.change_event_id",
  require_non_empty-cases c.artifact_id "analysis_job.artifact_id",
  require_non_empty-cases c.revision "analysis_job.revision",
)

-- What `check_fields` has checked of `c`, where `j` is what it returns.
pub record IsChecked (c j : AnalysisJob) (f : Option Text) : Type 0 where
  pub some_type : is_empty c.requested_analysis_types ≡ false
  pub unique_types : unique c.requested_analysis_types ≡ true
  pub times : TimesInOrder c.created_at c.started_at c.completed_at
  pub failure : NormalOrAbsent f "analysis_job.failure_safe"
  pub outcomes : check_outcomes c.analysis_outcomes c.requested_analysis_types ≡ ok tt
  pub status : check_status (record c { failure_safe = f }) c.status ≡ ok j

pub check_fields-IsChecked :
    (c j : AnalysisJob) → check_fields c ≡ ok j → (f : Option Text) × IsChecked c j f
unfolding check_fields
check_fields-IsChecked c j h =
    ground (arith, optional_non_empty-cases c.failure_safe "analysis_job.failure_safe")

check_fields-IsValid :
    (c j : AnalysisJob) → IsNamed c → check_fields c ≡ ok j → IsValid j × (j.status ≡ c.status)
check_fields-IsValid c j n h =
    let (f, k) = check_fields-IsChecked c j h in
    let d : AnalysisJob = record c { failure_safe = f } in
    let (q, fits) = check_status-fits d j c.status refl k.status in
    let v : IsValid d = record {
      id = n.id;
      change_event_id = n.change_event_id;
      artifact_id = n.artifact_id;
      revision = n.revision;
      some_type = k.some_type;
      unique_types = k.unique_types;
      times = k.times;
      failure = k.failure;
      outcomes = k.outcomes;
      fits = fits;
    } in
    (subst IsValid q v, subst (λ k. k.status ≡ c.status) q refl)

-- What the constructor returns is valid, whatever it is given.
pub post_init-IsValid : (c j : AnalysisJob) → post_init c ≡ ok j → IsValid j × (j.status ≡ c.status)
unfolding post_init
post_init-IsValid c j h = elim (Outcome-cases (name_fields c)) [
  | inl (d, q) ↦
      let (v, same) = check_fields-IsValid d j (name_fields-IsNamed c d q) (rw q at h) in
      (v, same ∙ name_fields-status c d q)
  | inr (x, q) ↦ absurd (ground arith)
]

-- Valid jobs are those that the constructor returns unchanged.
pub job_fixed : (c : AnalysisJob) → (post_init c ≡ ok c) ↔ IsValid c
job_fixed c = (λ h. (post_init-IsValid c c h).0, post_init-accepts c)
