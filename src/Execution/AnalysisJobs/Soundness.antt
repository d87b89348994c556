-- ===== src/Execution/AnalysisJobs/Soundness.antt =====
-- What a job must be, apart from how the constructor tests it: application/analysis_jobs/models.py,
-- `AnalysisJob.__post_init__`.
use ip_risk_agent_v.Base.{
  ◌≡◌, ◌≢◌, ◌↔◌, ◌⊎◌, inl, inr, refl, arith, true, false, not, all, any, All, Bool-cases, Option,
  none, some, List, [], ◌∷◌, Text, Instant, ok,
}
use ip_risk_agent_v.Contracts.{AnalysisType, AnalysisStatus, AnalysisCoverage, same_analysis}
use ip_risk_agent_v.Execution.ChangeEvents.Validity.{NormalOrAbsent}
use ip_risk_agent_v.Execution.AnalysisJobs.{
  AnalysisJob, AnalysisJobStatus, AnalysisOutcome, check_outcomes, post_init, is_empty, requested,
  unique, is_authoritative,
}
use ip_risk_agent_v.Execution.AnalysisJobs.Validity.{
  TimesInOrder, Accounted, StatusFits, IsValid, IsNamed, job_fixed,
}

-- The type is in the list.
abbrev pub Among : AnalysisType → List AnalysisType → Type 0
Among t [] = ⊥
Among t (x ∷ types) = (t ≡ x) ⊎ Among t types

-- No type is in the list twice.
abbrev pub Distinct : List AnalysisType → Type 0
Distinct [] = Unit
Distinct (t ∷ types) = (¬ Among t types) × Distinct types

-- There is an outcome under the type.
abbrev pub Answered : AnalysisType → List (AnalysisType × AnalysisOutcome) → Type 0
Answered t [] = ⊥
Answered t (o ∷ outcomes) = (t ≡ o.0) ⊎ Answered t outcomes

-- There are no outcomes at all, or there is one for each requested type.
abbrev pub IsComplete : AnalysisJob → Type 0
IsComplete j =
    (j.analysis_outcomes ≡ [])
    ⊎ All (λ t. Answered t j.analysis_outcomes) j.requested_analysis_types

-- An outcome that saw all of the file.
abbrev pub IsWhole : AnalysisType × AnalysisOutcome → Type 0
IsWhole o = (o.1.status ≡ AnalysisStatus.succeeded) × (o.1.coverage ≡ AnalysisCoverage.complete)

-- Which times, outcomes and reason go with each status.
abbrev pub StatusSound :
    AnalysisJob → AnalysisJobStatus → Option Instant → Option Instant → Option Text → Type 0
StatusSound j AnalysisJobStatus.queued none none none = j.analysis_outcomes ≡ []
StatusSound j AnalysisJobStatus.running (some s) none none = Unit
StatusSound j AnalysisJobStatus.failed (some s) (some c) (some f) = IsComplete j
StatusSound j AnalysisJobStatus.succeeded (some s) (some c) none =
    IsComplete j × All IsWhole j.analysis_outcomes
StatusSound j AnalysisJobStatus.inconclusive (some s) (some c) f = IsComplete j
StatusSound j _ _ _ _ = ⊥

-- An outcome stands under its own type, which is one that was requested.
abbrev pub IsFiled : List AnalysisType → AnalysisType × AnalysisOutcome → Type 0
IsFiled types o = (o.1.analysis_type ≡ o.0) × Among o.0 types

pub record IsSound (j : AnalysisJob) : Type 0 where
  pub named : IsNamed j
  pub some_type : j.requested_analysis_types ≢ []
  pub unique_types : Distinct j.requested_analysis_types
  pub times : TimesInOrder j.created_at j.started_at j.completed_at
  pub failure : NormalOrAbsent j.failure_safe "analysis_job.failure_safe"
  pub outcomes : All (IsFiled j.requested_analysis_types) j.analysis_outcomes
  pub fits : StatusSound j j.status j.started_at j.completed_at j.failure_safe

same_analysis_iff : (a b : AnalysisType) → (same_analysis a b ≡ true) ↔ (a ≡ b)
same_analysis_iff a b = ground arith

requested_iff :
    (t : AnalysisType) (types : List AnalysisType) → (requested t types ≡ true) ↔ Among t types
requested_iff t [] = ground arith
requested_iff t (x ∷ types) = ground (arith, same_analysis_iff t x, requested_iff t types)

unique_iff : (types : List AnalysisType) → (unique types ≡ true) ↔ Distinct types
unique_iff [] = ground arith
unique_iff (t ∷ types) = ground (arith, requested_iff t types, unique_iff types)

Answered-iff :
    (t : AnalysisType) (outcomes : List (AnalysisType × AnalysisOutcome))
    → (any (λ o. same_analysis t o.0) outcomes ≡ true) ↔ Answered t outcomes
Answered-iff t [] = ground arith
Answered-iff t (o ∷ outcomes) = ground (arith, same_analysis_iff t o.0, Answered-iff t outcomes)

pub Answered-all_iff :
    (outcomes : List (AnalysisType × AnalysisOutcome)) (types : List AnalysisType)
    → (all (λ t. any (λ o. same_analysis t o.0) outcomes) types ≡ true)
      ↔ All (λ t. Answered t outcomes) types
Answered-all_iff outcomes [] = ground arith
Answered-all_iff outcomes (t ∷ types) =
    ground (arith, Answered-iff t outcomes, Answered-all_iff outcomes types)

check_outcomes_iff :
    (outcomes : List (AnalysisType × AnalysisOutcome)) (types : List AnalysisType)
    → (check_outcomes outcomes types ≡ ok tt) ↔ All (IsFiled types) outcomes
unfolding check_outcomes
check_outcomes_iff [] types = ground arith
check_outcomes_iff ((t, o) ∷ outcomes) types = ground (
  arith,
  same_analysis_iff o.analysis_type t,
  requested_iff t types,
  check_outcomes_iff outcomes types,
)

filed-requested :
    (outcomes : List (AnalysisType × AnalysisOutcome)) (types : List AnalysisType)
    → All (IsFiled types) outcomes
    → all (λ o. requested o.0 types) outcomes ≡ true
filed-requested [] types h = refl
filed-requested (o ∷ outcomes) types h =
    ground (arith, h.0, requested_iff o.0 types, filed-requested outcomes types h.1)

pub is_empty_iff : {A : Type 0} (xs : List A) → (is_empty xs ≡ true) ↔ (xs ≡ [])
is_empty_iff [] = ground arith
is_empty_iff (x ∷ xs) = ground arith

IsWhole-iff :
    (outcomes : List (AnalysisType × AnalysisOutcome))
    → (any (λ o. not (is_authoritative o.1)) outcomes ≡ false) ↔ All IsWhole outcomes
IsWhole-iff [] = ground arith
IsWhole-iff (o ∷ outcomes) = ground (arith, IsWhole-iff outcomes)

module _ (j : AnalysisJob)
    (filed : All (IsFiled j.requested_analysis_types) j.analysis_outcomes) where
  Accounted-iff : Accounted j ↔ IsComplete j
  Accounted-iff = ground (
    arith,
    is_empty_iff j.analysis_outcomes,
    filed-requested j.analysis_outcomes j.requested_analysis_types filed,
    Answered-all_iff j.analysis_outcomes j.requested_analysis_types,
  )

  fits_iff :
      (s : AnalysisJobStatus) (a c : Option Instant) (f : Option Text)
      → StatusFits j s a c f ↔ StatusSound j s a c f
  fits_iff s a c f =
      ground
        (arith, Accounted-iff, IsWhole-iff j.analysis_outcomes, is_empty_iff j.analysis_outcomes)

IsValid-IsSound : (j : AnalysisJob) → IsValid j → IsSound j
IsValid-IsSound j v =
    let filed = (check_outcomes_iff j.analysis_outcomes j.requested_analysis_types).0 v.outcomes in
    record {
      named = record {
        id = v.id;
        change_event_id = v.change_event_id;
        artifact_id = v.artifact_id;
        revision = v.revision;
      };
      some_type = λ e. ground (arith, v.some_type, is_empty_iff j.requested_analysis_types, e);
      unique_types = (unique_iff j.requested_analysis_types).0 v.unique_types;
      times = v.times;
      failure = v.failure;
      outcomes = filed;
      fits = (fits_iff j filed j.status j.started_at j.completed_at j.failure_safe).0 v.fits;
    }

IsSound-IsValid : (j : AnalysisJob) → IsSound j → IsValid j
IsSound-IsValid j v = record {
  id = v.named.id;
  change_event_id = v.named.change_event_id;
  artifact_id = v.named.artifact_id;
  revision = v.named.revision;
  some_type = elim (Bool-cases (is_empty j.requested_analysis_types)) [
    | inl e ↦ absurd (v.some_type ((is_empty_iff j.requested_analysis_types).0 e))
    | inr e ↦ e
  ];
  unique_types = (unique_iff j.requested_analysis_types).1 v.unique_types;
  times = v.times;
  failure = v.failure;
  outcomes = (check_outcomes_iff j.analysis_outcomes j.requested_analysis_types).1 v.outcomes;
  fits = (fits_iff j v.outcomes j.status j.started_at j.completed_at j.failure_safe).1 v.fits;
}

-- The constructor lets a job through as it is exactly when its names are normal, the requested types
-- are some and distinct, the times are in order, the reason is absent or normal, every outcome stands
-- under its own type and that was requested, and the rest goes with the status. A queued job has no
-- times, outcomes or reason. A running one has only started. An ended one has both times, and no
-- outcomes or one for each requested type; it has a reason if it failed, and if it succeeded it has
-- none and every outcome succeeded with complete coverage.
pub analysis_job_fixed_iff : (c : AnalysisJob) → (post_init c ≡ ok c) ↔ IsSound c
analysis_job_fixed_iff c =
    let h = job_fixed c in (λ e. IsValid-IsSound c (h.0 e), λ v. h.1 (IsSound-IsValid c v))
