-- ===== src/Reconcile/Intake/Once.antt =====
-- A result that was accepted is not accepted again: application/risk_reconcile/service.py.
use ip_risk_agent_v.Base.{
  ◌≡◌, refl, sym, ◌∙◌, ap, subst, arith, Option, none, some, Text, text_eq_iff, IsNormal, get_item,
  Datetime, ok,
}
use ip_risk_agent_v.Exec.{pure, ◌>>◌, ◌>>=◌, >>=-eq-ok}
use ip_risk_agent_v.Exec.Rules.{
  Keeps, Ensures, Gives, Gives-after, Ensures-lift, Ensures-bind, keeps_rules,
}
use ip_risk_agent_v.Execution.ChangeEvents.{ChangeEvent}
use ip_risk_agent_v.Execution.AnalysisJobs.{AnalysisJob, AnalysisOutcome}
use ip_risk_agent_v.Repositories.{ControlState}
use ip_risk_agent_v.Repositories.AnalysisJobs.{outcome_for, get}
use ip_risk_agent_v.Reconcile.{Library, AnalysisResult}
use ip_risk_agent_v.Reconcile.Retention.{EvidenceRetentionPolicy}
use ip_risk_agent_v.Reconcile.Intake.{
  AnalysisResultAcceptance, AnalysisResultDisposition, Context, load_context, validate_result,
  accept_new, accept_known, accept_once, required,
}
use ip_risk_agent_v.Reconcile.Intake.Kept.{
  post_init-IsKept, aggregate-IsKept, outcome_for-snoc, save-get, event_save-jobs,
  outcome_from_result-fingerprint,
}

-- Every stored job stands under its id, as its constructor leaves it.
abbrev pub JobsStored : ControlState → Type 0
JobsStored s =
    (id : Text) (job : AnalysisJob)
    → get s id ≡ some job
    → (job.id ≡ id) × IsNormal job.id "analysis_job.id"

-- The job has an outcome for the type of the result, marked with this fingerprint.
abbrev pub Holds : ControlState → AnalysisResult → Text → Type 0
Holds s result fingerprint =
    (job : AnalysisJob) × (o : AnalysisOutcome) × (get s result.analysis_job_id ≡ some job)
    × (outcome_for job.analysis_outcomes result.analysis_type ≡ some o)
    × (o.result_fingerprint ≡ fingerprint)

required-eq-ok : {A : Type 0} (known : Option A) (a : A) → required known ≡ ok a → known ≡ some a
required-eq-ok none a h = absurd (ground (arith, h))
required-eq-ok (some b) a h = ground (arith, h)

load_context-Keeps : (id : Text) (t : ControlState) → Keeps (λ s. s ≡ t) (load_context id)
unfolding load_context
load_context-Keeps id t = search keeps_rules depth 20

-- Whatever else is read, the job is the one that the store has.
load_context-job :
    (id : Text) (t : ControlState)
    → Ensures (λ s. s ≡ t) (load_context id) (λ x s. get t id ≡ some x.job)
unfolding load_context
load_context-job id t = record {
  at = λ s x s' same h.
      let (known, s1, e1, h1) = >>=-eq-ok _ _ s x s' h in
      let found : known ≡ get s id = ground (arith, e1) in
      let rest = Ensures-lift {Q = λ y z. known ≡ some y.job} (required known) _ (λ job e.
        Gives-after _ _ (λ _. Gives-after _ _ (λ _. Gives-after _ _ (λ _. Gives-after _ _ (λ _.
          Gives-after _ _ (λ _. Gives-after _ _ (λ _. Gives-after _ _ (λ _. Gives-after _ _ (λ _.
            Gives-after _ _ (λ _. record {
              at = λ z y z' _ k.
                  let q : job ≡ y.job = ground (arith, k) in required-eq-ok known job e ∙ ap some q;
            })))))))))) in
      ap (λ z. get z id) (sym same) ∙ sym found ∙ rest.at s1 x s' tt h1;
}

module _ (lib : Library) (policy : EvidenceRetentionPolicy) (result : AnalysisResult)
    (fingerprint : Text) (clock : Datetime) where
  validate_result-Keeps :
      (x : Context) (t : ControlState) → Keeps (λ s. s ≡ t) (validate_result x result)
  unfolding validate_result
  validate_result-Keeps x t = search keeps_rules depth 20

  abbrev Holding : AnalysisResultAcceptance → ControlState → Type 0
  Holding _ s = Holds s result fingerprint

  -- The two saves that end the intake.
  saves-Holding :
      (job : AnalysisJob) (event : ChangeEvent) (a : AnalysisResultAcceptance) (o : AnalysisOutcome)
      → job.id ≡ result.analysis_job_id
      → outcome_for job.analysis_outcomes result.analysis_type ≡ some o
      → o.result_fingerprint ≡ fingerprint
      → Gives
          (do
            ip_risk_agent_v.Repositories.AnalysisJobs.save job
            ip_risk_agent_v.Repositories.ChangeEvents.save event
            pure a)
          Holding
  unfolding get
  saves-Holding job event a o same out marked =
      Ensures-bind _ _ (λ _ s. get_item s.analysis_jobs job.id ≡ some job) Holding
        (record { at = λ s u s' _ h. save-get job s s' u h })
        (λ _. record {
          at = λ s b s' stored h.
              let (u, s1, e1, h1) = >>=-eq-ok _ _ s b s' h in
              let last : s1 ≡ s' = ground (arith, h1) in
              let jobs : s'.analysis_jobs ≡ s.analysis_jobs =
                ap (λ z. z.analysis_jobs) (sym last) ∙ event_save-jobs event s s1 u e1 in
              (
                job,
                o,
                subst (λ id. get_item s'.analysis_jobs id ≡ some job) same
                    (ap (λ d. get_item d job.id) jobs ∙ stored),
                out,
                marked,
              );
        })

  accept_new-Holding :
      (x : Context)
      → IsNormal fingerprint "analysis_outcome.result_fingerprint"
      → (x.job.id ≡ result.analysis_job_id) × IsNormal x.job.id "analysis_job.id"
      → outcome_for x.job.analysis_outcomes result.analysis_type ≡ none
      → Gives (accept_new lib policy result fingerprint clock x) Holding
  unfolding accept_new
  accept_new-Holding x n (same, named) free = Ensures-lift _ _ (λ o eo. Ensures-lift _ _ (λ j ej.
      Gives-after _ _ (λ now. Gives-after _ _ (λ _. Gives-after _ _ (λ _. Gives-after _ _ (λ _.
        Gives-after _ _ (λ event. Ensures-lift _ _ (λ ended ee.
          let taken = post_init-IsKept _ j named ej in
          let j_named = subst (λ id. IsNormal id "analysis_job.id") (sym taken.id) named in
          let kept = aggregate-IsKept j ended.0 event ended.1 _ j_named ee in
          saves-Holding ended.0 ended.1 _ o (kept.id ∙ taken.id ∙ same)
            (ap (λ os. outcome_for os result.analysis_type) (kept.outcomes ∙ taken.outcomes)
              ∙ outcome_for-snoc x.job.analysis_outcomes result.analysis_type o free)
            (outcome_from_result-fingerprint lib policy result fingerprint o n eo)))))))))

  accept_known-duplicate :
      (x : Context) (o : AnalysisOutcome) (s s' : ControlState) (a : AnalysisResultAcceptance)
      → accept_known lib policy result fingerprint clock x (some o) s ≡ ok (a, s')
      → (o.result_fingerprint ≡ fingerprint)
        × (a.disposition ≡ AnalysisResultDisposition.duplicate)
        × (s' ≡ s)
  unfolding ◌>>=◌
  accept_known-duplicate x o s s' a h =
      ground (arith, h, text_eq_iff o.result_fingerprint fingerprint)

  -- What the intake does with the outcome that it found, if it returns.
  accept_known-Holding :
      (x : Context) (found : Option AnalysisOutcome) (s s' : ControlState)
      (a : AnalysisResultAcceptance)
      → IsNormal fingerprint "analysis_outcome.result_fingerprint"
      → (x.job.id ≡ result.analysis_job_id) × IsNormal x.job.id "analysis_job.id"
      → get s result.analysis_job_id ≡ some x.job
      → outcome_for x.job.analysis_outcomes result.analysis_type ≡ found
      → accept_known lib policy result fingerprint clock x found s ≡ ok (a, s')
      → Holds s' result fingerprint
  accept_known-Holding x none s s' a n named there e h =
      (accept_new-Holding x n named e).at s a s' tt h
  accept_known-Holding x (some o) s s' a n named there e h =
      let (same, _, state) = accept_known-duplicate x o s s' a h in
      (x.job, o, ap (λ z. get z result.analysis_job_id) state ∙ there, e, same)

  -- The job that was loaded, and that nothing was written before the outcome was looked for.
  accept_once-parts :
      (s s' : ControlState) (a : AnalysisResultAcceptance)
      → accept_once lib policy result fingerprint clock s ≡ ok (a, s')
      → (x : Context) × (get s result.analysis_job_id ≡ some x.job)
        × (accept_known lib policy result fingerprint clock x
              (outcome_for x.job.analysis_outcomes result.analysis_type)
              s
            ≡ ok (a, s'))
  unfolding accept_once
  accept_once-parts s s' a h =
      let (x, s1, e1, h1) = >>=-eq-ok _ _ s a s' h in
      let (u, s2, e2, h2) = >>=-eq-ok _ _ s1 a s' h1 in
      let loaded = (load_context-Keeps result.analysis_job_id s).at s x s1 refl e1 in
      let checked = (validate_result-Keeps x s1).at s1 u s2 refl e2 in
      (
        x,
        (load_context-job result.analysis_job_id s).at s x s1 refl e1,
        subst
            (λ z.
              accept_known lib policy result fingerprint clock x
                (outcome_for x.job.analysis_outcomes result.analysis_type) z
              ≡ ok (a, s'))
            (checked ∙ loaded) h2,
      )

  pub accept_once-Holds :
      (s s' : ControlState) (a : AnalysisResultAcceptance)
      → JobsStored s
      → IsNormal fingerprint "analysis_outcome.result_fingerprint"
      → accept_once lib policy result fingerprint clock s ≡ ok (a, s')
      → Holds s' result fingerprint
  accept_once-Holds s s' a stored n h =
      let (x, there, e) = accept_once-parts s s' a h in
      accept_known-Holding x _ s s' a n (stored result.analysis_job_id x.job there) there refl e

  -- Where the outcome is there, another result for it is refused or changes nothing.
  Holds-duplicate :
      (s s' : ControlState) (marked : Text) (a : AnalysisResultAcceptance)
      → Holds s result marked
      → accept_once lib policy result fingerprint clock s ≡ ok (a, s')
      → (fingerprint ≡ marked) × (a.disposition ≡ AnalysisResultDisposition.duplicate) × (s' ≡ s)
  Holds-duplicate s s' marked a (job, o, there, found, mark) h =
      let (x, loaded, e) = accept_once-parts s s' a h in
      let same : job ≡ x.job = ground (arith, there, loaded) in
      let known =
        subst (λ j. outcome_for j.analysis_outcomes result.analysis_type ≡ some o) same found in
      let (q, duplicate, state) = accept_known-duplicate x o s s' a (
        subst (λ f. accept_known lib policy result fingerprint clock x f s ≡ ok (a, s')) known e) in
      (sym q ∙ mark, duplicate, state)

-- From a state whose jobs stand under their ids, as their constructor leaves those, once the intake of a
-- result returned, whose fingerprint has no blanks around it: whatever result for
-- the same job and type of analysis comes next, from whichever worker and at whatever time, if its intake
-- returns, it is the same result by its fingerprint, it is answered as a duplicate, and nothing changes.
pub first_result_wins :
    (lib lib' : Library) (policy policy' : EvidenceRetentionPolicy) (clock clock' : Datetime)
    (result result' : AnalysisResult) (fingerprint fingerprint' : Text) (s s1 s2 : ControlState)
    (a b : AnalysisResultAcceptance)
    → JobsStored s
    → IsNormal fingerprint "analysis_outcome.result_fingerprint"
    → result'.analysis_job_id ≡ result.analysis_job_id
    → result'.analysis_type ≡ result.analysis_type
    → accept_once lib policy result fingerprint clock s ≡ ok (a, s1)
    → accept_once lib' policy' result' fingerprint' clock' s1 ≡ ok (b, s2)
    → (fingerprint' ≡ fingerprint)
      × (b.disposition ≡ AnalysisResultDisposition.duplicate)
      × (s2 ≡ s1)
first_result_wins lib lib' policy policy' clock clock' result result' fingerprint fingerprint' s s1
      s2 a b stored n job type h k =
    Holds-duplicate lib' policy' result' fingerprint' clock' s1 s2 fingerprint b
      (rw (job, type) (accept_once-Holds lib policy result fingerprint clock s s1 a stored n h)) k
