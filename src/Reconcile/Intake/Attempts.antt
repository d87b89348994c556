-- ===== src/Reconcile/Intake/Attempts.antt =====
-- application/risk_reconcile/service.py: `accept_analysis_result`, which tries its unit of work again when
-- another one committed first.
pub mod Atomic
use ip_risk_agent_v.Base.{
  Bool, true, false, if◌then◌else◌, Option, none, some, List, [], ◌∷◌, Text, Datetime, Outcome, ok,
  raised, ◌>>=◌, Error, assertion, concurrency_conflict,
}
use ip_risk_agent_v.Repositories.{ControlState}
use ip_risk_agent_v.Repositories.UnitOfWork.{Store, UnitOfWork, fresh, enter, commit}
use ip_risk_agent_v.Reconcile.{Library, AnalysisResult}
use ip_risk_agent_v.Reconcile.Retention.{EvidenceRetentionPolicy}
use ip_risk_agent_v.Reconcile.Intake.{
  AnalysisResultAcceptance, AnalysisResultDisposition, accept_once,
}

-- What an attempt meets: the store as it is entered, the clock, and the store as it would commit.
pub record Attempt : Type 0 where
  pub entered : Store ControlState
  pub clock : Datetime
  pub committing : Store ControlState

abbrev pub Answer : Type 0
Answer = AnalysisResultAcceptance × Store ControlState

abbrev pub is_duplicate : AnalysisResultDisposition → Bool
is_duplicate AnalysisResultDisposition.duplicate = true
is_duplicate AnalysisResultDisposition.accepted = false

-- `except ConcurrencyConflictError`
abbrev pub on_conflict {ℓ} : {A : Type ℓ} → Outcome Error A → Outcome Error A → Outcome Error A
on_conflict (raised concurrency_conflict) next = next
on_conflict call next = call

module _ (lib : Library) (policy : EvidenceRetentionPolicy) (result : AnalysisResult)
    (fingerprint : Text) where
  -- A duplicate leaves the unit of work before its commit.
  abbrev pub finish_attempt :
      Attempt
      → UnitOfWork ControlState
      → AnalysisResultAcceptance × ControlState
      → Outcome Error Answer
  finish_attempt t u (a, s) =
      let committed = (do
        (store, _) ← commit t.committing (record u { state = some s })
        ok (a, store)) in
      if is_duplicate a.disposition then ok (a, t.committing) else committed

  unfoldable pub attempt_once : Attempt → Outcome Error Answer
  attempt_once t = do
    u ← enter t.entered fresh
    answer ← accept_once lib policy result fingerprint t.clock t.entered.state
    finish_attempt t u answer

  -- The loop over the attempts that are left, after this conflict.
  unfoldable pub accept_within : Option Error → List Attempt → Outcome Error Answer
  unfolding attempt_once
  accept_within none [] = raised assertion
  accept_within (some last_conflict) [] = raised last_conflict
  accept_within last_conflict (t ∷ attempts) =
      let rest = accept_within (some concurrency_conflict) attempts in
      on_conflict (attempt_once t) rest

  unfoldable pub accept_analysis_result : List Attempt → Outcome Error Answer
  unfolding accept_within
  accept_analysis_result attempts = accept_within none attempts
