-- ===== src/Reconcile/Intake/Attempts/Atomic.antt =====
-- An intake that is tried again acts once, at one moment: application/risk_reconcile/service.py.
use ip_risk_agent_v.Base.{
  ◌≡◌, ◌⊎◌, inl, inr, refl, sym, subst, arith, ◌+◌, true, false, Bool-cases, Option, none, some,
  List, [], ◌∷◌, All, Text, Outcome, Outcome-cases, ok, raised, Error, concurrency_conflict,
}
use ip_risk_agent_v.Repositories.{ControlState}
use ip_risk_agent_v.Repositories.UnitOfWork.{UnitOfWork, enter, commit, ensure_open}
use ip_risk_agent_v.Reconcile.{Library, AnalysisResult}
use ip_risk_agent_v.Reconcile.Retention.{EvidenceRetentionPolicy}
use ip_risk_agent_v.Reconcile.Intake.{
  AnalysisResultAcceptance, AnalysisResultDisposition, accept_once,
}
use ip_risk_agent_v.Reconcile.Intake.Attempts.{
  Attempt, Answer, is_duplicate, on_conflict, finish_attempt, attempt_once, accept_within,
  accept_analysis_result,
}

-- A store that has the revision it was entered at has the state that it was entered with.
abbrev pub IsVersioned : Attempt → Type 0
IsVersioned t = t.entered.revision ≡ t.committing.revision → t.entered.state ≡ t.committing.state

-- One of the list has the property.
abbrev pub Among : (Attempt → Type 0) → List Attempt → Type 0
Among P [] = ⊥
Among P (t ∷ ts) = P t ⊎ Among P ts

duplicate_lem :
    (d : AnalysisResultDisposition)
    → is_duplicate d ≡ true
    → d ≡ AnalysisResultDisposition.duplicate
duplicate_lem AnalysisResultDisposition.duplicate h = refl
duplicate_lem AnalysisResultDisposition.accepted h = absurd (ground (arith, h))

accepted_lem :
    (d : AnalysisResultDisposition)
    → is_duplicate d ≡ false
    → d ≡ AnalysisResultDisposition.accepted
accepted_lem AnalysisResultDisposition.duplicate h = absurd (ground (arith, h))
accepted_lem AnalysisResultDisposition.accepted h = refl

-- A call after which the attempts went on or ended.
on_conflict-cases :
    (call next : Outcome Error Answer) (x : Answer)
    → on_conflict call next ≡ ok x
    → (call ≡ ok x) ⊎ (next ≡ ok x)
on_conflict-cases (ok y) next x h = inl h
on_conflict-cases (raised e) next x h = ground (arith, h)

module _ (lib : Library) (policy : EvidenceRetentionPolicy) (result : AnalysisResult)
    (fingerprint : Text) where
  -- The result was taken in by one run on the very state that the store had at the commit, whose outcome
  -- is the next revision of the store.
  pub record Accepts (t : Attempt) (x : Answer) : Type 0 where
    pub accepted : x.0.disposition ≡ AnalysisResultDisposition.accepted
    pub ran :
        accept_once lib policy result fingerprint t.clock t.committing.state ≡ ok (x.0, x.1.state)
    pub next : x.1.revision ≡ t.committing.revision + 1

  -- The result was found to be a duplicate, and the store is as the other workers left it.
  pub record Repeats (t : Attempt) (x : Answer) : Type 0 where
    pub duplicate : x.0.disposition ≡ AnalysisResultDisposition.duplicate
    pub ran :
        (s : ControlState) × (accept_once lib policy result fingerprint t.clock t.entered.state
          ≡ ok (x.0, s))
    pub kept : x.1 ≡ t.committing

  abbrev pub Answers : Answer → Attempt → Type 0
  Answers x t = Accepts t x ⊎ Repeats t x

  -- The unit of work of an attempt.
  abbrev opened : Attempt → UnitOfWork ControlState
  opened t = record {
    state = some t.entered.state;
    base_revision = some t.entered.revision;
    closed = false;
  }

  committed-parts :
      (t : Attempt) (a : AnalysisResultAcceptance) (s : ControlState) (x : Answer)
      → is_duplicate a.disposition ≡ false
      → finish_attempt lib policy result fingerprint t (opened t) (a, s) ≡ ok x
      → (t.entered.revision ≡ t.committing.revision)
        × (x ≡ (a, record { state = s; revision = t.committing.revision + 1 }))
  unfolding commit ensure_open
  committed-parts t a s x n h = ground (arith, h, n)

  finish_attempt-Answers :
      (t : Attempt) (a : AnalysisResultAcceptance) (s : ControlState) (x : Answer)
      → IsVersioned t
      → accept_once lib policy result fingerprint t.clock t.entered.state ≡ ok (a, s)
      → finish_attempt lib policy result fingerprint t (opened t) (a, s) ≡ ok x
      → Answers x t
  finish_attempt-Answers t a s x v e h = elim (Bool-cases (is_duplicate a.disposition)) [
    | inl d ↦
        let same : (a, t.committing) ≡ x = ground (arith, h, d) in
        inr (
          subst (Repeats t) same
            (record { duplicate = duplicate_lem a.disposition d; ran = (s, e); kept = refl }))
    | inr n ↦
        let (current, same) = committed-parts t a s x n h in
        inl (
          subst (Accepts t) (sym same) (record {
            accepted = accepted_lem a.disposition n;
            ran =
                subst (λ z. accept_once lib policy result fingerprint t.clock z ≡ ok (a, s))
                  (v current) e;
            next = refl;
          }))
  ]

  attempt_once-Answers :
      (t : Attempt) (x : Answer)
      → IsVersioned t
      → attempt_once lib policy result fingerprint t ≡ ok x
      → Answers x t
  unfolding attempt_once enter
  attempt_once-Answers t x v h =
      elim (Outcome-cases (accept_once lib policy result fingerprint t.clock t.entered.state)) [
        | inl ((a, s), e) ↦ finish_attempt-Answers t a s x v e (rw e at h)
        | inr (y, e) ↦ absurd (ground (arith, h, e))
      ]

  accept_within-Answers :
      (c : Option Error) (ts : List Attempt) (x : Answer)
      → All IsVersioned ts
      → accept_within lib policy result fingerprint c ts ≡ ok x
      → Among (Answers x) ts
  unfolding accept_within
  accept_within-Answers none [] x v h = absurd (ground (arith, h))
  accept_within-Answers (some e) [] x v h = absurd (ground (arith, h))
  accept_within-Answers c (t ∷ ts) x v h =
      elim (on_conflict-cases (attempt_once lib policy result fingerprint t)
        (accept_within lib policy result fingerprint (some concurrency_conflict) ts) x h) [
          | inl e ↦ inl (attempt_once-Answers t x v.0 e)
          | inr e ↦ inr (accept_within-Answers (some concurrency_conflict) ts x v.1 e)
        ]

  -- If the store's revision tells its state, then what `accept_analysis_result` returns, however often it
  -- tried, is the outcome of one of its attempts: either one run on the very state that the store had when
  -- it committed, stored as the next revision, so that it is as if no other worker had come between; or
  -- the answer that the result is a duplicate, with the store as the other workers left it.
  pub accept_analysis_result-Answers :
      (ts : List Attempt) (x : Answer)
      → All IsVersioned ts
      → accept_analysis_result lib policy result fingerprint ts ≡ ok x
      → Among (Answers x) ts
  unfolding accept_analysis_result
  accept_analysis_result-Answers ts x v h = accept_within-Answers none ts x v h
