-- ===== src/Reconcile/Effects.antt =====
-- What one candidate, or the want of one, does to the risk of a key.
use ip_risk_agent_v.Base.{
  ◌≡◌, ◌≢◌, inl, inr, refl, sym, subst, arith, Bool, true, false, if◌then◌else◌, Option, none, some,
  Text, Instant, text_eq, require_non_empty, IsNormal, Outcome-cases, ok,
}
use ip_risk_agent_v.Exec.{◌>>=◌}
use ip_risk_agent_v.Identity.{risk_id_for}
use ip_risk_agent_v.Risk.{Risk, ReviewDisposition, post_init}
use ip_risk_agent_v.Risk.Transitions.{analysis_can_record, decide_lifecycle, should_revive}
use ip_risk_agent_v.Risk.Lifecycle.{IsActive}
use ip_risk_agent_v.Risk.Validity.{IsValid, post_init-IsValid}
use ip_risk_agent_v.Repositories.{ControlState}
use ip_risk_agent_v.Repositories.Risks.{get_by_key, put, add, save}
use ip_risk_agent_v.Repositories.Risks.Consistency.{
  IsConsistent, IsFree, put-IsConsistent, get_by_key-put, add-ok, add-IsFree, save-ok, save-IsFree,
}
use ip_risk_agent_v.Reconcile.{Library, AnalysisResult}
use ip_risk_agent_v.Reconcile.Projections.{CandidateProjection}
use ip_risk_agent_v.Reconcile.Recording.{
  Recorded, new_risk, record_new, record_again, record_risk, seen_again, seen_time, seen_state,
}

-- What the constructor keeps of its arguments.
pub record Built (c : Risk) (r : Risk) : Type 0 where
  pub key : require_non_empty c.risk_key "risk.risk_key" ≡ ok r.risk_key
  pub state : r.lifecycle_state ≡ c.lifecycle_state
  pub disposition : r.review_disposition ≡ c.review_disposition
  pub priority : r.review_priority ≡ c.review_priority
  pub resolved : r.resolved_at ≡ c.resolved_at
  pub revision : r.latest_evidence_revision ≡ c.latest_evidence_revision

pub post_init-Built : (c r : Risk) → post_init c ≡ ok r → Built c r
unfolding post_init
post_init-Built c r h = ground (arith, h)

-- A risk that a candidate was seen for.
pub record IsSeen (result : AnalysisResult) (p : CandidateProjection) (r : Risk) : Type 0 where
  pub key : r.risk_key ≡ p.risk_key
  pub active : IsActive (some r.lifecycle_state)
  pub priority : r.review_priority ≡ p.priority
  pub unresolved : r.resolved_at ≡ none
  pub revision : r.latest_evidence_revision ≡ some result.revision
  pub valid : IsValid r
  pub counted : r.review_disposition ≢ ReviewDisposition.excluded

-- One risk was written, and the others are as they were.
pub record Wrote (s : ControlState) (r : Risk) (s' : ControlState) : Type 0 where
  pub consistent : IsConsistent s'
  pub found :
      (k : Text) → get_by_key s' k ≡ (if text_eq r.risk_key k then some r else get_by_key s k)

abbrev wrote : (r : Risk) (s : ControlState) → IsConsistent s → IsFree r s → Wrote s r (put r s)
wrote r s c f = record { consistent = put-IsConsistent r s c f; found = get_by_key-put r s c f }

module _ (lib : Library) (result : AnalysisResult) (workspace : Text) (at : Instant)
    (p : CandidateProjection) where
  pub record_new-parts :
      (s s' : ControlState) (r : Recorded)
      → record_new lib result workspace at p s ≡ ok (r, s')
      → (id : Text) × (post_init (new_risk result workspace at p id) ≡ ok r.risk)
        × (add r.risk s ≡ ok (tt, s'))
  unfolding record_new ◌>>=◌
  record_new-parts s s' r h = elim (Outcome-cases (risk_id_for lib.sha p.risk_key)) [
    | inl (id, e) ↦ (id, ground (arith, h, e), ground (arith, h, e))
    | inr (x, e) ↦ absurd (ground (arith, h, e))
  ]

  pub record_new-previous :
      (s s' : ControlState) (r : Recorded)
      → record_new lib result workspace at p s ≡ ok (r, s')
      → r.previous_state ≡ none
  unfolding record_new ◌>>=◌
  record_new-previous s s' r h = elim (Outcome-cases (risk_id_for lib.sha p.risk_key)) [
    | inl (id, e) ↦ ground (arith, h, e)
    | inr (x, e) ↦ absurd (ground (arith, h, e))
  ]

  pub record_again-parts :
      (s s' : ControlState) (r : Recorded) (risk : Risk)
      → record_again result at p risk s ≡ ok (r, s')
      → (post_init
            (seen_again result (seen_time at risk) p risk (should_revive risk.review_disposition))
          ≡ ok r.risk)
        × (save r.risk s ≡ ok (tt, s'))
  unfolding record_again ◌>>=◌
  record_again-parts s s' r risk h = ground (arith, h)

  pub record_again-previous :
      (s s' : ControlState) (r : Recorded) (risk : Risk)
      → record_again result at p risk s ≡ ok (r, s')
      → r.previous_state ≡ some risk.lifecycle_state
  unfolding record_again ◌>>=◌
  record_again-previous s s' r risk h = ground (arith, h)

module _ (lib : Library) (result : AnalysisResult) (workspace : Text) (at : Instant)
    (p : CandidateProjection) (normal : IsNormal p.risk_key "risk.risk_key")
    (can_record : analysis_can_record result.status result.coverage ≡ true) where
  seen_state-IsActive : (risk : Risk) (b : Bool) → IsActive (some (seen_state result risk b))
  unfolding decide_lifecycle
  seen_state-IsActive risk true = inl refl
  seen_state-IsActive risk false = ground (arith, can_record)

  Built-IsSeen-new :
      (id : Text) (r : Risk)
      → post_init (new_risk result workspace at p id) ≡ ok r
      → Built (new_risk result workspace at p id) r
      → IsSeen result p r
  Built-IsSeen-new id r h b = record {
    valid = post_init-IsValid (new_risk result workspace at p id) r h;
    key = ground (arith, b.key, normal);
    active = ground (arith, b.state);
    priority = b.priority;
    unresolved = b.resolved;
    revision = b.revision;
    counted = λ e. ground (arith, b.disposition, e);
  }

  abbrev again : Risk → Risk
  again risk = seen_again result (seen_time at risk) p risk (should_revive risk.review_disposition)

  Built-IsSeen-again :
      (risk r : Risk)
      → risk.risk_key ≡ p.risk_key
      → post_init (again risk) ≡ ok r
      → Built (again risk) r
      → IsSeen result p r
  unfolding should_revive
  Built-IsSeen-again risk r k h b = record {
    valid = post_init-IsValid (again risk) r h;
    key = ground (arith, b.key, k, normal);
    active =
        subst (λ x. IsActive (some x)) (sym b.state)
          (seen_state-IsActive risk (should_revive risk.review_disposition));
    priority = b.priority;
    unresolved = b.resolved;
    revision = b.revision;
    counted = λ e. ground (arith, b.disposition, e);
  }

  -- A candidate leaves an active risk of its key, with its priority, and no other risk changes.
  pub record_risk-effect :
      (s s' : ControlState) (existing : Option Risk) (r : Recorded)
      → IsConsistent s
      → ((risk : Risk) → existing ≡ some risk → risk.risk_key ≡ p.risk_key)
      → record_risk lib result workspace at p existing s ≡ ok (r, s')
      → IsSeen result p r.risk × Wrote s r.risk s'
  unfolding record_risk
  record_risk-effect s s' none r c k h =
      let (id, built, added) = record_new-parts lib result workspace at p s s' r h in
      let (e, _, _) = add-ok r.risk s s' added in
      (
        Built-IsSeen-new id r.risk built
            (post_init-Built (new_risk result workspace at p id) r.risk built),
        subst (λ x. Wrote s r.risk x) (sym e) (wrote r.risk s c (add-IsFree r.risk s s' added)),
      )
  record_risk-effect s s' (some risk) r c k h =
      let (built, saved) = record_again-parts lib result workspace at p s s' r risk h in
      let (_, _, _, _, _, e) = save-ok r.risk s s' saved in
      (
        Built-IsSeen-again risk r.risk (k risk refl) built (
            post_init-Built
              (seen_again result (seen_time at risk) p risk (should_revive risk.review_disposition))
              r.risk built),
        subst (λ x. Wrote s r.risk x) (sym e) (wrote r.risk s c (save-IsFree r.risk s s' saved)),
      )
