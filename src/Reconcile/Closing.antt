-- ===== src/Reconcile/Closing.antt =====
-- The loop over the risks that no candidate took: application/risk_reconcile/service.py, `_reconcile`.
use ip_risk_agent_v.Base.{
  ◌≡◌, inl, inr, refl, sym, ◌∙◌, ap, subst, arith, true, false, if◌then◌else◌, Bool-cases, some,
  List, [], ◌∷◌, All, Text, Instant, text_eq, text_eq_iff, Dict, get_item, values, IsDict, IsNormal,
  Outcome-cases, ok,
}
use ip_risk_agent_v.Exec.{pure, ◌>>=◌, >>=-eq-ok}
use ip_risk_agent_v.Risk.{Risk, RiskLifecycleState, post_init}
use ip_risk_agent_v.Risk.Validity.{IsValid, post_init-IsValid}
use ip_risk_agent_v.Risk.Attribution.{CauseAttribution}
use ip_risk_agent_v.Repositories.{ControlState}
use ip_risk_agent_v.Repositories.Risks.{get_by_key, save}
use ip_risk_agent_v.Repositories.Risks.Consistency.{
  IsConsistent, put-IsConsistent, get_by_key-put, save-ok, save-IsFree,
}
use ip_risk_agent_v.Reconcile.{Library, AnalysisResult}
use ip_risk_agent_v.Reconcile.Retention.{EvidenceRetentionPolicy}
use ip_risk_agent_v.Reconcile.Recording.{closed_risk}
use ip_risk_agent_v.Reconcile.Loop.{close, close_all, closes, close_time, append_closed}
use ip_risk_agent_v.Reconcile.History.{attribute}
use ip_risk_agent_v.Reconcile.Frame.{core, append_closed-Keeps, IsConsistent-core, get_by_key-core}
use ip_risk_agent_v.Reconcile.Effects.{post_init-Built, Wrote}

-- The risk was closed: it is resolved, at a time, and the rest of it that a reader counts on is as it was.
pub record IsClosed (before after : Risk) : Type 0 where
  pub key : after.risk_key ≡ before.risk_key
  pub resolved : after.lifecycle_state ≡ RiskLifecycleState.resolved
  pub moment : (t : Instant) × (after.resolved_at ≡ some t)
  pub disposition : after.review_disposition ≡ before.review_disposition
  pub priority : after.review_priority ≡ before.review_priority
  pub valid : IsValid after

module _ (lib : Library) (policy : EvidenceRetentionPolicy) (result : AnalysisResult)
    (fingerprint workspace : Text) (at : Instant) (owner : Text) where
  abbrev moment : Risk → Instant
  moment risk = close_time lib policy result fingerprint workspace at owner risk

  close-parts :
      (risk u : Risk) (s s' : ControlState)
      → close lib policy result fingerprint workspace at owner risk s ≡ ok (u, s')
      → (s1 : ControlState) × (a : CauseAttribution) × (post_init
            (closed_risk result (moment risk) risk)
          ≡ ok u)
        × (save u s ≡ ok (tt, s1))
        × (append_closed lib policy result fingerprint workspace at owner risk u (moment risk) a s1
            ≡ ok (tt, s'))
  unfolding close ◌>>=◌
  close-parts risk u s s' h =
      elim (Outcome-cases (post_init (closed_risk result (moment risk) risk))) [
        | inl (v, e) ↦ elim (Outcome-cases (save v s)) [
          | inl ((_, s1), e1) ↦ (
            s1,
            attribute s (some risk.latest_analysis_job_id) result,
            ground (arith, h, e, e1),
            ground (arith, h, e, e1),
            ground (arith, h, e, e1),
          )
          | inr (x, e1) ↦ absurd (ground (arith, h, e, e1))
        ]
        | inr (x, e) ↦ absurd (ground (arith, h, e))
      ]

  -- Closing writes the one risk, resolved.
  close-effect :
      (risk u : Risk) (s s' : ControlState)
      → IsConsistent s
      → IsNormal risk.risk_key "risk.risk_key"
      → close lib policy result fingerprint workspace at owner risk s ≡ ok (u, s')
      → IsClosed risk u × Wrote s u s'
  close-effect risk u s s' c normal h =
      let (s1, a, built, saved, appended) = close-parts risk u s s' h in
      let b = post_init-Built (closed_risk result (moment risk) risk) u built in
      let (previous, there, same, _, _, e) = save-ok u s s1 saved in
      let f = save-IsFree u s s1 saved in
      let kept : core s' ≡ core s1 =
        (append_closed-Keeps (core s1) lib policy result fingerprint workspace at owner risk u
            (moment risk) a).at
          s1 tt s' refl appended in
      (
        record {
          key = ground (arith, b.key, normal);
          valid = post_init-IsValid (closed_risk result (moment risk) risk) u built;
          resolved = b.state;
          moment = (moment risk, b.resolved);
          disposition = b.disposition;
          priority = b.priority;
        },
        record {
          consistent =
              IsConsistent-core s1 s' kept (subst IsConsistent (sym e) (put-IsConsistent u s c f));
          found = λ k.
              get_by_key-core s1 s' k kept
              ∙ (ap (λ x. get_by_key x k) e ∙ get_by_key-put u s c f k);
        },
      )

  -- What the loop over the untaken risks leaves.
  pub record AllClosed (d : Dict Risk) (s s' : ControlState) : Type 0 where
    pub consistent : IsConsistent s'
    pub closed :
        (k : Text) (r : Risk)
        → get_item d k ≡ some r
        → closes lib policy result fingerprint workspace at owner r ≡ true
        → (u : Risk) × (get_by_key s' k ≡ some u) × IsClosed r u
    pub kept :
        (k : Text)
        → ((r : Risk)
            → get_item d k ≡ some r
            → closes lib policy result fingerprint workspace at owner r ≡ false)
        → get_by_key s' k ≡ get_by_key s k

  -- Listed under their own normal keys.
  abbrev pub IsKeyed : Dict Risk → Type 0
  IsKeyed d = All (λ item. (item.1.risk_key ≡ item.0) × IsNormal item.0 "risk.risk_key") d

  nothing_closed : (s s' : ControlState) → s ≡ s' → IsConsistent s → AllClosed [] s s'
  unfolding get_item
  nothing_closed s s' e c = record {
    consistent = subst IsConsistent e c;
    closed = λ k r h. absurd (ground (arith, h));
    kept = λ k h. ap (λ z. get_by_key z k) (sym e);
  }

  skipped :
      (k : Text) (r : Risk) (d : Dict Risk) (s s' : ControlState)
      → IsDict ((k, r) ∷ d)
      → closes lib policy result fingerprint workspace at owner r ≡ false
      → AllClosed d s s'
      → AllClosed ((k, r) ∷ d) s s'
  unfolding get_item
  skipped k r d s s' i stays a = record {
    consistent = a.consistent;
    closed = λ j q h y. elim (Bool-cases (text_eq k j)) [
      | inl t ↦ absurd (ground (arith, t, h, y, stays))
      | inr n ↦ a.closed j q (ground (arith, n, h)) y
    ];
    kept = λ j h. elim (Bool-cases (text_eq k j)) [
      | inl t ↦ a.kept j (λ q e. absurd (ground (arith, i, e, t, text_eq_iff k j)))
      | inr n ↦ a.kept j (λ q e. h q (ground (arith, n, e)))
    ];
  }

  one_closed :
      (k : Text) (r u : Risk) (d : Dict Risk) (s s1 s' : ControlState)
      → IsDict ((k, r) ∷ d)
      → r.risk_key ≡ k
      → closes lib policy result fingerprint workspace at owner r ≡ true
      → IsClosed r u
      → Wrote s u s1
      → AllClosed d s1 s'
      → AllClosed ((k, r) ∷ d) s s'
  unfolding get_item
  one_closed k r u d s s1 s' i own ends c w a = record {
    consistent = a.consistent;
    closed = λ j q h y. elim (Bool-cases (text_eq k j)) [
      | inl t ↦
          let e : r ≡ q = ground (arith, t, h) in
          (
            u,
            a.kept j (λ z e'. absurd (ground (arith, i, e', t, text_eq_iff k j)))
                ∙ ground (arith, w.found j, c.key, own, t),
            subst (λ x. IsClosed x u) e c,
          )
      | inr n ↦ a.closed j q (ground (arith, n, h)) y
    ];
    kept = λ j h. elim (Bool-cases (text_eq k j)) [
      | inl t ↦ absurd (ground (arith, h r, t, ends))
      | inr n ↦
          a.kept j (λ q e. h q (ground (arith, n, e))) ∙ ground (arith, w.found j, c.key, own, n)
    ];
  }

  close_all-parts :
      (r : Risk) (rs : List Risk) (s s' : ControlState) (us : List Risk)
      → closes lib policy result fingerprint workspace at owner r ≡ true
      → close_all lib policy result fingerprint workspace at owner (r ∷ rs) s ≡ ok (us, s')
      → (u : Risk) × (s1 : ControlState) × (vs : List Risk) × (close lib policy result fingerprint
            workspace at owner r s
          ≡ ok (u, s1))
        × (close_all lib policy result fingerprint workspace at owner rs s1 ≡ ok (vs, s'))
  unfolding close_all
  close_all-parts r rs s s' us ends h =
      let rest = close_all lib policy result fingerprint workspace at owner rs in
      let first = close lib policy result fingerprint workspace at owner r in
      let h0 : (first >>= λ u. rest >>= λ vs. pure (u ∷ vs)) s ≡ ok (us, s') =
        subst
          (λ b. (if b then (first >>= λ u. rest >>= λ vs. pure (u ∷ vs)) else rest) s ≡ ok (us, s'))
          ends h in
      let (u, s1, e1, h1) = >>=-eq-ok first (λ u. rest >>= λ vs. pure (u ∷ vs)) s us s' h0 in
      let (vs, s2, e2, h2) = >>=-eq-ok rest (λ vs. pure (u ∷ vs)) s1 us s' h1 in
      (u, s1, vs, e1, ground (arith, e2, h2))

  close_all-skips :
      (r : Risk) (rs : List Risk) (s s' : ControlState) (us : List Risk)
      → closes lib policy result fingerprint workspace at owner r ≡ false
      → close_all lib policy result fingerprint workspace at owner (r ∷ rs) s ≡ ok (us, s')
      → close_all lib policy result fingerprint workspace at owner rs s ≡ ok (us, s')
  unfolding close_all
  close_all-skips r rs s s' us stays h =
      let rest = close_all lib policy result fingerprint workspace at owner rs in
      let first = close lib policy result fingerprint workspace at owner r in
      subst
        (λ b. (if b then (first >>= λ u. rest >>= λ vs. pure (u ∷ vs)) else rest) s ≡ ok (us, s'))
        stays h

  pub close_all-effect :
      (d : Dict Risk) (s s' : ControlState) (us : List Risk)
      → IsConsistent s
      → IsDict d
      → IsKeyed d
      → close_all lib policy result fingerprint workspace at owner (values d) s ≡ ok (us, s')
      → AllClosed d s s'
  unfolding close_all
  close_all-effect [] s s' us c i n h = nothing_closed s s' (ground (arith, h)) c
  close_all-effect ((k, r) ∷ d) s s' us c i n h =
      elim (Bool-cases (closes lib policy result fingerprint workspace at owner r)) [
        | inl ends ↦
            let (u, s1, vs, e1, h1) = close_all-parts r (values d) s s' us ends h in
            let (closed, w) =
              close-effect r u s s1 c (subst (λ x. IsNormal x "risk.risk_key") (sym n.0.0) n.0.1)
                e1 in
            one_closed k r u d s s1 s' i n.0.0 ends closed w
              (close_all-effect d s1 s' vs w.consistent i.1 n.1 h1)
        | inr stays ↦
            skipped k r d s s' i stays
              (close_all-effect d s s' us c i.1 n.1 (close_all-skips r (values d) s s' us stays h))
      ]
