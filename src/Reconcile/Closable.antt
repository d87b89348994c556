-- ===== src/Reconcile/Closable.antt =====
-- What a reconciliation may close, and the steps it is made of: application/risk_reconcile/service.py.
use ip_risk_agent_v.Base.{
  ◌≡◌, ◌↔◌, inl, inr, refl, sym, subst, arith, true, false, if◌then◌else◌, Bool-cases, none, some,
  List, [], All-mono, keep, map, length, Text, Instant, Dict, get_item, values, IsDict, IsDict-All,
  IsNormal, ok,
}
use ip_risk_agent_v.Exec.{Exec, ◌>>=◌, >>=-eq-ok}
use ip_risk_agent_v.Risk.{Risk}
use ip_risk_agent_v.Risk.Validity.{IsValid}
use ip_risk_agent_v.Risk.Lifecycle.{IsActive}
use ip_risk_agent_v.Risk.Transitions.{
  analysis_is_authoritative, absence_can_resolve, decide_lifecycle,
}
use ip_risk_agent_v.Repositories.{ControlState}
use ip_risk_agent_v.Repositories.Risks.{get_by_key, list_for_artifact}
use ip_risk_agent_v.Repositories.Risks.Consistency.{IsConsistent}
use ip_risk_agent_v.Reconcile.{Library, AnalysisResult}
use ip_risk_agent_v.Reconcile.Retention.{EvidenceRetentionPolicy}
use ip_risk_agent_v.Reconcile.Projections.{CandidateProjection, candidate_projections}
use ip_risk_agent_v.Reconcile.Loop.{
  Observed, by_key, observe_all, close_all, closes, may_close, reconcile_risks, reconcile,
}
use ip_risk_agent_v.Reconcile.Frame.{core, notify_attention-Keeps}
use ip_risk_agent_v.Reconcile.Observing.{is_projected, AllSeen}
use ip_risk_agent_v.Reconcile.Closing.{IsKeyed}
use ip_risk_agent_v.Reconcile.Listing.{existing, existing-Keyed}

-- Every stored risk came out of its constructor.
abbrev pub AllValid : ControlState → Type 0
AllValid s = (k : Text) (r : Risk) → get_by_key s k ≡ some r → IsValid r

-- A risk that no candidate was seen for closes: it is active, the analysis saw all of the file, and the
-- want of candidates is enough.
abbrev pub CanClose : AnalysisResult → Risk → Type 0
CanClose result r =
    IsActive (some r.lifecycle_state)
    × (analysis_is_authoritative result.status result.coverage ≡ true)
    × (absence_can_resolve result.analysis_type (length result.candidates) result.coverage ≡ true)

module _ (lib : Library) (policy : EvidenceRetentionPolicy) (result : AnalysisResult)
    (fingerprint workspace : Text) (at : Instant) (owner : Text) where
  pub closes_iff :
      (r : Risk)
      → (closes lib policy result fingerprint workspace at owner r ≡ true) ↔ (
          IsActive (some r.lifecycle_state)
          × (analysis_is_authoritative result.status result.coverage ≡ true))
  unfolding decide_lifecycle
  closes_iff r = ground arith

  -- The risks that may be closed, with their keys.
  abbrev pub closable : Dict Risk → Dict Risk
  closable d =
      if absence_can_resolve result.analysis_type (length result.candidates) result.coverage
      then d
      else []

  pub may_close-closable :
      (d : Dict Risk)
      → may_close lib policy result fingerprint workspace at owner d ≡ values (closable d)
  may_close-closable d =
      elim (Bool-cases
        (absence_can_resolve result.analysis_type (length result.candidates) result.coverage)) [
          | inl t ↦ rw t refl
          | inr n ↦ rw n refl
        ]

  pub reconcile_risks-parts :
      (ps : List CandidateProjection) (rs : List Risk) (s s' : ControlState)
      (x : List Observed × List Risk)
      → reconcile_risks lib policy result fingerprint workspace at owner ps rs s ≡ ok (x, s')
      → (y : List Observed × Dict Risk) × (s1 : ControlState) × (s2 : ControlState) × (observe_all
            lib policy result fingerprint workspace at owner ps
            (by_key rs [])
            s
          ≡ ok (y, s1))
        × (core s2 ≡ core s1)
        × (close_all lib policy result fingerprint workspace at owner
              (may_close lib policy result fingerprint workspace at owner y.1)
              s2
            ≡ ok (x.1, s'))
  unfolding reconcile_risks
  reconcile_risks-parts ps rs s s' x h =
      let (_, s0, e0, h0) = >>=-eq-ok _ _ s x s' h in
      let (y, s1, e1, h1) = >>=-eq-ok _ _ s0 x s' h0 in
      let (_, s2, e2, h2) = >>=-eq-ok _ _ s1 x s' h1 in
      let (us, s3, e3, h3) = >>=-eq-ok _ _ s2 x s' h2 in
      let same : s0 ≡ s = ground (arith, e0) in
      let told = map (λ o. o.risk) (keep (λ o. o.attention) y.0) in
      (
        y,
        s1,
        s2,
        subst (λ z. all ps (by_key rs []) z ≡ ok (y, s1)) same e1,
        (notify_attention-Keeps (core s1) lib policy result fingerprint workspace at owner told).at
            s1 tt s2 refl e2,
        ground (arith, e3, h3),
      )
    where
      all : List CandidateProjection → Dict Risk → Exec ControlState (List Observed × Dict Risk)
      all = observe_all lib policy result fingerprint workspace at owner

  pub reconcile-parts :
      (ps : List CandidateProjection) (s s' : ControlState) (x : List Observed × List Risk)
      → candidate_projections lib policy result ≡ ok ps
      → reconcile lib policy result fingerprint workspace at owner s ≡ ok (x, s')
      → reconcile_risks lib policy result fingerprint workspace at owner ps
          (list_for_artifact s result.artifact_id result.analysis_type none)
          s
        ≡ ok (x, s')
  unfolding reconcile ◌>>=◌
  reconcile-parts ps s s' x e h = ground (arith, e, h)

  module _ (s : ControlState) (c : IsConsistent s) (ps : List CandidateProjection)
      (s1 : ControlState) (d : Dict Risk)
      (seen : AllSeen result ps (existing s c result.artifact_id result.analysis_type) s d s1) where
    -- What is still listed was listed, and no candidate took it.
    pub left_iff :
        (k : Text) (r : Risk)
        → get_item d k ≡ some r
        → (is_projected k ps ≡ false)
          × (get_item (existing s c result.artifact_id result.analysis_type) k ≡ some r)
    left_iff k r h = ground (arith, h, seen.left k)

    pub closable-IsDict : IsDict (closable d)
    closable-IsDict =
        elim (Bool-cases
          (absence_can_resolve result.analysis_type (length result.candidates) result.coverage)) [
            | inl t ↦ subst (λ b. IsDict (if b then d else [])) (sym t) seen.dict
            | inr n ↦ subst (λ b. IsDict (if b then d else [])) (sym n) tt
          ]

    left-IsKeyed : AllValid s → IsKeyed lib policy result fingerprint workspace at owner d
    left-IsKeyed valid =
        All-mono (λ item. get_item d item.0 ≡ some item.1)
          (λ item. (item.1.risk_key ≡ item.0) × IsNormal item.0 "risk.risk_key")
          (λ item e.
            let (_, b) = left_iff item.0 item.1 e in
            let (key, (found, _)) =
              existing-Keyed s c result.artifact_id result.analysis_type item.0 item.1 b in
            (
              key,
              subst (λ k. IsNormal k "risk.risk_key") key
                  (valid item.1.risk_key item.1 found).risk_key,
            ))
          d (IsDict-All d seen.dict)

    pub closable-IsKeyed :
        AllValid s → IsKeyed lib policy result fingerprint workspace at owner (closable d)
    closable-IsKeyed valid =
        elim (Bool-cases
          (absence_can_resolve result.analysis_type (length result.candidates) result.coverage)) [
            | inl t ↦
                subst
                  (λ b.
                    IsKeyed lib policy result fingerprint workspace at owner (if b then d else []))
                  (sym t) (left-IsKeyed valid)
            | inr n ↦
                subst
                  (λ b.
                    IsKeyed lib policy result fingerprint workspace at owner (if b then d else []))
                  (sym n) tt
          ]
