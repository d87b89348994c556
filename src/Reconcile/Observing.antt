-- ===== src/Reconcile/Observing.antt =====
-- The loop over the candidates: application/risk_reconcile/service.py, `_reconcile`.
use ip_risk_agent_v.Base.{
  ◌≡◌, refl, sym, ◌∙◌, ap, subst, arith, Bool, true, false, if◌then◌else◌, Option, none, some, List,
  [], ◌∷◌, All, any, Text, Instant, text_eq, text_eq_iff, Dict, get_item, without, get_item-without,
  without-IsDict, IsDict, IsNormal, ok,
}
use ip_risk_agent_v.Exec.{>>=-eq-ok}
use ip_risk_agent_v.Risk.{Risk}
use ip_risk_agent_v.Risk.Transitions.{analysis_can_record}
use ip_risk_agent_v.Repositories.{ControlState}
use ip_risk_agent_v.Repositories.Risks.{get_by_key}
use ip_risk_agent_v.Repositories.Risks.Consistency.{IsConsistent, get_by_key-key}
use ip_risk_agent_v.Reconcile.{Library, AnalysisResult}
use ip_risk_agent_v.Reconcile.Retention.{EvidenceRetentionPolicy}
use ip_risk_agent_v.Reconcile.Projections.{CandidateProjection}
use ip_risk_agent_v.Reconcile.Recording.{Recorded, record_risk}
use ip_risk_agent_v.Reconcile.Loop.{Observed, after_recorded, observe, observe_all}
use ip_risk_agent_v.Reconcile.Frame.{core, after_recorded-Keeps, IsConsistent-core, get_by_key-core}
use ip_risk_agent_v.Reconcile.Effects.{IsSeen, Wrote, record_risk-effect}

-- The risks that are listed are those that the keys lead to.
abbrev pub Matches : Dict Risk → ControlState → Type 0
Matches d s = (k : Text) (r : Risk) → get_item d k ≡ some r → get_by_key s k ≡ some r

-- No two projections have one key.
abbrev pub IsDistinct : List CandidateProjection → Type 0
IsDistinct [] = Unit
IsDistinct (p ∷ ps) = All (λ q. text_eq p.risk_key q.risk_key ≡ false) ps × IsDistinct ps

abbrev pub NormalKeys : List CandidateProjection → Type 0
NormalKeys ps = All (λ p. IsNormal p.risk_key "risk.risk_key") ps

-- A candidate has the key.
abbrev pub is_projected : Text → List CandidateProjection → Bool
is_projected k ps = any (λ p. text_eq p.risk_key k) ps

-- What the loop over the candidates leaves.
pub record AllSeen (result : AnalysisResult) (ps : List CandidateProjection) (d : Dict Risk)
    (s : ControlState) (d' : Dict Risk) (s' : ControlState) : Type 0 where
  pub consistent : IsConsistent s'
  pub seen : All (λ p. (r : Risk) × (get_by_key s' p.risk_key ≡ some r) × IsSeen result p r) ps
  pub kept : (k : Text) → is_projected k ps ≡ false → get_by_key s' k ≡ get_by_key s k
  pub left : (k : Text) → get_item d' k ≡ (if is_projected k ps then none else get_item d k)
  pub dict : IsDict d'

module _ (lib : Library) (policy : EvidenceRetentionPolicy) (result : AnalysisResult)
    (fingerprint workspace : Text) (at : Instant) (owner : Text)
    (can_record : analysis_can_record result.status result.coverage ≡ true) where
  after_recorded-risk :
      (p : CandidateProjection) (r : Recorded) (s s' : ControlState) (o : Observed)
      → after_recorded lib policy result fingerprint workspace at owner p r s ≡ ok (o, s')
      → o.risk ≡ r.risk
  unfolding after_recorded
  after_recorded-risk p r s s' o h =
      let (refs, s1, _, h1) = >>=-eq-ok _ _ s o s' h in
      let (e, s2, _, h2) = >>=-eq-ok _ _ s1 o s' h1 in
      let (_, s3, _, h3) = >>=-eq-ok _ _ s2 o s' h2 in
      let (_, s4, _, h4) = >>=-eq-ok _ _ s3 o s' h3 in ground (arith, h4)

  observe-effect :
      (p : CandidateProjection) (existing : Option Risk) (s s' : ControlState) (o : Observed)
      → IsNormal p.risk_key "risk.risk_key"
      → IsConsistent s
      → ((risk : Risk) → existing ≡ some risk → risk.risk_key ≡ p.risk_key)
      → observe lib policy result fingerprint workspace at owner p existing s ≡ ok (o, s')
      → IsSeen result p o.risk × Wrote s o.risk s'
  unfolding observe
  observe-effect p existing s s' o n c k h =
      let (r, s1, written, h1) =
        >>=-eq-ok (record_risk lib result workspace at p existing)
          (after_recorded lib policy result fingerprint workspace at owner p) s o s' h in
      let (seen, w) =
        record_risk-effect lib result workspace at p n can_record s s1 existing r c k written in
      let same : core s' ≡ core s1 =
        (after_recorded-Keeps (core s1) lib policy result fingerprint workspace at owner p r).at s1
          o s' refl h1 in
      let e = after_recorded-risk p r s1 s' o h1 in
      (
        subst (λ x. IsSeen result p x) (sym e) seen,
        record {
          consistent = IsConsistent-core s1 s' same w.consistent;
          found = λ k'.
              subst
                (λ x.
                  get_by_key s' k' ≡ (if text_eq x.risk_key k' then some x else get_by_key s k'))
                (sym e) (get_by_key-core s1 s' k' same ∙ w.found k');
        },
      )

  distinct-absent :
      (k : Text) (ps : List CandidateProjection)
      → All (λ q. text_eq k q.risk_key ≡ false) ps
      → is_projected k ps ≡ false
  distinct-absent k [] h = refl
  distinct-absent k (q ∷ ps) h =
      ground (arith, h, text_eq_iff k q.risk_key, text_eq_iff q.risk_key k, distinct-absent k ps)

  observe_all-parts :
      (p : CandidateProjection) (ps : List CandidateProjection) (d : Dict Risk)
      (s s' : ControlState) (x : List Observed × Dict Risk)
      → observe_all lib policy result fingerprint workspace at owner (p ∷ ps) d s ≡ ok (x, s')
      → (o : Observed) × (s1 : ControlState) × (os : List Observed) × (observe lib policy result
            fingerprint workspace at owner p
            (get_item d p.risk_key)
            s
          ≡ ok (o, s1))
        × (observe_all lib policy result fingerprint workspace at owner ps (without p.risk_key d) s1
            ≡ ok ((os, x.1), s'))
  unfolding observe_all
  observe_all-parts p ps d s s' x h =
      let (o, s1, e1, h1) = >>=-eq-ok _ _ s x s' h in
      let (rest, s2, e2, h2) = >>=-eq-ok _ _ s1 x s' h1 in
      (o, s1, rest.0, e1, ground (arith, e2, h2))

  -- After a candidate, the risks that are still listed are still those that the keys lead to.
  Matches-without :
      (key : Text) (r : Risk) (d : Dict Risk) (s s1 : ControlState)
      → r.risk_key ≡ key
      → Wrote s r s1
      → Matches d s
      → Matches (without key d) s1
  Matches-without key r d s s1 e w m k q h =
      ground (arith, e, h, w.found k, get_item-without key k d, m k q)

  pub observe_all-effect :
      (ps : List CandidateProjection) (d : Dict Risk) (s s' : ControlState)
      (x : List Observed × Dict Risk)
      → NormalKeys ps
      → IsDistinct ps
      → IsConsistent s
      → IsDict d
      → Matches d s
      → observe_all lib policy result fingerprint workspace at owner ps d s ≡ ok (x, s')
      → AllSeen result ps d s x.1 s'
  unfolding observe_all
  observe_all-effect [] d s s' x n u c i m h =
      let e : s ≡ s' = ground (arith, h) in
      let q : d ≡ x.1 = ground (arith, h) in
      record {
        consistent = subst IsConsistent e c;
        seen = tt;
        kept = λ k _. ap (λ z. get_by_key z k) (sym e);
        left = λ k. ap (λ z. get_item z k) (sym q);
        dict = subst IsDict q i;
      }
  observe_all-effect (p ∷ ps) d s s' x n u c i m h =
      let (o, s1, os, e1, h1) = observe_all-parts p ps d s s' x h in
      let (seen, w) =
        observe-effect p (get_item d p.risk_key) s s1 o n.0 c
          (λ risk e. (get_by_key-key s p.risk_key risk c (m p.risk_key risk e)).0) e1 in
      let rest =
        observe_all-effect ps (without p.risk_key d) s1 s' (os, x.1) n.1 u.1 w.consistent
          (without-IsDict p.risk_key d i) (Matches-without p.risk_key o.risk d s s1 seen.key w m)
          h1 in
      record {
        consistent = rest.consistent;
        seen = (
          (
            o.risk,
            ground (
              arith,
              rest.kept p.risk_key (distinct-absent p.risk_key ps u.0),
              w.found p.risk_key,
              seen.key,
              text_eq_iff p.risk_key p.risk_key,
            ),
            seen,
          ),
          rest.seen,
        );
        kept = λ k e. ground (arith, e, rest.kept k, w.found k, seen.key);
        left = λ k. ground (arith, rest.left k, get_item-without p.risk_key k d);
        dict = rest.dict;
      }
