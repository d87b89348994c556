-- ===== src/Reconcile/Refinement.antt =====
-- What a reconciliation that returns makes of the risks, key by key: application/risk_reconcile/service.py.
use ip_risk_agent_v.Base.{
  ◌≡◌, inl, inr, sym, ◌∙◌, subst, arith, true, false, if◌then◌else◌, Bool-cases, none, some, List,
  [], ◌∷◌, All, All-mono, length, Text, text_eq, text_eq_iff, Instant, Dict, get_item, ok,
}
use ip_risk_agent_v.Risk.{Risk}
use ip_risk_agent_v.Risk.Transitions.{analysis_can_record, absence_can_resolve}
use ip_risk_agent_v.Repositories.{ControlState}
use ip_risk_agent_v.Repositories.Risks.{get_by_key, list_for_artifact, of_artifact}
use ip_risk_agent_v.Repositories.Risks.Consistency.{IsConsistent}
use ip_risk_agent_v.Reconcile.{Library, AnalysisResult}
use ip_risk_agent_v.Reconcile.Retention.{EvidenceRetentionPolicy}
use ip_risk_agent_v.Reconcile.Projections.{CandidateProjection, candidate_projections}
use ip_risk_agent_v.Reconcile.Loop.{Observed, by_key, close_all, closes, reconcile}
use ip_risk_agent_v.Reconcile.Frame.{core, IsConsistent-core, get_by_key-core}
use ip_risk_agent_v.Reconcile.Effects.{IsSeen}
use ip_risk_agent_v.Reconcile.Observing.{is_projected, AllSeen, observe_all-effect}
use ip_risk_agent_v.Reconcile.Closing.{IsClosed, AllClosed, close_all-effect}
use ip_risk_agent_v.Reconcile.Keys.{project_all-Projected}
use ip_risk_agent_v.Reconcile.Listing.{existing, existing-Keyed, existing_complete, by_key-IsDict}
use ip_risk_agent_v.Reconcile.Closable.{
  AllValid, CanClose, closes_iff, closable, may_close-closable, reconcile_risks-parts,
  reconcile-parts, left_iff, closable-IsDict, closable-IsKeyed,
}

-- What becomes of the risk of every key, if these are the projections.
pub record Reconciled (result : AnalysisResult) (ps : List CandidateProjection)
    (s s' : ControlState) : Type 0 where
  pub consistent : IsConsistent s'
  pub seen : All (λ p. (r : Risk) × (get_by_key s' p.risk_key ≡ some r) × IsSeen result p r) ps
  pub closed :
      (k : Text) (r : Risk)
      → is_projected k ps ≡ false
      → get_by_key s k ≡ some r
      → of_artifact result.artifact_id result.analysis_type none r ≡ true
      → CanClose result r
      → (u : Risk) × (get_by_key s' k ≡ some u) × IsClosed r u
  pub kept :
      (k : Text)
      → is_projected k ps ≡ false
      → ((r : Risk)
          → get_by_key s k ≡ some r
          → of_artifact result.artifact_id result.analysis_type none r ≡ true
          → CanClose result r
          → ⊥)
      → get_by_key s' k ≡ get_by_key s k

projected_self : (ps : List CandidateProjection) → All (λ p. is_projected p.risk_key ps ≡ true) ps
projected_self [] = tt
projected_self (p ∷ ps) = (
  ground (arith, text_eq_iff p.risk_key p.risk_key),
  All-mono (λ q. is_projected q.risk_key ps ≡ true) (λ q. is_projected q.risk_key (p ∷ ps) ≡ true)
      (λ q h. ground (arith, h, Bool-cases (text_eq p.risk_key q.risk_key))) ps (projected_self ps),
)

All-both :
    (P Q : CandidateProjection → Type 0) (ps : List CandidateProjection)
    → All P ps
    → All Q ps
    → All (λ p. P p × Q p) ps
All-both P Q [] h k = tt
All-both P Q (p ∷ ps) h k = ((h.0, k.0), All-both P Q ps h.1 k.1)

module _ (lib : Library) (policy : EvidenceRetentionPolicy) (result : AnalysisResult)
    (fingerprint workspace : Text) (at : Instant) (owner : Text) where
  module _ (s : ControlState) (c : IsConsistent s) (ps : List CandidateProjection)
      (s1 s2 s' : ControlState) (d : Dict Risk)
      (seen : AllSeen result ps (existing s c result.artifact_id result.analysis_type) s d s1)
      (same : core s2 ≡ core s1)
      (ended : AllClosed lib policy result fingerprint workspace at owner
        (closable lib policy result fingerprint workspace at owner d)
        s2
        s') where
    closable_of :
        (k : Text) (r : Risk)
        → get_item (closable lib policy result fingerprint workspace at owner d) k ≡ some r
        → (get_item d k ≡ some r)
          × (absence_can_resolve result.analysis_type (length result.candidates) result.coverage
              ≡ true)
    unfolding get_item
    closable_of k r h =
        elim (Bool-cases
          (absence_can_resolve result.analysis_type (length result.candidates) result.coverage)) [
            | inl t ↦ (subst (λ b. get_item (if b then d else []) k ≡ some r) t h, t)
            | inr n ↦
                absurd (ground (arith, subst (λ b. get_item (if b then d else []) k ≡ some r) n h))
          ]

    untaken :
        (k : Text) (r : Risk)
        → get_item (closable lib policy result fingerprint workspace at owner d) k ≡ some r
        → is_projected k ps ≡ true
        → closes lib policy result fingerprint workspace at owner r ≡ false
    untaken k r h t =
        let (a, _) = closable_of k r h in
        let (n, _) =
          left_iff lib policy result fingerprint workspace at owner s c ps s1 d seen k r a in
        absurd (ground (arith, n, t))

    closable_again :
        (k : Text) (r : Risk)
        → is_projected k ps ≡ false
        → get_by_key s k ≡ some r
        → of_artifact result.artifact_id result.analysis_type none r ≡ true
        → absence_can_resolve result.analysis_type (length result.candidates) result.coverage ≡ true
        → get_item (closable lib policy result fingerprint workspace at owner d) k ≡ some r
    closable_again k r n e o t =
        let there = existing_complete s c result.artifact_id result.analysis_type k r e o in
        subst (λ b. get_item (if b then d else []) k ≡ some r) (sym t)
          (ground (arith, n, there, seen.left k))

    stays :
        (k : Text) (r : Risk)
        → get_item (closable lib policy result fingerprint workspace at owner d) k ≡ some r
        → ((q : Risk)
            → get_by_key s k ≡ some q
            → of_artifact result.artifact_id result.analysis_type none q ≡ true
            → CanClose result q
            → ⊥)
        → closes lib policy result fingerprint workspace at owner r ≡ false
    stays k r h no_one =
        elim (Bool-cases (closes lib policy result fingerprint workspace at owner r)) [
          | inl t ↦
              let (a, enough) = closable_of k r h in
              let (_, b) =
                left_iff lib policy result fingerprint workspace at owner s c ps s1 d seen k r a in
              let (key, (found, o)) =
                existing-Keyed s c result.artifact_id result.analysis_type k r b in
              let (active, authority) =
                (closes_iff lib policy result fingerprint workspace at owner r).0 t in
              absurd (
                no_one r (subst (λ z. get_by_key s z ≡ some r) key found) o
                  (active, authority, enough))
          | inr n ↦ n
        ]

    closed_or_kept : Reconciled result ps s s'
    closed_or_kept = record {
      consistent = ended.consistent;
      seen =
          All-mono
            (λ p.
              ((r : Risk) × (get_by_key s1 p.risk_key ≡ some r) × IsSeen result p r)
              × (is_projected p.risk_key ps ≡ true))
            (λ p. (r : Risk) × (get_by_key s' p.risk_key ≡ some r) × IsSeen result p r)
            (λ p h.
              let ((r, e, i), t) = h in
              (
                r,
                ended.kept p.risk_key (λ q z. untaken p.risk_key q z t)
                    ∙ (get_by_key-core s1 s2 p.risk_key same ∙ e),
                i,
              ))
            ps (All-both _ _ ps seen.seen (projected_self ps));
      closed = λ k r n e o can.
          ended.closed k r (closable_again k r n e o can.2)
            ((closes_iff lib policy result fingerprint workspace at owner r).1 (can.0, can.1));
      kept = λ k n no_one.
          ended.kept k (λ q z. stays k q z no_one) ∙ (get_by_key-core s1 s2 k same ∙ seen.kept k n);
    }

  -- From a consistent state whose risks are valid, a reconciliation that returns, of a result that may
  -- record (it succeeded, and saw the file at least in part), does this to the risk of
  -- every key and to nothing else: where a candidate that is worth a risk projects to the key, there is an
  -- active, valid, unresolved risk that is not excluded, with the candidate's priority; where none does, an
  -- active risk of this file and analysis is resolved exactly if the result saw the whole file and the want
  -- of candidates may close it; and every other risk is as it was. The state is consistent again.
  pub reconcile_refines :
      (s s' : ControlState) (ps : List CandidateProjection) (x : List Observed × List Risk)
      → IsConsistent s
      → AllValid s
      → analysis_can_record result.status result.coverage ≡ true
      → candidate_projections lib policy result ≡ ok ps
      → reconcile lib policy result fingerprint workspace at owner s ≡ ok (x, s')
      → Reconciled result ps s s'
  unfolding candidate_projections
  reconcile_refines s s' ps x c valid can e h =
      let rs = list_for_artifact s result.artifact_id result.analysis_type none in
      let (y, s1, s2, observed, same, closed) =
        reconcile_risks-parts lib policy result fingerprint workspace at owner ps rs s s' x
          (reconcile-parts lib policy result fingerprint workspace at owner ps s s' x e h) in
      let projected =
        project_all-Projected lib policy result.artifact_id [] result.candidates ps e in
      let seen =
        observe_all-effect lib policy result fingerprint workspace at owner can ps (by_key rs []) s
          s1 y projected.normal projected.distinct c (by_key-IsDict rs [] tt)
          (λ k r z.
            let (key, (found, _)) =
              existing-Keyed s c result.artifact_id result.analysis_type k r z in
            subst (λ w. get_by_key s w ≡ some r) key found)
          observed in
      closed_or_kept s c ps s1 s2 s' y.1 seen same (
        close_all-effect lib policy result fingerprint workspace at owner
          (closable lib policy result fingerprint workspace at owner y.1) s2 s' x.1
          (IsConsistent-core s1 s2 same seen.consistent)
          (closable-IsDict lib policy result fingerprint workspace at owner s c ps s1 y.1 seen)
          (closable-IsKeyed lib policy result fingerprint workspace at owner s c ps s1 y.1 seen
            valid)
          (subst
            (λ z. close_all lib policy result fingerprint workspace at owner z s2 ≡ ok (x.1, s'))
            (may_close-closable lib policy result fingerprint workspace at owner y.1) closed))
