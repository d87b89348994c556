-- ===== src/Reconcile/Keys.antt =====
-- The keys of the projections and the risks that the repository lists for a file.
use ip_risk_agent_v.Base.{
  ◌≡◌, inl, inr, refl, subst, arith, Bool, true, false, if◌then◌else◌, Option, List, [], ◌∷◌, All,
  any, Text, String, codes, is_space, text_eq, text_eq_iff, IsNormal, Outcome-cases, ok,
}
use ip_risk_agent_v.Identity.{patent_risk_key, license_risk_key}
use ip_risk_agent_v.Identity.Normal.{stable_key-IsNormal}
use ip_risk_agent_v.Reconcile.{Library, Candidate}
use ip_risk_agent_v.Reconcile.Retention.{EvidenceRetentionPolicy}
use ip_risk_agent_v.Reconcile.Projections.{
  CandidateProjection, normalized_number, normalized_token, normalized_version, split_words,
  join_words, project, project_all, is_risk_worthy,
}
use ip_risk_agent_v.Reconcile.Observing.{IsDistinct, NormalKeys}

patent_risk_key-IsNormal :
    (lib : Library) (a n k : Text) (name : String)
    → patent_risk_key lib.sha a n ≡ ok k
    → IsNormal k name
unfolding patent_risk_key is_space
patent_risk_key-IsNormal lib a n k name h =
    stable_key-IsNormal lib.sha (codes "risk-patent") _ k name refl h

license_risk_key-IsNormal :
    (lib : Library) (a e p : Text) (v : Option Text) (x k : Text) (name : String)
    → license_risk_key lib.sha a e p v x ≡ ok k
    → IsNormal k name
unfolding license_risk_key is_space
license_risk_key-IsNormal lib a e p v x k name h =
    stable_key-IsNormal lib.sha (codes "risk-license") _ k name refl h

module _ (lib : Library) (policy : EvidenceRetentionPolicy) where
  project-IsNormal :
      (a : Text) (c : Candidate) (p : CandidateProjection) (name : String)
      → project lib policy a c ≡ ok p
      → IsNormal p.risk_key name
  unfolding project
  project-IsNormal a (Candidate.patent c) p name h =
      elim (Outcome-cases (normalized_number lib policy c.normalized_application_number)) [
        | inl (n, e) ↦ elim (Outcome-cases (patent_risk_key lib.sha a n)) [
          | inl (k, e') ↦
              let q : k ≡ p.risk_key = ground (arith, h, e, e') in
              subst (λ x. IsNormal x name) q (patent_risk_key-IsNormal lib a n k name e')
          | inr (x, e') ↦ absurd (ground (arith, h, e, e'))
        ]
        | inr (x, e) ↦ absurd (ground (arith, h, e))
      ]
  project-IsNormal a (Candidate.license c) p name h =
      elim (Outcome-cases
        (normalized_token lib policy c.ecosystem "license ecosystem cannot be empty")) [
          | inl (x, e) ↦
              elim (Outcome-cases (
                normalized_token lib policy c.normalized_package_name
                  "license package name cannot be empty")) [
                    | inl (y, e1) ↦
                        elim (Outcome-cases (normalized_version lib policy c.resolved_version)) [
                          | inl (v, e2) ↦
                              let z = lib.upper (
                                join_words
                                  (split_words (lib.nfkc c.normalized_license_expression))) in
                              elim (Outcome-cases (license_risk_key lib.sha a x y v z)) [
                                | inl (k, e3) ↦
                                    let q : k ≡ p.risk_key = ground (arith, h, e, e1, e2, e3) in
                                    subst (λ t. IsNormal t name) q
                                      (license_risk_key-IsNormal lib a x y v z k name e3)
                                | inr (w, e3) ↦ absurd (ground (arith, h, e, e1, e2, e3))
                              ]
                          | inr (w, e2) ↦ absurd (ground (arith, h, e, e1, e2))
                        ]
                    | inr (w, e1) ↦ absurd (ground (arith, h, e, e1))
                  ]
          | inr (w, e) ↦ absurd (ground (arith, h, e))
        ]

  -- Keys that the loop has not seen before, no two alike, and all normal.
  pub record Projected (seen : List Text) (ps : List CandidateProjection) : Type 0 where
    pub fresh : All (λ q. any (text_eq q.risk_key) seen ≡ false) ps
    pub distinct : IsDistinct ps
    pub normal : NormalKeys ps

  fresh-cons :
      (k : Text) (seen : List Text) (ps : List CandidateProjection)
      → All (λ q. any (text_eq q.risk_key) (k ∷ seen) ≡ false) ps
      → All (λ q. any (text_eq q.risk_key) seen ≡ false) ps
        × All (λ q. text_eq k q.risk_key ≡ false) ps
  fresh-cons k seen [] h = (tt, tt)
  fresh-cons k seen (q ∷ ps) h =
      let (a, b) = fresh-cons k seen ps h.1 in
      (
        (ground (arith, h.0), a),
        (ground (arith, h.0, text_eq_iff k q.risk_key, text_eq_iff q.risk_key k), b),
      )

  pub project_all-Projected :
      (a : Text) (seen : List Text) (cs : List Candidate) (ps : List CandidateProjection)
      → project_all lib policy a seen cs ≡ ok ps
      → Projected seen ps
  unfolding project_all
  project_all-Projected a seen [] ps h =
      let q : [] ≡ ps = ground (arith, h) in
      subst (λ x. Projected seen x) q (record { fresh = tt; distinct = tt; normal = tt })
  project_all-Projected a seen (c ∷ cs) ps h = elim (Outcome-cases (project lib policy a c)) [
    | inl (p, e) ↦ elim (Outcome-cases (project_all lib policy a (p.risk_key ∷ seen) cs)) [
      | inl (rest, er) ↦
          let r = project_all-Projected a (p.risk_key ∷ seen) cs rest er in
          let (unseen, others) = fresh-cons p.risk_key seen rest r.fresh in
          let q : (if is_risk_worthy p.priority then p ∷ rest else rest) ≡ ps =
            ground (arith, h, e, er) in
          subst (λ x. Projected seen x) q
            (placed (is_risk_worthy p.priority)
              (record {
                fresh = (ground (arith, h, e), unseen);
                distinct = (others, r.distinct);
                normal = (project-IsNormal a c p "risk.risk_key" e, r.normal);
              })
              (record { fresh = unseen; distinct = r.distinct; normal = r.normal }))
      | inr (x, er) ↦ absurd (ground (arith, h, e, er))
    ]
    | inr (x, e) ↦ absurd (ground (arith, h, e))
  ]
    where
      placed :
          (b : Bool)
          → {x y : List CandidateProjection} → Projected seen x
          → Projected seen y
          → Projected seen (if b then x else y)
      placed true x y = x
      placed false x y = y
