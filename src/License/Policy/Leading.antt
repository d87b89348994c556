-- ===== src/License/Policy/Leading.antt =====
-- What an evaluation says about where its class comes from: `leading`, `all_leaves` and `notes` of
-- intelligence/license/policy.py.
use ip_risk_agent_v.Base.{
  ◌≡◌, refl, arith, ℕ, true, false, ◌==◌, ap, sym, subst, ◌∙◌, List, [], ◌∷◌, ◌++◌, map, Option,
  ◌⊎◌, Text, All, All-append, keep, Bool-cases, inl, inr, ok, append-nil,
}
use ip_risk_agent_v.Contracts.{LicensePolicyOutcome}
use ip_risk_agent_v.License.Spdx.{
  ExpressionNode, Operands, license, and_node, or_node, one, more, leaves, leaves_of,
}
use ip_risk_agent_v.License.Policy.{
  severity, is_unknown, is_known, Evaluation, LeafDecision, evaluate_node, decide_leaf, leads_of,
  every_leaf, heaviest, lightest,
}
use ip_risk_agent_v.License.Policy.Order.{worst, best, heaviest-worst, lightest-best}
use ip_risk_agent_v.License.Policy.Judgement.{
  result_of, results_of, and_result, or_result, evaluated, all_results,
}

abbrev decide : Text × Option Text → LeafDecision
decide leaf = decide_leaf leaf.0 leaf.1

map-append :
    (xs ys : List (Text × Option Text)) → map decide (xs ++ ys) ≡ map decide xs ++ map decide ys
map-append [] ys = refl
map-append (x ∷ xs) ys = ap (λ r. decide x ∷ r) (map-append xs ys)

or_result-all_leaves :
    (results ks : List Evaluation) → (or_result results ks).all_leaves ≡ every_leaf results
or_result-all_leaves results [] = refl
or_result-all_leaves results (k ∷ ks) = refl

mutual
  unfolding result_of leaves

  all_leaves-leaves : (n : ExpressionNode) → (result_of n).all_leaves ≡ map decide (leaves n)
  all_leaves-leaves (license i e) = refl
  all_leaves-leaves (and_node ns) = every_leaf-leaves_of ns
  all_leaves-leaves (or_node ns) =
      or_result-all_leaves (all_results ns) (keep is_known (all_results ns))
      ∙ every_leaf-leaves_of ns

  every_leaf-leaves_of : (ns : Operands) → every_leaf (all_results ns) ≡ map decide (leaves_of ns)
  every_leaf-leaves_of (one n) = append-nil (result_of n).all_leaves ∙ all_leaves-leaves n
  every_leaf-leaves_of (more n ns) =
      rw (all_leaves-leaves n, every_leaf-leaves_of ns) (sym (map-append (leaves n) (leaves_of ns)))

-- The leaves that lead have the class of the whole, where that is known.
abbrev pub Agree : Evaluation → Type 0
Agree r = is_unknown r.outcome ≡ false → All (λ d. d.outcome ≡ r.outcome) r.leading

outcome_of_severity :
    (a b : LicensePolicyOutcome) (w : ℕ) → w ≡ severity b → (severity a == w) ≡ true → a ≡ b
outcome_of_severity a b w e h = ground arith

leads_of-Agree :
    (o : LicensePolicyOutcome) (w : ℕ) (rs : List Evaluation)
    → w ≡ severity o
    → is_unknown o ≡ false
    → All Agree rs
    → All (λ d. d.outcome ≡ o) (leads_of (λ s. severity s.outcome == w) rs)
leads_of-Agree o w [] v u h = tt
leads_of-Agree o w (r ∷ rs) v u h = elim (Bool-cases (severity r.outcome == w)) [
  | inl e ↦
      let q = outcome_of_severity r.outcome o w v e in
      rw e (
        All-append (λ d. d.outcome ≡ o) r.leading _
          (subst (λ x. All (λ d. d.outcome ≡ x) r.leading) q (h.0 (ap is_unknown q ∙ u)))
          (leads_of-Agree o w rs v u h.1))
  | inr e ↦ rw e (leads_of-Agree o w rs v u h.1)
]

and_result-Agree :
    (r : Evaluation) (rs : List Evaluation) → All Agree (r ∷ rs) → Agree (and_result r rs)
and_result-Agree r rs h u =
    leads_of-Agree (worst (r ∷ rs)) (heaviest r rs) (r ∷ rs) (heaviest-worst r rs) u h

keep-All : (rs : List Evaluation) → All Agree rs → All Agree (keep is_known rs)
keep-All [] h = tt
keep-All (r ∷ rs) h = elim (Bool-cases (is_known r)) [
  | inl e ↦ rw e (h.0, keep-All rs h.1)
  | inr e ↦ rw e (keep-All rs h.1)
]

or_result-Agree :
    (results ks : List Evaluation)
    → keep is_known results ≡ ks
    → All Agree ks
    → Agree (or_result results ks)
or_result-Agree results [] e h u = absurd (ground arith)
or_result-Agree results (k ∷ ks) e h u =
    leads_of-Agree (best results) (lightest k ks) (k ∷ ks) (lightest-best results ks k e).0 u h

mutual
  unfolding result_of

  pub result_of-Agree : (n : ExpressionNode) → Agree (result_of n)
  result_of-Agree (license i e) = λ u. (refl, tt)
  result_of-Agree (and_node ns) =
      and_result-Agree (results_of ns).0 (results_of ns).1 (results_of-Agree ns)
  result_of-Agree (or_node ns) =
      or_result-Agree (all_results ns) (keep is_known (all_results ns)) refl
        (keep-All (all_results ns) (results_of-Agree ns))

  results_of-Agree : (ns : Operands) → All Agree (all_results ns)
  results_of-Agree (one n) = (result_of-Agree n, tt)
  results_of-Agree (more n ns) = (result_of-Agree n, results_of-Agree ns)

-- Every evaluation reports every license of the expression, in the order in which they stand, each
-- with its own decision; and either its class is unknown, or all the licenses that it names as leading
-- have its class.
pub leading_agrees :
    (n : ExpressionNode) (r : Evaluation)
    → evaluate_node n ≡ ok r
    → (r.all_leaves ≡ map (λ l. decide_leaf l.0 l.1) (leaves n))
      × ((r.outcome ≡ LicensePolicyOutcome.unknown) ⊎ All (λ d. d.outcome ≡ r.outcome) r.leading)
leading_agrees n r h =
    let q : result_of n ≡ r = evaluated n r h in
    let a = subst Agree q (result_of-Agree n) in
    (
      ap (λ e. e.all_leaves) (sym q) ∙ all_leaves-leaves n,
      elim (Bool-cases (is_unknown r.outcome)) [
        | inl u ↦ inl (ground (arith, u))
        | inr k ↦ inr (a k)
      ],
    )
