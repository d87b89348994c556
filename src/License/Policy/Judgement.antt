-- ===== src/License/Policy/Judgement.antt =====
-- What the class of an expression means: intelligence/license/policy.py, `_evaluate_node`.
use ip_risk_agent_v.Base.{◌==◌, ltb, ◌++◌, ◌≡◌, refl, arith, ◌∙◌, ap, sym, List, [], ◌∷◌, ok, keep}
use ip_risk_agent_v.Contracts.{LicensePolicyOutcome}
use ip_risk_agent_v.License.Spdx.{ExpressionNode, Operands, license, and_node, or_node, one, more}
use ip_risk_agent_v.License.Policy.{
  evaluate_leaf, leads_of, every_leaf, every_note, lightest, choice_notes, severity, by_severity,
  Evaluation, heaviest, is_known, combine_and, combine_or, choose, evaluate_node, evaluate_operands,
  decide_leaf,
}
use ip_risk_agent_v.License.Policy.Order.{
  by_severity-severity, heavier, prefer, worst, best, heaviest-worst, lightest-best, best-keep,
}

-- All obligations of an AND hold at once; of an OR the recipient picks the lightest known.
unfoldable mutual
  pub judge : ExpressionNode → LicensePolicyOutcome
  judge (license identifier exception) = (decide_leaf identifier exception).outcome
  judge (and_node operands) = worst_of operands
  judge (or_node operands) = best_of operands

  pub worst_of : Operands → LicensePolicyOutcome
  worst_of (one n) = judge n
  worst_of (more n ns) = heavier (judge n) (worst_of ns)

  pub best_of : Operands → LicensePolicyOutcome
  best_of (one n) = judge n
  best_of (more n ns) = prefer (judge n) (best_of ns)

abbrev pub and_result : Evaluation → List Evaluation → Evaluation
and_result r rs = record {
  outcome = worst (r ∷ rs);
  leading = leads_of (λ s. severity s.outcome == heaviest r rs) (r ∷ rs);
  all_leaves = every_leaf (r ∷ rs);
  notes = every_note (r ∷ rs);
}

-- The choice among the results, where these are the known ones.
abbrev pub or_result : List Evaluation → List Evaluation → Evaluation
or_result results [] = record {
  outcome = LicensePolicyOutcome.unknown;
  leading = every_leaf results;
  all_leaves = every_leaf results;
  notes = every_note results;
}
or_result results (k ∷ ks) =
    let leading = leads_of (λ s. severity s.outcome == lightest k ks) (k ∷ ks) in
    let dropped = leads_of (λ s. ltb (lightest k ks) (severity s.outcome)) results in
    record {
      outcome = best results;
      leading = leading;
      all_leaves = every_leaf results;
      notes = every_note results ++ choice_notes leading dropped;
    }

pub combine_and_lem :
    (r : Evaluation) (rs : List Evaluation) → combine_and r rs ≡ ok (and_result r rs)
unfolding combine_and
combine_and_lem r rs =
    let e : by_severity (heaviest r rs) ≡ ok (worst (r ∷ rs)) =
      ap by_severity (heaviest-worst r rs) ∙ by_severity-severity (worst (r ∷ rs)) in
    rw e refl

choose_lem :
    (results ks : List Evaluation)
    → keep is_known results ≡ ks
    → (choose results ks ≡ ok (or_result results ks))
      × ((or_result results ks).outcome ≡ best results)
unfolding choose
choose_lem results [] h = (refl, ap best (sym h) ∙ best-keep results)
choose_lem results (k ∷ ks) h =
    let e : by_severity (lightest k ks) ≡ ok (best results) =
      ap by_severity (lightest-best results ks k h).0 ∙ by_severity-severity (best results) in
    (rw e refl, refl)

pub combine_or_lem :
    (r : Evaluation) (rs : List Evaluation)
    → let e = or_result (r ∷ rs) (keep is_known (r ∷ rs)) in
      (combine_or r rs ≡ ok e) × (e.outcome ≡ best (r ∷ rs))
unfolding combine_or
combine_or_lem r rs = choose_lem (r ∷ rs) (keep is_known (r ∷ rs)) refl

-- The evaluation of an expression and of the operands of one, as they come out.
unfoldable mutual
  pub result_of : ExpressionNode → Evaluation
  result_of (license identifier exception) = evaluate_leaf (decide_leaf identifier exception)
  result_of (and_node operands) = let (r, rs) = results_of operands in and_result r rs
  result_of (or_node operands) =
      let (r, rs) = results_of operands in or_result (r ∷ rs) (keep is_known (r ∷ rs))

  pub results_of : Operands → Evaluation × List Evaluation
  results_of (one n) = (result_of n, [])
  results_of (more n ns) = let (r, rs) = results_of ns in (result_of n, r ∷ rs)

mutual
  unfolding evaluate_node result_of

  pub evaluate_node_lem : (n : ExpressionNode) → evaluate_node n ≡ ok (result_of n)
  evaluate_node_lem (license identifier exception) = refl
  evaluate_node_lem (and_node operands) =
      rw (evaluate_operands_lem operands)
        (combine_and_lem (results_of operands).0 (results_of operands).1)
  evaluate_node_lem (or_node operands) =
      rw (evaluate_operands_lem operands)
        (combine_or_lem (results_of operands).0 (results_of operands).1).0

  pub evaluate_operands_lem : (ns : Operands) → evaluate_operands ns ≡ ok (results_of ns)
  evaluate_operands_lem (one n) = rw (evaluate_node_lem n) refl
  evaluate_operands_lem (more n ns) = rw (evaluate_node_lem n, evaluate_operands_lem ns) refl

pub evaluated : (n : ExpressionNode) (r : Evaluation) → evaluate_node n ≡ ok r → result_of n ≡ r
evaluated n r h = ground (arith, evaluate_node_lem n)

abbrev pub all_results : Operands → List Evaluation
all_results ns = (results_of ns).0 ∷ (results_of ns).1

mutual
  unfolding result_of judge

  pub result_of-judge : (n : ExpressionNode) → (result_of n).outcome ≡ judge n
  result_of-judge (license identifier exception) = refl
  result_of-judge (and_node operands) = worst-results operands
  result_of-judge (or_node operands) =
      (combine_or_lem (results_of operands).0 (results_of operands).1).1 ∙ best-results operands

  worst-results : (ns : Operands) → worst (all_results ns) ≡ worst_of ns
  worst-results (one n) = rw (result_of-judge n) (ground arith)
  worst-results (more n ns) = rw (result_of-judge n) (ap (heavier (judge n)) (worst-results ns))

  best-results : (ns : Operands) → best (all_results ns) ≡ best_of ns
  best-results (one n) = rw (result_of-judge n) (ground arith)
  best-results (more n ns) = rw (result_of-judge n) (ap (prefer (judge n)) (best-results ns))

-- Evaluating an expression raises nothing, and its class is what the obligations amount to: of an
-- AND the heaviest class of its operands, of an OR the lightest of those that are known, unknown if
-- none is, and of a license the class of the license.
pub evaluate_node-judge :
    (n : ExpressionNode) → (r : Evaluation) × (evaluate_node n ≡ ok r) × (r.outcome ≡ judge n)
evaluate_node-judge n = (result_of n, evaluate_node_lem n, result_of-judge n)
